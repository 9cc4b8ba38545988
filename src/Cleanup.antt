-- ===== src/Cleanup.antt =====
-- cmd/hami-kubelet-plugin/cleanup.go: the removal of claims that were prepared in part and that the
-- API server does not know any more. The goroutines that run this routine are in Manager.
pub mod Spared
pub mod Manager
use k8s_dra_driver.Common.{
  Bool, true, false, not, Option, none, some, List, [], ◌∷◌, String, ◌==◌, if◌then◌else◌, Map, keep,
  Outcome, ok, err, panic, Fault, not_found, failure, Exec, ◌>>=◌, ◌>>◌, pure, lift, ignore_error,
}
use k8s_dra_driver.Kube.{ClaimRef, ResourceClaim}
use k8s_dra_driver.Checkpoint.{PreparedClaim, is_started, claims}
use k8s_dra_driver.Store.{CheckpointFile, get_checkpoint}
use k8s_dra_driver.State.{DeviceState, on_store, on_host}

-- The claims that are started, by their keys.
abbrev pub started_only : Map PreparedClaim → Map PreparedClaim
started_only m = keep (λ c. is_started c.checkpoint_state) m

-- A call whose error is a result for the caller.
abbrev caught : {S A : Type 0} → Exec S A → Exec S (Outcome A)
caught m s = let (r, s') = m s in (ok r, s')

-- `get` is the `Get` of the ResourceClaims of a namespace, by name; `unprepfunc` is the function
-- that `Start` was given.
module _ {D H : Type 0} (file : CheckpointFile D) (get : String → String → Exec H ResourceClaim)
    (unprepfunc : ClaimRef → Exec (DeviceState D H) (Unit {0})) where
  -- (m *CheckpointCleanupManager) unprepare
  unfoldable pub unprepare_claim : String → PreparedClaim → Exec (DeviceState D H) (Unit {0})
  unprepare_claim uid c =
      ignore_error (unprepfunc (record { uid = uid; name = c.name; namespace = c.namespace }))

  abbrev act_on : String → PreparedClaim → Outcome ResourceClaim → Exec (DeviceState D H) (Unit {0})
  act_on uid c (ok claim) = if claim.uid == uid then pure tt else unprepare_claim uid c
  act_on uid c (err (not_found m)) = unprepare_claim uid c
  act_on uid c (err (failure m)) = pure tt
  act_on uid c panic = lift panic

  -- (m *CheckpointCleanupManager) unprepareIfStale, with getClaimByName
  unfoldable pub unprepare_if_stale : String → PreparedClaim → Exec (DeviceState D H) (Unit {0})
  unfolding unprepare_claim
  unprepare_if_stale uid c =
      if c.name == ""
      then pure tt
      else (on_host (caught (get c.name c.namespace)) >>= λ r. act_on uid c r)

  unfoldable unprepare_all : Map PreparedClaim → Exec (DeviceState D H) (Unit {0})
  unfolding unprepare_if_stale
  unprepare_all [] = pure tt
  unprepare_all ((uid, c) ∷ m) = let rest = unprepare_all m in unprepare_if_stale uid c >> rest

  -- (m *CheckpointCleanupManager) cleanup
  unfoldable pub cleanup : Exec (DeviceState D H) (Unit {0})
  unfolding get_checkpoint unprepare_all keep
  cleanup =
      ignore_error
        (on_store (get_checkpoint file) >>= λ cp. unprepare_all (started_only (claims cp)))
