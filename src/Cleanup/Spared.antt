-- ===== src/Cleanup/Spared.antt =====
-- The cleanup acts on no claim but those that were started.
use k8s_dra_driver.Common.{
  true, false, none, [], ◌∷◌, String, ◌==◌, eq_iff, if◌then◌else◌, Map, IsMap, lookup, lookup-keep,
  passed, Outcome, ok, err, panic, not_found, failure, Exec, ◌>>=◌, pure, ◌≡◌, ◌≢◌, refl, ap, sym,
  ◌∙◌, arith, chain-cases,
}
use k8s_dra_driver.Kube.{ClaimRef, ResourceClaim}
use k8s_dra_driver.Checkpoint.{PreparedClaim, is_started, claims}
use k8s_dra_driver.Store.{CheckpointFile}
use k8s_dra_driver.Store.Laws.{IsFile}
use k8s_dra_driver.Store.Updates.{entry, stored_claims, of_file}
use k8s_dra_driver.State.{DeviceState, on_host}
use k8s_dra_driver.State.Keeping.{kept-cases}
use k8s_dra_driver.State.Claims.Outcomes.{Spares}
use k8s_dra_driver.State.Claims.Traces.{read-cases}
use k8s_dra_driver.Cleanup.{
  started_only, unprepare_claim, act_on, caught, unprepare_if_stale, unprepare_all, cleanup,
}

module _ {D H : Type 0} (file : CheckpointFile D) (laws : IsFile file)
    (get : String → String → Exec H ResourceClaim)
    (unprepfunc : ClaimRef → Exec (DeviceState D H) (Unit {0}))
    (spares : (ref : ClaimRef) (s : DeviceState D H)
      → Spares file ref.uid s.store (unprepfunc ref s).1.store) where
  act_on-Spares :
      (uid : String) (c : PreparedClaim) (r : Outcome ResourceClaim) (s : DeviceState D H)
      → Spares file uid s.store (act_on file get unprepfunc uid c r s).1.store
  unfolding unprepare_claim
  act_on-Spares uid c (ok claim) s k n =
      elim (claim.uid == uid)
        as (λ b.
          entry file ((if b then pure tt else unprepare_claim file get unprepfunc uid c) s).1.store
            k
          ≡ entry file s.store k) [
            | true ↦ refl
            | false ↦ spares (record { uid = uid; name = c.name; namespace = c.namespace }) s k n
          ]
  act_on-Spares uid c (err (not_found m)) s k n =
      spares (record { uid = uid; name = c.name; namespace = c.namespace }) s k n
  act_on-Spares uid c (err (failure m)) s k n = refl
  act_on-Spares uid c panic s k n = refl

  lookup-Spares :
      (uid : String) (c : PreparedClaim) (s : DeviceState D H)
      → Spares file uid s.store
          ((on_host (caught (get c.name c.namespace)) >>= λ r. act_on file get unprepfunc uid c r)
            s).1.store
  lookup-Spares uid c s =
      kept-cases (on_host (caught (get c.name c.namespace)))
        (λ r. act_on file get unprepfunc uid c r) (λ p. Spares file uid s.store p.1.store) s
        (λ s. refl) (λ r s' e k n. act_on-Spares uid c r s' k n ∙ ap (λ d. entry file d k) e)
        (λ r s' b e k n. ap (λ d. entry file d k) e)

  stale-Spares :
      (uid : String) (c : PreparedClaim) (s : DeviceState D H)
      → Spares file uid s.store (unprepare_if_stale file get unprepfunc uid c s).1.store
  unfolding unprepare_if_stale
  stale-Spares uid c s k n =
      elim (c.name == "")
        as (λ b.
          entry file
            ((if b
                then pure tt
                else (on_host (caught (get c.name c.namespace)) >>= λ r.
                    act_on file get unprepfunc uid c r))
              s).1.store
            k
          ≡ entry file s.store k) [ true ↦ refl | false ↦ lookup-Spares uid c s k n ]

  -- A key that is not in the map is not acted on.
  all-Spares :
      (m : Map PreparedClaim) (k : String) (s : DeviceState D H)
      → lookup k m ≡ none
      → entry file (unprepare_all file get unprepfunc m s).1.store k ≡ entry file s.store k
  unfolding unprepare_all lookup
  all-Spares [] k s absent = refl
  all-Spares ((uid, c) ∷ m) k s absent =
      let other : uid ≢ k = λ e. cc ((eq_iff uid k).1 e) in
      let rest : lookup k m ≡ none = ground arith in
      chain-cases (unprepare_if_stale file get unprepfunc uid c)
        (λ _. unprepare_all file get unprepfunc m)
        (λ p. entry file p.1.store k ≡ entry file s.store k) s
        (λ _ s' e.
          all-Spares m k s' rest
          ∙ ap (λ p. entry file p.1.store k) (sym e)
          ∙ stale-Spares uid c s k other)
        (λ r s' b e b'. ap (λ s. entry file s.store k) (sym e) ∙ stale-Spares uid c s k other)

  -- With any function that leaves the entries of other claims alone.
  pub cleanup-Spares :
      (s : DeviceState D H) (k : String)
      → IsMap (stored_claims file s.store)
      → passed (λ c. is_started c.checkpoint_state) (entry file s.store k) ≡ none
      → entry file (cleanup file get unprepfunc s).1.store k ≡ entry file s.store k
  unfolding cleanup
  cleanup-Spares s k unique idle =
      read-cases file laws (λ cp. unprepare_all file get unprepfunc (started_only (claims cp)))
        (λ p. entry file p.1.store k ≡ entry file s.store k) s
        (λ cp s' same read.
          all-Spares (started_only (claims cp)) k s' (
            ap (λ m. lookup k (started_only m)) read
            ∙ lookup-keep (λ c. is_started c.checkpoint_state) k (stored_claims file s.store) unique
            ∙ idle)
          ∙ ap (λ r. lookup k (of_file r)) same)
        (λ r s' b same. ap (λ r. lookup k (of_file r)) same)
