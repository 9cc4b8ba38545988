-- ===== src/Driver/Batches.antt =====
-- What a batch of claims does: it is a sequence of calls of `Prepare` or `Unprepare`, and every claim
-- of it gets a result.
use k8s_dra_driver.Common.{
  true, false, List, [], ◌∷◌, if◌then◌else◌, Map, insert, Outcome, ok, err, panic, Exec, ◌>>=◌,
  ◌>>◌, pure, deferred, chain-cases, ◌≡◌, refl, sym, subst,
}
use k8s_dra_driver.Kube.{ClaimRef, ResourceClaim, KubeletDevice}
use k8s_dra_driver.FeatureGates.{Gates}
use k8s_dra_driver.Store.{CheckpointFile}
use k8s_dra_driver.Store.Laws.{IsFile}
use k8s_dra_driver.State.{ConfigApi, Managers, DeviceState, on_host}
use k8s_dra_driver.State.Claims.{prepare, unprepare}
use k8s_dra_driver.State.Claims.Exclusive.{IsExclusive}
use k8s_dra_driver.State.Claims.Reachable.{
  Reaches, start_here, prepared, unprepared, elsewhere, Reaches-IsExclusive,
}
use k8s_dra_driver.Driver.{
  DriverParts, noted, unlock, publish, prepare_locked, unprepare_locked, node_prepare_resource,
  node_unprepare_resource, prepare_each, unprepare_each, prepare_resource_claims,
  unprepare_resource_claims,
}

noted-state : {S A : Type 0} (p : Outcome A × S) → (noted p).1 ≡ p.1
noted-state (ok a, s) = refl
noted-state (err e, s) = refl
noted-state (panic, s) = refl

module _ {D C T M H : Type 0} (file : CheckpointFile D) (api : ConfigApi C T M)
    (managers : Managers H T M) (g : Gates) (parts : DriverParts H) (start : DeviceState D H) where
  -- A state that sequences of calls lead to.
  abbrev R : DeviceState D H → Type 0
  R s = Reaches file api managers g start s

  host_step : {A : Type 0} (m : Exec H A) (s : DeviceState D H) → R s → R (on_host m s).1
  host_step m s r = elsewhere s.allocatable (m s.host).1 s r

  publish_step : (s : DeviceState D H) → R s → R (publish file api managers g parts s).1
  publish_step s r =
      elim g.passthrough_support
        as (λ b.
          R
            ((if b then (λ s. on_host (parts.publish_resources s.allocatable) s) else pure tt)
              s).1) [ true ↦ host_step (parts.publish_resources s.allocatable) s r | false ↦ r ]

  -- A chain of two calls that keep to the reachable states.
  chain_step :
      {A B : Type 0} (m : Exec (DeviceState D H) A) (f : A → Exec (DeviceState D H) B)
      (s : DeviceState D H)
      → R (m s).1
      → ((a : A) (s' : DeviceState D H) → R s' → R (f a s').1)
      → R ((m >>= f) s).1
  chain_step m f s r h =
      chain-cases m f (λ p. R p.1) s (λ a s' e. h a s' (subst (λ p. R p.1) e r))
        (λ x s' b e b'. subst R e r)

  unlock_step : (s : DeviceState D H) → R s → R (unlock file api managers g parts s)
  unlock_step s r = elsewhere s.allocatable (parts.release s.host) s r

  node_prepare_step :
      (c : ResourceClaim) (s : DeviceState D H)
      → R s
      → R (node_prepare_resource file api managers g parts c s).1
  unfolding node_prepare_resource prepare_locked
  node_prepare_step c s r =
      chain_step (on_host parts.acquire)
        (λ _.
          deferred (unlock file api managers g parts) (prepare_locked file api managers g parts c))
        s (host_step parts.acquire s r)
        (λ _ s1 r1. unlock_step (prepare_locked file api managers g parts c s1).1 (
          chain_step (prepare file api managers g c)
            (λ devices. publish file api managers g parts >> pure devices) s1 (prepared c s1 r1)
            (λ devices s2 r2.
              chain_step (publish file api managers g parts) (λ _. pure devices) s2
                (publish_step s2 r2) (λ _ s3 r3. r3))))

  node_unprepare_step :
      (c : ClaimRef) (s : DeviceState D H)
      → R s
      → R (node_unprepare_resource file api managers g parts c s).1
  unfolding node_unprepare_resource unprepare_locked
  node_unprepare_step c s r =
      chain_step (on_host parts.acquire)
        (λ _.
          deferred (unlock file api managers g parts)
            (unprepare_locked file api managers g parts c))
        s (host_step parts.acquire s r)
        (λ _ s1 r1. unlock_step (unprepare_locked file api managers g parts c s1).1 (
          chain_step (unprepare file api managers g c) (λ _. publish file api managers g parts) s1
            (unprepared c s1 r1) (λ _ s2 r2. publish_step s2 r2)))

  prepare_each-Reaches :
      (cs : List ResourceClaim) (results : Map (Outcome (List KubeletDevice))) (s : DeviceState D H)
      → R s
      → R (prepare_each file api managers g parts cs results s).1
  unfolding prepare_each
  prepare_each-Reaches [] results s r = r
  prepare_each-Reaches (c ∷ cs) results s r =
      chain_step (λ s. noted (node_prepare_resource file api managers g parts c s))
        (λ x. prepare_each file api managers g parts cs (insert c.uid x results)) s
        (subst R (sym (noted-state (node_prepare_resource file api managers g parts c s)))
          (node_prepare_step c s r))
        (λ x s' r'. prepare_each-Reaches cs (insert c.uid x results) s' r')

  unprepare_each-Reaches :
      (cs : List ClaimRef) (results : Map (Outcome (Unit {0}))) (s : DeviceState D H)
      → R s
      → R (unprepare_each file api managers g parts cs results s).1
  unfolding unprepare_each
  unprepare_each-Reaches [] results s r = r
  unprepare_each-Reaches (c ∷ cs) results s r =
      chain_step (λ s. noted (node_unprepare_resource file api managers g parts c s))
        (λ x. unprepare_each file api managers g parts cs (insert c.uid x results)) s
        (subst R (sym (noted-state (node_unprepare_resource file api managers g parts c s)))
          (node_unprepare_step c s r))
        (λ x s' r'. unprepare_each-Reaches cs (insert c.uid x results) s' r')

-- Without HAMiCoreSupport, a batch of claims to prepare, whatever fails in it, keeps the devices of
-- the prepared claims exclusive, and so does a batch of claims to unprepare after it.
pub batches-IsExclusive :
    {D C T M H : Type 0} (file : CheckpointFile D) (laws : IsFile file) (api : ConfigApi C T M)
    (managers : Managers H T M) (g : Gates) (parts : DriverParts H) (s : DeviceState D H)
    (claims : List ResourceClaim) (refs : List ClaimRef)
    → g.hami_core_support ≡ false
    → IsExclusive file s.store
    → let s' = (prepare_resource_claims file api managers g parts claims s).1 in
      IsExclusive file s'.store
      × IsExclusive file (unprepare_resource_claims file api managers g parts refs s').1.store
unfolding prepare_resource_claims unprepare_resource_claims
batches-IsExclusive file laws api managers g parts s claims refs off old =
    let s' = (prepare_resource_claims file api managers g parts claims s).1 in
    let r = prepare_each-Reaches file api managers g parts s claims [] s start_here in
    (
      Reaches-IsExclusive file laws api managers g s s' off old r,
      Reaches-IsExclusive file laws api managers g s
          (unprepare_resource_claims file api managers g parts refs s').1 off old
          (unprepare_each-Reaches file api managers g parts s refs [] s' r),
    )
