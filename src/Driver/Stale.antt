-- ===== src/Driver/Stale.antt =====
-- The cleanup of stale claims as `NewDriver` starts it: with `nodeUnprepareResource`.
use k8s_dra_driver.Common.{
  true, false, none, String, if◌then◌else◌, passed, IsMap, Exec, pure, deferred, chain-cases, ◌≡◌,
  ◌∙◌, ap, sym, refl,
}
use k8s_dra_driver.Kube.{ClaimRef, ResourceClaim}
use k8s_dra_driver.FeatureGates.{Gates}
use k8s_dra_driver.Checkpoint.{is_started}
use k8s_dra_driver.Store.{CheckpointFile}
use k8s_dra_driver.Store.Laws.{IsFile}
use k8s_dra_driver.Store.Updates.{entry, stored_claims}
use k8s_dra_driver.State.{ConfigApi, Managers, DeviceState, on_host}
use k8s_dra_driver.State.Keeping.{Keeps, kept-cases, on_host-Keeps}
use k8s_dra_driver.State.Claims.{unprepare}
use k8s_dra_driver.State.Claims.Outcomes.{Spares}
use k8s_dra_driver.State.Claims.Removal.{unprepare-Gone}
use k8s_dra_driver.Driver.{DriverParts, unlock, publish, unprepare_locked, node_unprepare_resource}
use k8s_dra_driver.Cleanup.{cleanup}
use k8s_dra_driver.Cleanup.Spared.{cleanup-Spares}

module _ {D C T M H : Type 0} (file : CheckpointFile D) (laws : IsFile file) (api : ConfigApi C T M)
    (managers : Managers H T M) (g : Gates) (parts : DriverParts H) where
  publish-Keeps : Keeps (publish file api managers g parts)
  publish-Keeps s =
      elim g.passthrough_support
        as (λ b.
          ((if b then (λ s. on_host (parts.publish_resources s.allocatable) s) else pure tt)
            s).1.store
          ≡ s.store) [
            | true ↦ on_host-Keeps D (parts.publish_resources s.allocatable) s
            | false ↦ refl
          ]

  locked-Spares :
      (ref : ClaimRef) (s : DeviceState D H)
      → Spares file ref.uid s.store (unprepare_locked file api managers g parts ref s).1.store
  unfolding unprepare_locked
  locked-Spares ref s =
      chain-cases (unprepare file api managers g ref) (λ _. publish file api managers g parts)
        (λ p. Spares file ref.uid s.store p.1.store) s
        (λ _ s' e k n.
          ap (λ d. entry file d k) (publish-Keeps s')
          ∙ ap (λ p. entry file p.1.store k) (sym e)
          ∙ (unprepare-Gone file laws api managers g ref s).0 k n)
        (λ r s' b e b' k n.
          ap (λ s. entry file s.store k) (sym e)
          ∙ (unprepare-Gone file laws api managers g ref s).0 k n)

  node_unprepare_resource-Spares :
      (ref : ClaimRef) (s : DeviceState D H)
      → Spares file ref.uid s.store
          (node_unprepare_resource file api managers g parts ref s).1.store
  unfolding node_unprepare_resource
  node_unprepare_resource-Spares ref s =
      kept-cases (on_host parts.acquire)
        (λ _.
          deferred (unlock file api managers g parts)
            (unprepare_locked file api managers g parts ref))
        (λ p. Spares file ref.uid s.store p.1.store) s (on_host-Keeps D parts.acquire)
        (λ _ s' e k n. locked-Spares ref s' k n ∙ ap (λ d. entry file d k) e)
        (λ r s' b e k n. ap (λ d. entry file d k) e)

  -- Where the keys of the checkpoint are distinct, a cleanup that unprepares stale claims with
  -- `nodeUnprepareResource` leaves the entry of every claim that is not recorded as started as it is:
  -- those that are prepared to the end, and those that are absent.
  pub cleanup-entry :
      (get : String → String → Exec H ResourceClaim) (s : DeviceState D H) (k : String)
      → IsMap (stored_claims file s.store)
      → passed (λ c. is_started c.checkpoint_state) (entry file s.store k) ≡ none
      → entry file
          (cleanup file get (node_unprepare_resource file api managers g parts) s).1.store
          k
        ≡ entry file s.store k
  cleanup-entry get s k unique idle =
      cleanup-Spares file laws get (node_unprepare_resource file api managers g parts)
        node_unprepare_resource-Spares s k unique idle
