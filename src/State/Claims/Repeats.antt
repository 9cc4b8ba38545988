-- ===== src/State/Claims/Repeats.antt =====
-- `Prepare` is idempotent: the kubelet may call it more than once for a claim.
use k8s_dra_driver.Common.{List, some, lookup, ok, ◌≡◌, refl, ap, subst, ◌∙◌, true}
use k8s_dra_driver.Kube.{ResourceClaim, KubeletDevice}
use k8s_dra_driver.FeatureGates.{Gates}
use k8s_dra_driver.Checkpoint.{Checkpoint, PreparedClaim, claims, is_completed}
use k8s_dra_driver.Store.{CheckpointFile, get_checkpoint}
use k8s_dra_driver.Store.Laws.{IsFile}
use k8s_dra_driver.Store.Reads.{Read, get_checkpoint-Read}
use k8s_dra_driver.State.{ConfigApi, Managers, DeviceState}
use k8s_dra_driver.State.Claims.{prepare, resume, completed_entry}
use k8s_dra_driver.State.Claims.Outcomes.{HasCompleted, Left}
use k8s_dra_driver.State.Claims.Entries.{prepare-Left}

completed_lem :
    (c : PreparedClaim) → is_completed c.checkpoint_state ≡ true → completed_entry (some c) ≡ some c
completed_lem c b = rw b refl

module _ {D C T M H : Type 0} (file : CheckpointFile D) (laws : IsFile file) (api : ConfigApi C T M)
    (managers : Managers H T M) (g : Gates) (claim : ResourceClaim) where
  again :
      (s : DeviceState D H) (devices : List KubeletDevice) (cp : Checkpoint) (d' : D)
      → HasCompleted file s.store claim.uid devices
      → get_checkpoint file s.store ≡ (ok cp, d')
      → prepare file api managers g claim s ≡ (ok devices, record s { store = d' })
  unfolding prepare resume
  again s devices cp d' (c, e, b, same) read =
      let h : Read file s.store (ok cp, d') =
        subst (λ p. Read file s.store p) read (get_checkpoint-Read file laws s.store) in
      let found : completed_entry (lookup claim.uid (claims cp)) ≡ some c =
        ap completed_entry (ap (λ m. lookup claim.uid m) h.1 ∙ e) ∙ completed_lem c b in
      rw (read, found, same) refl

  -- A claim that was prepared and is prepared again, while the checkpoint can be read, gets the same
  -- devices; nothing of the node and of the allocatable devices changes.
  pub prepare-prepare :
      (s : DeviceState D H) (devices : List KubeletDevice) (cp : Checkpoint) (d' : D)
      → (prepare file api managers g claim s).0 ≡ ok devices
      → get_checkpoint file (prepare file api managers g claim s).1.store ≡ (ok cp, d')
      → prepare file api managers g claim (prepare file api managers g claim s).1
        ≡ (ok devices, record (prepare file api managers g claim s).1 { store = d' })
  prepare-prepare s devices cp d' done read =
      let s' = (prepare file api managers g claim s).1 in
      again s' devices cp d'
        (subst (λ r. Left file claim.uid s.store s'.store r) done
          (prepare-Left file laws api managers g claim s).1)
        read
