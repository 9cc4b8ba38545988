-- ===== src/State/Claims/Outcomes.antt =====
-- What is said of the checkpoint file before and after a call of `Prepare` or `Unprepare`.
use k8s_dra_driver.Common.{
  true, false, some, List, String, eq_iff, lookup, Outcome, ok, err, panic, is_ok, ◌≡◌, ◌≢◌, ◌⊎◌,
  ap, ◌∙◌, arith,
}
use k8s_dra_driver.Kube.{ResourceClaim, KubeletDevice}
use k8s_dra_driver.FeatureGates.{Gates}
use k8s_dra_driver.Devices.Prepared.{get_devices}
use k8s_dra_driver.Checkpoint.{PreparedClaim, is_started, is_completed}
use k8s_dra_driver.Checkpoint.Persist.{persist_claim}
use k8s_dra_driver.Store.{CheckpointFile}
use k8s_dra_driver.Store.Updates.{entry, stored_claims, of_file}
use k8s_dra_driver.State.{DeviceState}
use k8s_dra_driver.State.Overlap.{validate_no_overlapping_prepared_devices}
use k8s_dra_driver.State.Claims.Traces.{Recorded}

module _ {D : Type 0} (file : CheckpointFile D) where
  -- Every other claim has the entry that it had.
  abbrev pub Spares : String → D → D → Type 0
  Spares uid d d' = (k : String) → uid ≢ k → entry file d' k ≡ entry file d k

  abbrev pub HasStarted : D → String → Type 0
  HasStarted d uid =
      (c : PreparedClaim) × (entry file d uid ≡ some c) × (is_started c.checkpoint_state ≡ true)

  -- The claim is prepared to the end, with these devices.
  abbrev pub HasCompleted : D → String → List KubeletDevice → Type 0
  HasCompleted d uid devices =
      (c : PreparedClaim) × (entry file d uid ≡ some c)
      × (is_completed c.checkpoint_state ≡ true)
      × (get_devices c.prepared_devices ≡ devices)

  -- What a prepare that fails may leave: the file as it was, or the claim as started.
  abbrev pub Left : String → D → D → Outcome (List KubeletDevice) → Type 0
  Left uid d d' (ok devices) = HasCompleted d' uid devices
  Left uid d d' (err e) = (file.load d' ≡ file.load d) ⊎ HasStarted d' uid
  Left uid d d' panic = (file.load d' ≡ file.load d) ⊎ HasStarted d' uid

  -- The claim does not overlap with a claim that is prepared, where this is tested.
  abbrev pub IsValid : Gates → ResourceClaim → D → Type 0
  IsValid g claim d =
      g.hami_core_support ≡ false
      → validate_no_overlapping_prepared_devices (stored_claims file d) claim ≡ ok tt

  -- Where a claim that is prepared comes from: it was there, or it was tested and written.
  abbrev pub Origin : Gates → ResourceClaim → D → D → Outcome (List KubeletDevice) → Type 0
  Origin g claim d d' (ok devices) =
      (entry file d' claim.uid ≡ entry file d claim.uid)
      ⊎ (IsValid g claim d
          × (c : PreparedClaim) × (entry file d' claim.uid ≡ some c)
          × (c.status ≡ claim.status))
  Origin g claim d d' (err e) = Unit
  Origin g claim d d' panic = Unit

  abbrev pub Post :
      {H : Type 0}
      → Gates
      → ResourceClaim
      → D
      → Outcome (List KubeletDevice) × DeviceState D H
      → Type 0
  Post g claim d p =
      Spares claim.uid d p.1.store × Left claim.uid d p.1.store p.0 × Origin g claim d p.1.store p.0

  pub Origin-failed :
      (g : Gates) (claim : ResourceClaim) (d d' : D) (r : Outcome (List KubeletDevice))
      → is_ok r ≡ false
      → Origin g claim d d' r
  Origin-failed g claim d d' (ok x) b = cc
  Origin-failed g claim d d' (err e) b = tt
  Origin-failed g claim d d' panic b = tt

  pub Left-failed :
      (uid : String) (d d' : D) (r : Outcome (List KubeletDevice))
      → is_ok r ≡ false
      → (file.load d' ≡ file.load d) ⊎ HasStarted d' uid
      → Left uid d d' r
  Left-failed uid d d' (ok x) b h = cc
  Left-failed uid d d' (err e) b h = h
  Left-failed uid d d' panic b h = h

  pub same_entry :
      (d d' : D) (k : String) → file.load d' ≡ file.load d → entry file d' k ≡ entry file d k
  same_entry d d' k e = ap (λ r. lookup k (of_file r)) e

  pub Recorded-other :
      (uid : String) (v : PreparedClaim) (d d' : D) → Recorded file uid v d d' → Spares uid d d'
  Recorded-other uid v d d' h k n = h k ∙ ground (arith, eq_iff uid k)

  pub Recorded-own :
      (uid : String) (v : PreparedClaim) (d d' : D)
      → Recorded file uid v d d'
      → entry file d' uid ≡ some (persist_claim v)
  Recorded-own uid v d d' h = h uid ∙ ground (arith, eq_iff uid uid)

  pub trans : (uid : String) (d d' d'' : D) → Spares uid d d' → Spares uid d' d'' → Spares uid d d''
  trans uid d d' d'' h h' k n = h' k n ∙ h k n
