-- ===== src/State/Claims.antt =====
-- `Prepare`, `Unprepare` and `DestroyUnknownMIGDevices` of device_state.go.
pub mod Traces
pub mod Outcomes
pub mod Entries
pub mod Repeats
pub mod Removal
pub mod Exclusive
pub mod Reachable
use k8s_dra_driver.Common.{
  Bool, true, false, not, ◌&&◌, Option, none, some, List, [], ◌∷◌, ◌++◌, String, if◌then◌else◌, Map,
  lookup, insert, Outcome, ok, err, panic, and_then, Exec, ◌>>=◌, ◌>>◌, pure, raise, lift, modify,
  ignore_error,
}
use k8s_dra_driver.Kube.{ResourceClaim, ClaimRef, KubeletDevice}
use k8s_dra_driver.FeatureGates.{Gates}
use k8s_dra_driver.Devices.Prepared.{PreparedDevices, get_devices}
use k8s_dra_driver.Checkpoint.{
  Checkpoint, CheckpointState, PreparedClaim, prepare_started, prepare_completed, unset, other,
  is_started, is_completed, claims, update_claims, completed_only,
}
use k8s_dra_driver.Store.{
  CheckpointFile, get_checkpoint, update_checkpoint, delete_claim_from_checkpoint,
}
use k8s_dra_driver.State.{ConfigApi, Managers, DeviceState, on_store, on_host}
use k8s_dra_driver.State.Preparing.{prepare_devices}
use k8s_dra_driver.State.Unpreparing.{
  unprepare_devices, unprepare_partially_prepared_claim, allocated_devices,
}
use k8s_dra_driver.State.Siblings.{remove_all_siblings, discover_all_siblings}
use k8s_dra_driver.State.Overlap.{validate_no_overlapping_prepared_devices}

-- The entry that `Prepare` writes before it starts, and the one that it writes at the end.
abbrev pub started_claim : ResourceClaim → PreparedClaim
started_claim claim = record {
  checkpoint_state = prepare_started;
  status = claim.status;
  prepared_devices = [];
  name = claim.name;
  namespace = claim.namespace;
}

abbrev pub completed_claim : ResourceClaim → PreparedDevices → PreparedClaim
completed_claim claim devices = record {
  checkpoint_state = prepare_completed;
  status = claim.status;
  prepared_devices = devices;
  name = "";
  namespace = "";
}

abbrev pub completed_entry : Option PreparedClaim → Option PreparedClaim
completed_entry none = none
completed_entry (some c) = if is_completed c.checkpoint_state then some c else none

-- The names of the devices of the claims that are in an allocation; the append to
-- `expectedDeviceNames`.
unfoldable pub expected_devices : Map PreparedClaim → Outcome (List String)
unfolding allocated_devices
expected_devices [] = ok []
expected_devices ((uid, c) ∷ m) =
    let rest = expected_devices m in
    and_then (allocated_devices c) (λ ds. and_then rest (λ others. ok (ds ++ others)))

module _ {D C T M H : Type 0} (file : CheckpointFile D) (api : ConfigApi C T M)
    (managers : Managers H T M) (g : Gates) where
  open managers use {create_claim_spec_file, delete_claim_spec_file, obliterate_stale_mig_devices}

  abbrev State : Type 0
  State = DeviceState D H

  abbrev roll_back_started : String → Map PreparedClaim → Option PreparedClaim → Exec H (Unit {0})
  roll_back_started uid m none = pure tt
  roll_back_started uid m (some c) =
      if is_started c.checkpoint_state
      then unprepare_partially_prepared_claim api managers g uid c m
      else pure tt

  -- The block of `Prepare` that is skipped where HAMiCoreSupport is enabled.
  unfoldable check_claim : ResourceClaim → Map PreparedClaim → Exec H (Unit {0})
  unfolding validate_no_overlapping_prepared_devices unprepare_partially_prepared_claim lookup
  check_claim claim m =
      if g.hami_core_support
      then pure tt
      else (lift (validate_no_overlapping_prepared_devices m claim)
          >> roll_back_started claim.uid m (lookup claim.uid m))

  abbrev drop_siblings : PreparedDevices → Exec State (Unit {0})
  drop_siblings devices =
      if g.passthrough_support
      then modify
          (λ s. record s { allocatable = remove_all_siblings (get_devices devices) s.allocatable })
      else pure tt

  -- The steps of `Prepare` from the call of `prepareDevices` on.
  unfoldable prepare_and_record : ResourceClaim → Exec State (List KubeletDevice)
  unfolding prepare_devices get_devices remove_all_siblings update_checkpoint
  prepare_and_record claim =
      (λ s. on_host (prepare_devices api managers g s.allocatable claim) s) >>= λ devices.
      drop_siblings devices
      >> on_host (create_claim_spec_file claim.uid devices)
      >> on_store (
          update_checkpoint file (update_claims (insert claim.uid (completed_claim claim devices))))
      >> pure (get_devices devices)

  -- The steps of `Prepare` for a claim that is not prepared.
  unfoldable prepare_new : ResourceClaim → Map PreparedClaim → Exec State (List KubeletDevice)
  unfolding check_claim update_checkpoint prepare_and_record
  prepare_new claim m =
      on_host (check_claim claim m)
      >> on_store (update_checkpoint file (update_claims (insert claim.uid (started_claim claim))))
      >> prepare_and_record claim

  -- What follows on the entry of the claim, if it is prepared to the end.
  unfoldable resume :
      ResourceClaim → Map PreparedClaim → Option PreparedClaim → Exec State (List KubeletDevice)
  unfolding get_devices prepare_new
  resume claim m (some c) = pure (get_devices c.prepared_devices)
  resume claim m none = prepare_new claim m

  -- (s *DeviceState) Prepare
  unfoldable pub prepare : ResourceClaim → Exec State (List KubeletDevice)
  unfolding get_checkpoint lookup resume
  prepare claim = on_store (get_checkpoint file) >>= λ cp.
      resume claim (claims cp) (completed_entry (lookup claim.uid (claims cp)))

  abbrev unprepare_state :
      CheckpointState → String → PreparedClaim → Map PreparedClaim → Exec State (Unit {0})
  unprepare_state prepare_started uid c m =
      on_host (unprepare_partially_prepared_claim api managers g uid c m)
  unprepare_state prepare_completed uid c m =
      λ s. on_host (unprepare_devices api managers g s.allocatable uid c.prepared_devices) s
  unprepare_state unset uid c m = raise "unsupported ClaimCheckpointState"
  unprepare_state (other _) uid c m = raise "unsupported ClaimCheckpointState"

  abbrev restore_siblings : PreparedDevices → Exec State (Unit {0})
  restore_siblings devices =
      if g.passthrough_support
      then discover_all_siblings managers (get_devices devices)
      else pure tt

  -- The steps of `Unprepare` for a claim that is in the checkpoint.
  unfoldable unprepare_found : String → PreparedClaim → Map PreparedClaim → Exec State (Unit {0})
  unfolding unprepare_partially_prepared_claim unprepare_devices get_devices discover_all_siblings
      delete_claim_from_checkpoint
  unprepare_found uid c m =
      unprepare_state c.checkpoint_state uid c m
      >> restore_siblings c.prepared_devices
      >> ignore_error (on_host (delete_claim_spec_file uid))
      >> on_store (delete_claim_from_checkpoint file uid)

  -- A claim that is not in the checkpoint is no error.
  unfoldable unprepare_entry :
      String → Map PreparedClaim → Option PreparedClaim → Exec State (Unit {0})
  unfolding unprepare_found
  unprepare_entry uid m none = pure tt
  unprepare_entry uid m (some c) = unprepare_found uid c m

  -- (s *DeviceState) Unprepare
  unfoldable pub unprepare : ClaimRef → Exec State (Unit {0})
  unfolding get_checkpoint lookup unprepare_entry
  unprepare ref = on_store (get_checkpoint file) >>= λ cp.
      unprepare_entry ref.uid (claims cp) (lookup ref.uid (claims cp))

  -- (s *DeviceState) DestroyUnknownMIGDevices: errors are logged, a panic is not.
  unfoldable pub destroy_unknown_mig_devices : Exec State (Unit {0})
  unfolding get_checkpoint expected_devices
  destroy_unknown_mig_devices = ignore_error (
      on_store (get_checkpoint file) >>= λ cp.
      lift (expected_devices (completed_only (claims cp))) >>= λ names.
      on_host (obliterate_stale_mig_devices names))
