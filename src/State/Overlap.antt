-- ===== src/State/Overlap.antt =====
-- `requestedNonAdminDevices` and `validateNoOverlappingPreparedDevices` of device_state.go.
pub mod Laws
use k8s_dra_driver.Common.{
  Bool, true, false, not, ◌||◌, Option, none, some, List, [], ◌∷◌, String, ◌==◌, if◌then◌else◌,
  contains, Map, Outcome, ok, err, panic, failure, and_then,
}
use k8s_dra_driver.Kube.{ResourceClaim}
use k8s_dra_driver.Devices.Prepared.{non_admin_devices}
use k8s_dra_driver.Checkpoint.{PreparedClaim, is_completed, get_non_admin_devices}

-- (s *DeviceState) requestedNonAdminDevices; a nil allocation is a panic.
unfoldable pub requested_non_admin_devices : ResourceClaim → Outcome (List String)
unfolding non_admin_devices
requested_non_admin_devices claim = elim claim.status.allocation [
  | none ↦ panic
  | some a ↦ ok (non_admin_devices a.results)
]

-- Whether a device of the first set is in the second.
unfoldable pub overlaps : List String → List String → Bool
unfolding contains
overlaps [] ys = false
overlaps (x ∷ xs) ys = contains x ys || overlaps xs ys

-- The loop over the claims of the checkpoint.
unfoldable pub check_claims : String → List String → Map PreparedClaim → Outcome (Unit {0})
unfolding get_non_admin_devices overlaps
check_claims uid requested [] = ok tt
check_claims uid requested ((k, c) ∷ m) =
    let rest = check_claims uid requested m in
    if k == uid || not (is_completed c.checkpoint_state)
    then rest
    else and_then (get_non_admin_devices c) (λ devices.
      if overlaps requested devices
      then err (failure "requested device is already allocated to different claim")
      else rest)

abbrev check_requested : String → List String → Map PreparedClaim → Outcome (Unit {0})
check_requested uid [] m = ok tt
check_requested uid (d ∷ ds) m = check_claims uid (d ∷ ds) m

-- (s *DeviceState) validateNoOverlappingPreparedDevices
unfoldable pub validate_no_overlapping_prepared_devices :
    Map PreparedClaim → ResourceClaim → Outcome (Unit {0})
unfolding requested_non_admin_devices check_claims
validate_no_overlapping_prepared_devices m claim =
    and_then (requested_non_admin_devices claim)
      (λ requested. check_requested claim.uid requested m)
