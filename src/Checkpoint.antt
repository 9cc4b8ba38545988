-- ===== src/Checkpoint.antt =====
-- cmd/hami-kubelet-plugin/checkpoint.go and checkpointv.go: the node-local record of the claims that
-- are prepared, its two versions and the conversions between them. A nil map is `none`.
pub mod Versions
pub mod Codec
pub mod Persist
pub mod RoundTrip
pub mod Idempotent
use k8s_dra_driver.Common.{
  ℕ, Bool, true, false, Option, none, some, String, Map, lookup, insert, keep, map_values, Outcome,
  ok, panic, List, [],
}
use k8s_dra_driver.Kube.{ClaimStatus}
use k8s_dra_driver.Devices.Prepared.{PreparedDevices, non_admin_devices}

-- A text other than the three constants is `other`.
pub data CheckpointState : Type 0 where
  unset prepare_started prepare_completed : CheckpointState
  other : String → CheckpointState

-- PreparedClaimV2
pub record PreparedClaim : Type 0 where
  pub checkpoint_state : CheckpointState
  pub status : ClaimStatus
  pub prepared_devices : PreparedDevices
  pub name : String
  pub namespace : String

pub record CheckpointV2 : Type 0 where
  pub checksum : ℕ
  pub prepared_claims : Option (Map PreparedClaim)
  pub node_boot_id : String

pub record PreparedClaimV1 : Type 0 where
  pub status : ClaimStatus
  pub prepared_devices : PreparedDevices

pub record CheckpointV1 : Type 0 where
  pub prepared_claims : Option (Map PreparedClaimV1)

-- The checksum is that of the V1 checkpoint.
pub record Checkpoint : Type 0 where
  pub checksum : ℕ
  pub v1 : Option CheckpointV1
  pub v2 : Option CheckpointV2

-- `range` over a nil map visits nothing, and a read of one finds nothing.
abbrev pub entries {ℓ} : {V : Type ℓ} → Option (Map V) → Map V
entries none = []
entries (some m) = m

abbrev pub is_completed : CheckpointState → Bool
is_completed prepare_completed = true
is_completed _ = false

abbrev pub is_started : CheckpointState → Bool
is_started prepare_started = true
is_started _ = false

abbrev upgrade : PreparedClaimV1 → PreparedClaim
upgrade c = record {
  checkpoint_state = prepare_completed;
  status = c.status;
  prepared_devices = c.prepared_devices;
  name = "";
  namespace = "";
}

abbrev downgrade : PreparedClaim → PreparedClaimV1
downgrade c = record { status = c.status; prepared_devices = c.prepared_devices }

-- (v1 *CheckpointV1) ToV2
unfoldable pub to_v2 : CheckpointV1 → CheckpointV2
to_v2 v1 = record {
  checksum = 0;
  prepared_claims = some (map_values upgrade (entries v1.prepared_claims));
  node_boot_id = "";
}

-- The claims that were prepared to the end; the loop of `ToV1` passes over the others.
abbrev pub completed_only : Map PreparedClaim → Map PreparedClaim
completed_only m = keep (λ c. is_completed c.checkpoint_state) m

-- (v2 *CheckpointV2) ToV1
unfoldable pub to_v1 : CheckpointV2 → CheckpointV1
to_v1 v2 = record {
  prepared_claims = some (map_values downgrade (completed_only (entries v2.prepared_claims)));
}

abbrev empty_v2 : CheckpointV2
empty_v2 = record { checksum = 0; prepared_claims = none; node_boot_id = "" }

-- The `switch` of `ToLatestVersion`.
abbrev newest : Option CheckpointV2 → Option CheckpointV1 → CheckpointV2
newest (some v2) _ = v2
newest none (some v1) = to_v2 v1
newest none none = empty_v2

-- `make` in place of a nil map
abbrev with_map : CheckpointV2 → CheckpointV2
with_map v2 = record v2 { prepared_claims = some (entries v2.prepared_claims) }

-- (cp *Checkpoint) ToLatestVersion
unfoldable pub to_latest_version : Checkpoint → Checkpoint
unfolding to_v2
to_latest_version cp = record { checksum = 0; v1 = none; v2 = some (with_map (newest cp.v2 cp.v1)) }

-- (cp *Checkpoint) GetNodeBootID
unfoldable pub get_node_boot_id : Checkpoint → String
get_node_boot_id cp = elim cp.v2 [ some v2 ↦ v2.node_boot_id | none ↦ "" ]

-- cp.V2.PreparedClaims, read: `cp.V2` is not nil behind `ToLatestVersion`.
abbrev pub claims : Checkpoint → Map PreparedClaim
claims cp = elim cp.v2 [ some v2 ↦ entries v2.prepared_claims | none ↦ [] ]

-- A write to cp.V2.PreparedClaims panics where `cp.V2` or the map is nil.
abbrev write_map :
    (Map PreparedClaim → Map PreparedClaim) → Checkpoint → Option CheckpointV2 → Outcome Checkpoint
write_map f cp none = panic
write_map f cp (some v2) = elim v2.prepared_claims [
  | none ↦ panic
  | some m ↦ ok (record cp { v2 = some (record v2 { prepared_claims = some (f m) }) })
]

unfoldable pub update_claims :
    (Map PreparedClaim → Map PreparedClaim) → Checkpoint → Outcome Checkpoint
update_claims f cp = write_map f cp cp.v2

-- (c *PreparedClaim) GetNonAdminDevices: the capacity of the map reads `c.Status.Allocation` above
-- the test for nil.
unfoldable pub get_non_admin_devices : PreparedClaim → Outcome (List String)
unfolding non_admin_devices
get_non_admin_devices c = elim c.status.allocation [
  | none ↦ panic
  | some a ↦ ok (non_admin_devices a.results)
]
