-- ===== src/Checkpoint/Versions.antt =====
-- The conversions between the versions of a checkpoint.
use k8s_dra_driver.Common.{
  Option, none, some, [], ◌∷◌, String, Map, IsMap, lookup, lookup-keep, lookup-map_values, keep,
  map_values, ◌≡◌, refl, arith, ok, map_option, passed, if◌then◌else◌,
}
use k8s_dra_driver.Checkpoint.{
  Checkpoint, CheckpointV1, CheckpointV2, PreparedClaim, PreparedClaimV1, is_completed, upgrade,
  downgrade, completed_only, newest, with_map, to_v1, to_v2, to_latest_version, claims, entries,
  update_claims, get_node_boot_id,
}

-- Bringing a checkpoint to the latest version once more changes nothing.
pub latest-latest :
    (cp : Checkpoint) → to_latest_version (to_latest_version cp) ≡ to_latest_version cp
unfolding to_latest_version
latest-latest cp = refl

-- A checkpoint of the latest version with its map of claims changed.
abbrev pub changed : (Map PreparedClaim → Map PreparedClaim) → Checkpoint → Checkpoint
changed f cp =
    let v2 = with_map (newest cp.v2 cp.v1) in
    record {
      checksum = 0;
      v1 = none;
      v2 = some (record v2 { prepared_claims = some (f (entries v2.prepared_claims)) });
    }

-- Behind `ToLatestVersion` a write to the map of claims cannot panic.
pub update_claims-latest :
    (f : Map PreparedClaim → Map PreparedClaim) (cp : Checkpoint)
    → (update_claims f (to_latest_version cp) ≡ ok (changed f cp))
      × (claims (changed f cp) ≡ f (claims (to_latest_version cp)))
      × (to_latest_version (changed f cp) ≡ changed f cp)
      × (get_node_boot_id (changed f cp) ≡ get_node_boot_id (to_latest_version cp))
unfolding update_claims to_latest_version get_node_boot_id
update_claims-latest f cp = (refl, refl, refl, refl)

round_trip :
    (m : Map PreparedClaimV1) → map_values downgrade (completed_only (map_values upgrade m)) ≡ m
unfolding map_values keep
round_trip [] = refl
round_trip ((k, c) ∷ m) = ground (arith, round_trip m)

-- A V1 checkpoint that is converted to V2 and back holds the claims that it held.
pub to_v1-to_v2 :
    (v1 : CheckpointV1) → entries (to_v1 (to_v2 v1)).prepared_claims ≡ entries v1.prepared_claims
unfolding to_v1 to_v2
to_v1-to_v2 v1 = round_trip (entries v1.prepared_claims)

-- What is left of a claim of a V2 checkpoint that went through V1: nothing of one that was not
-- prepared to the end, and all but its name and namespace of one that was.
abbrev pub survives : Option PreparedClaim → Option PreparedClaim
survives none = none
survives (some c) =
    if is_completed c.checkpoint_state then some (record c { name = ""; namespace = "" }) else none

converted :
    (c : Option PreparedClaim)
    → map_option upgrade (map_option downgrade (passed (λ c. is_completed c.checkpoint_state) c))
      ≡ survives c
converted none = refl
converted (some c) = ground arith

-- A V2 checkpoint whose keys are distinct, downgraded to V1 and upgraded again, holds exactly the
-- claims that were prepared to the end, less their names and namespaces.
pub lookup-to_v2-to_v1 :
    (v2 : CheckpointV2) (uid : String)
    → IsMap (entries v2.prepared_claims)
    → lookup uid (entries (to_v2 (to_v1 v2)).prepared_claims)
      ≡ survives (lookup uid (entries v2.prepared_claims))
unfolding to_v1 to_v2
lookup-to_v2-to_v1 v2 uid h =
    rw (lookup-map_values, lookup-map_values, lookup-keep _ uid (entries v2.prepared_claims) h)
      (converted (lookup uid (entries v2.prepared_claims)))
