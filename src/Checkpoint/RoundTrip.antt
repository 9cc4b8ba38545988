-- ===== src/Checkpoint/RoundTrip.antt =====
-- What is read back from a checkpoint file that was written.
use k8s_dra_driver.Common.{
  ℕ, Option, none, some, [], ◌∷◌, ◌++◌, Map, map_values, ◌≡◌, refl, ap, ap₂, ◌∙◌, arith, Outcome,
  ok, err, panic, and_then,
}
use k8s_dra_driver.Devices.Prepared.{
  PreparedDevice, PreparedDeviceList, PreparedDevices, prepared_view, view_device, list_devices,
  get_devices,
}
use k8s_dra_driver.Checkpoint.{
  Checkpoint, CheckpointV1, CheckpointV2, PreparedClaim, PreparedClaimV1, upgrade,
  to_latest_version, to_v1, newest, with_map, claims, entries, get_node_boot_id,
}
use k8s_dra_driver.Checkpoint.Persist.{
  persist, persist_claim, persist_claim_v1, persist_map, persist_groups, persist_list,
  persist_device,
}
use k8s_dra_driver.Checkpoint.Codec.{
  Json, IsJson, v1_part, v2_part, marshal_checkpoint, unmarshal_checkpoint, verify_checksum,
  verify_checksum_v2,
}

-- The value that `MarshalCheckpoint` hands to `json.Marshal`, with its two checksums.
abbrev pub written : ℕ → ℕ → Checkpoint → Checkpoint
written c1 c2 cp =
    let v2 = with_map (newest cp.v2 cp.v1) in
    record { checksum = c1; v1 = some (to_v1 v2); v2 = some (record v2 { checksum = c2 }) }

claims-persist_map :
    (m : Option (Map PreparedClaim))
    → entries (persist_map persist_claim m) ≡ map_values persist_claim (entries m)
unfolding map_values
claims-persist_map none = refl
claims-persist_map (some []) = refl
claims-persist_map (some (e ∷ m)) = refl

-- The claims of a checkpoint that was written and read back are those that were written, less what
-- is not exported.
pub claims-persist-written :
    (c1 c2 : ℕ) (cp : Checkpoint)
    → claims (to_latest_version (persist (written c1 c2 cp)))
      ≡ map_values persist_claim (claims (to_latest_version cp))
unfolding persist to_latest_version
claims-persist-written c1 c2 cp = claims-persist_map (with_map (newest cp.v2 cp.v1)).prepared_claims

pub node_boot_id-persist-written :
    (c1 c2 : ℕ) (cp : Checkpoint)
    → get_node_boot_id (to_latest_version (persist (written c1 c2 cp)))
      ≡ get_node_boot_id (to_latest_version cp)
unfolding persist to_latest_version get_node_boot_id
node_boot_id-persist-written c1 c2 cp = refl

module _ {B : Type 0} (j : Json B) (laws : IsJson j) where
  verified :
      (r : Outcome B) (b : B)
      → r ≡ ok b
      → and_then r (λ out. j.verify (j.new_checksum b) out) ≡ ok tt
  verified r b e = rw e (laws.verify-new_checksum b)

  sums_of_written :
      (cp : Checkpoint) (b1 b2 : B)
      → j.encode (v1_part (written 0 0 cp)) ≡ ok b1
      → j.encode_v2 (v2_part (with_map (newest cp.v2 cp.v1))) ≡ ok b2
      → verify_checksum j (persist (written (j.new_checksum b1) (j.new_checksum b2) cp)) ≡ ok tt
  unfolding verify_checksum persist
  sums_of_written cp b1 b2 e1 e2 =
      ap
        (λ r. and_then r (λ _.
          verify_checksum_v2 j (persist (written (j.new_checksum b1) (j.new_checksum b2) cp))))
        (verified _ b1 (laws.encode-persist (v1_part (written 0 0 cp)) ∙ e1))
      ∙ verified _ b2 (laws.encode_v2-persist_v2 (v2_part (with_map (newest cp.v2 cp.v1))) ∙ e2)

  -- The bytes that a successful marshal gives are those of `written` with the checksums of the two
  -- parts.
  abbrev Inverts : Checkpoint → B → Type 0
  Inverts cp b =
      (b1 : B) × (b2 : B) × (j.encode (v1_part (written 0 0 cp)) ≡ ok b1)
      × (j.encode_v2 (v2_part (with_map (newest cp.v2 cp.v1))) ≡ ok b2)
      × (j.encode (written (j.new_checksum b1) (j.new_checksum b2) cp) ≡ ok b)

  inverts :
      (cp : Checkpoint) (b : B) (r1 r2 : Outcome B)
      → j.encode (v1_part (written 0 0 cp)) ≡ r1
      → j.encode_v2 (v2_part (with_map (newest cp.v2 cp.v1))) ≡ r2
      → marshal_checkpoint j cp ≡ ok b
      → Inverts cp b
  unfolding marshal_checkpoint to_latest_version
  inverts cp b (ok b1) (ok b2) e1 e2 h = (b1, b2, e1, e2, rw (e1, e2) at h)
  inverts cp b (ok b1) (err e) e1 e2 h = cc (rw (e1, e2) at h)
  inverts cp b (ok b1) panic e1 e2 h = cc (rw (e1, e2) at h)
  inverts cp b (err e) r2 e1 e2 h = cc (rw e1 at h)
  inverts cp b panic r2 e1 e2 h = cc (rw e1 at h)

  marshal-Inverts : (cp : Checkpoint) (b : B) → marshal_checkpoint j cp ≡ ok b → Inverts cp b
  marshal-Inverts cp b h = inverts cp b _ _ refl refl h

  -- A checkpoint that was marshalled, whatever its version, is unmarshalled to one that passes both
  -- checksums, with the claims that were to be written, less what is not exported, and the same
  -- boot id.
  pub verify_checksum-marshal_checkpoint :
      (cp : Checkpoint) (b : B)
      → marshal_checkpoint j cp ≡ ok b
      → (c : Checkpoint) × (unmarshal_checkpoint j b ≡ ok c)
        × (verify_checksum j c ≡ ok tt)
        × (claims (to_latest_version c) ≡ map_values persist_claim (claims (to_latest_version cp)))
        × (get_node_boot_id (to_latest_version c) ≡ get_node_boot_id (to_latest_version cp))
  unfolding unmarshal_checkpoint
  verify_checksum-marshal_checkpoint cp b h =
      let (b1, b2, e1, e2, e) = marshal-Inverts cp b h in
      (
        persist (written (j.new_checksum b1) (j.new_checksum b2) cp),
        laws.decode-encode _ b e,
        sums_of_written cp b1 b2 e1 e2,
        claims-persist-written _ _ cp,
        node_boot_id-persist-written _ _ cp,
      )

persist_device-view :
    (d : PreparedDevice)
    → view_device (prepared_view (persist_device d)) ≡ view_device (prepared_view d)
unfolding prepared_view persist_device
persist_device-view d = ground arith

persist_list-devices : (l : PreparedDeviceList) → list_devices (persist_list l) ≡ list_devices l
unfolding list_devices persist_list
persist_list-devices [] = refl
persist_list-devices (d ∷ l) = ap₂ ◌++◌ (persist_device-view d) (persist_list-devices l)

-- The devices that are returned to the kubelet are the same for the prepared devices and for what
-- is read back of them from the checkpoint.
pub get_devices-persist_groups :
    (d : PreparedDevices) → get_devices (persist_groups d) ≡ get_devices d
unfolding get_devices persist_groups
get_devices-persist_groups [] = refl
get_devices-persist_groups (g ∷ gs) =
    ap₂ ◌++◌ (persist_list-devices g.devices) (get_devices-persist_groups gs)

upgraded :
    (m : Map PreparedClaimV1)
    → map_values upgrade (map_values persist_claim_v1 m)
      ≡ map_values persist_claim (map_values upgrade m)
unfolding map_values persist_claim persist_claim_v1
upgraded [] = refl
upgraded ((k, c) ∷ m) = ap (λ r. (k, persist_claim (upgrade c)) ∷ r) (upgraded m)

upgraded_map :
    (m : Option (Map PreparedClaimV1))
    → map_values upgrade (entries (persist_map persist_claim_v1 m))
      ≡ map_values persist_claim (map_values upgrade (entries m))
unfolding map_values
upgraded_map none = refl
upgraded_map (some []) = refl
upgraded_map (some (e ∷ m)) = upgraded (e ∷ m)

of_versions :
    (v1 : Option CheckpointV1) (v2 : Option CheckpointV2) (c : ℕ)
    → claims (to_latest_version (persist (record { checksum = c; v1 = v1; v2 = v2 })))
      ≡ map_values persist_claim
          (claims (to_latest_version (record { checksum = c; v1 = v1; v2 = v2 })))
unfolding persist to_latest_version map_values
of_versions v1 (some v2) c = claims-persist_map v2.prepared_claims
of_versions (some v1) none c = upgraded_map v1.prepared_claims
of_versions none none c = refl

-- Reading back a checkpoint of any version gives its claims, less what is not exported.
pub claims-persist :
    (cp : Checkpoint)
    → claims (to_latest_version (persist cp))
      ≡ map_values persist_claim (claims (to_latest_version cp))
claims-persist cp = of_versions cp.v1 cp.v2 cp.checksum
