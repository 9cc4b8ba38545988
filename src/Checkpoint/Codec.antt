-- ===== src/Checkpoint/Codec.antt =====
-- `MarshalCheckpoint`, `UnmarshalCheckpoint` and the checksums of checkpoint.go, over a parameter
-- that stands for encoding/json on the checkpoint's types and for the kubelet's `checksum` package.
use k8s_dra_driver.Common.{ℕ, Option, none, some, ◌≡◌, Outcome, ok, panic, and_then}
use k8s_dra_driver.Checkpoint.{Checkpoint, CheckpointV2, to_latest_version, to_v1}
use k8s_dra_driver.Checkpoint.Persist.{persist, persist_v2}

-- `encode` is `json.Marshal` of a Checkpoint, `encode_v2` of a CheckpointV2.
pub record Json (B : Type 0) : Type 0 where
  pub encode : Checkpoint → Outcome B
  pub encode_v2 : CheckpointV2 → Outcome B
  pub decode : B → Outcome Checkpoint
  pub new_checksum : B → ℕ
  pub verify : ℕ → B → Outcome (Unit {0})

-- Decoding gives the exported fields back, they are all that is encoded, and a checksum verifies
-- the data that it was computed from.
pub record IsJson {B : Type 0} (j : Json B) : Type 0 where
  pub decode-encode : (c : Checkpoint) (b : B) → j.encode c ≡ ok b → j.decode b ≡ ok (persist c)
  pub encode-persist : (c : Checkpoint) → j.encode (persist c) ≡ j.encode c
  pub encode_v2-persist_v2 : (v : CheckpointV2) → j.encode_v2 (persist_v2 v) ≡ j.encode_v2 v
  pub verify-new_checksum : (b : B) → j.verify (j.new_checksum b) b ≡ ok tt

-- What the V1 checksum covers, and what the V2 checksum covers.
abbrev pub v1_part : Checkpoint → Checkpoint
v1_part cp = record cp { v2 = none; checksum = 0 }

abbrev pub v2_part : CheckpointV2 → CheckpointV2
v2_part v2 = record v2 { checksum = 0 }

module _ {B : Type 0} (j : Json B) where
  -- (cp *Checkpoint) SetChecksumV1
  unfoldable pub set_checksum_v1 : Checkpoint → Outcome Checkpoint
  set_checksum_v1 cp =
      and_then (j.encode (v1_part cp)) λ out. ok (record cp { checksum = j.new_checksum out })

  abbrev checksum_of_v2 : Option CheckpointV2 → Outcome CheckpointV2
  checksum_of_v2 none = panic
  checksum_of_v2 (some v2) =
      and_then (j.encode_v2 (v2_part v2)) λ out. ok (record v2 { checksum = j.new_checksum out })

  -- (cp *Checkpoint) SetChecksumV2
  unfoldable pub set_checksum_v2 : Checkpoint → Outcome Checkpoint
  set_checksum_v2 cp = and_then (checksum_of_v2 cp.v2) λ v2. ok (record cp { v2 = some v2 })

  abbrev add_v1 : Checkpoint → Option CheckpointV2 → Outcome Checkpoint
  add_v1 cp none = panic
  add_v1 cp (some v2) = ok (record cp { v1 = some (to_v1 v2) })

  -- (cp *Checkpoint) MarshalCheckpoint
  unfoldable pub marshal_checkpoint : Checkpoint → Outcome B
  unfolding set_checksum_v1 set_checksum_v2
  marshal_checkpoint cp =
      let latest = to_latest_version cp in
      and_then (add_v1 latest latest.v2)
        λ c. and_then (set_checksum_v1 c) λ c1. and_then (set_checksum_v2 c1) λ c2. j.encode c2

  -- (cp *Checkpoint) UnmarshalCheckpoint
  unfoldable pub unmarshal_checkpoint : B → Outcome Checkpoint
  unmarshal_checkpoint b = j.decode b

  -- (cp *Checkpoint) VerifyChecksumV1
  unfoldable pub verify_checksum_v1 : Checkpoint → Outcome (Unit {0})
  verify_checksum_v1 cp = and_then (j.encode (v1_part cp)) λ out. j.verify cp.checksum out

  abbrev verify_v2 : Option CheckpointV2 → Outcome (Unit {0})
  verify_v2 none = ok tt
  verify_v2 (some v2) = and_then (j.encode_v2 (v2_part v2)) λ out. j.verify v2.checksum out

  -- (cp *Checkpoint) VerifyChecksumV2
  unfoldable pub verify_checksum_v2 : Checkpoint → Outcome (Unit {0})
  verify_checksum_v2 cp = verify_v2 cp.v2

  -- (cp *Checkpoint) VerifyChecksum
  unfoldable pub verify_checksum : Checkpoint → Outcome (Unit {0})
  unfolding verify_checksum_v1 verify_checksum_v2
  verify_checksum cp = and_then (verify_checksum_v1 cp) λ _. verify_checksum_v2 cp
