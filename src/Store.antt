-- ===== src/Store.antt =====
-- The checkpoint file under its lock: `createCheckpoint`, `getCheckpoint`, `updateCheckpoint`,
-- `deleteClaimFromCheckpoint` and `initCheckpoint` of cmd/hami-kubelet-plugin/device_state.go. The
-- kubelet's checkpoint manager and the file lock are a parameter.
pub mod Laws
pub mod Writes
pub mod Updates
pub mod Reads
pub mod Boot
use k8s_dra_driver.Common.{
  Bool, true, false, Option, none, some, List, String, ◌==◌, if◌then◌else◌, Map, lookup, insert,
  delete, contains, Outcome, ok, err, panic, Exec, ◌>>=◌, ◌>>◌, pure, raise, lift, asks, deferred,
}
use k8s_dra_driver.Checkpoint.{
  Checkpoint, CheckpointV2, PreparedClaim, to_latest_version, claims, update_claims,
  get_node_boot_id,
}

-- `D` is the state of the checkpoint directory and of its lock file. `load` is `GetCheckpoint` of
-- `checkpoint.json` into an empty Checkpoint, `create` is `CreateCheckpoint` of that name,
-- `names` is `ListCheckpoints`, `acquire` and `release` are those of the lock.
pub record CheckpointFile (D : Type 0) : Type 0 where
  pub acquire : Exec D (Unit {0})
  pub release : D → D
  pub load : D → Outcome Checkpoint
  pub create : Checkpoint → Exec D (Unit {0})
  pub names : D → Outcome (List String)

-- DriverPluginCheckpointFileBasename (main.go)
abbrev pub checkpoint_file_basename : String
checkpoint_file_basename = "checkpoint.json"

-- cp.V2.NodeBootID = id
abbrev pub set_boot_id : String → Checkpoint → Outcome Checkpoint
set_boot_id id cp = elim cp.v2 [
  | none ↦ panic
  | some v2 ↦ ok (record cp { v2 = some (record v2 { node_boot_id = id }) })
]

-- &Checkpoint{V2: &CheckpointV2{NodeBootID: id}}
abbrev pub fresh : String → Checkpoint
fresh id = record {
  checksum = 0;
  v1 = none;
  v2 = some (record { checksum = 0; prepared_claims = none; node_boot_id = id });
}

module _ {D : Type 0} (file : CheckpointFile D) where
  open file use {acquire, release, load, create, names}

  -- (s *DeviceState) createCheckpoint
  unfoldable pub create_checkpoint : Checkpoint → Exec D (Unit {0})
  create_checkpoint cp = do acquire; deferred release (create cp)

  -- (s *DeviceState) getCheckpoint
  unfoldable pub get_checkpoint : Exec D Checkpoint
  get_checkpoint = do acquire; deferred release (asks load >>= λ cp. pure (to_latest_version cp))

  -- (s *DeviceState) updateCheckpoint; `mutate` may write to the map of claims.
  unfoldable pub update_checkpoint : (Checkpoint → Outcome Checkpoint) → Exec D (Unit {0})
  update_checkpoint mutate = do
    acquire
    deferred release
        (asks load >>= λ cp. lift (mutate (to_latest_version cp)) >>= λ cp'. create cp')

  -- (s *DeviceState) deleteClaimFromCheckpoint
  unfoldable pub delete_claim_from_checkpoint : String → Exec D (Unit {0})
  unfolding update_checkpoint
  delete_claim_from_checkpoint uid = update_checkpoint (update_claims (delete uid))

  -- The `switch` on the boot id of the checkpoint that is there.
  unfoldable renew : String → String → Exec D (Unit {0})
  unfolding create_checkpoint update_checkpoint
  renew current stored =
      if stored == current
      then pure tt
      else if stored == ""
      then update_checkpoint (set_boot_id current)
      else create_checkpoint (fresh current)

  -- The branch of `initCheckpoint` for a directory that holds a checkpoint.
  unfoldable check_existing : String → Exec D (Unit {0})
  unfolding get_checkpoint renew
  check_existing current = get_checkpoint >>= λ cp. renew current (get_node_boot_id cp)

  -- (s *DeviceState) initCheckpoint
  unfoldable pub init_checkpoint : String → Exec D (Unit {0})
  unfolding check_existing create_checkpoint
  init_checkpoint current = asks names >>= λ checkpoints.
      if contains checkpoint_file_basename checkpoints
      then check_existing current
      else create_checkpoint (fresh current)
