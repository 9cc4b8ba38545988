-- ===== src/Examples/Witnesses.antt =====
-- The properties at concrete inputs.
use k8s_dra_driver.Common.{
  pure, ◌++◌, ℕ, none, some, List, [], ◌∷◌, String, contains, Map, IsMap, passed, lookup,
  map_values, insert, itoa, ok, ◌≡◌, ◌≢◌, ◌⊎◌, ◌↔◌, refl, if◌then◌else◌, ◌==◌, eq_iff,
}
use k8s_dra_driver.Kube.{KubeletDevice}
use k8s_dra_driver.FeatureGates.{validate_feature_gates, default_feature_gates}
use k8s_dra_driver.FeatureGates.Laws.{IsConsistent, validate_feature_gates-IsConsistent}
use k8s_dra_driver.Devices.{gpu_canonical_name}
use k8s_dra_driver.Devices.Prepared.{get_devices}
use k8s_dra_driver.Devices.Allocatable.{device_type}
use k8s_dra_driver.Checkpoint.{
  Checkpoint, PreparedClaim, to_latest_version, to_v1, to_v2, entries, update_claims, claims,
  get_node_boot_id, is_started,
}
use k8s_dra_driver.Checkpoint.Persist.{persist, persist_claim, persist_groups}
use k8s_dra_driver.Checkpoint.Codec.{marshal_checkpoint, unmarshal_checkpoint, verify_checksum}
use k8s_dra_driver.Checkpoint.RoundTrip.{
  written, verify_checksum-marshal_checkpoint, get_devices-persist_groups,
}
use k8s_dra_driver.Checkpoint.Versions.{to_v1-to_v2, lookup-to_v2-to_v1, survives}
use k8s_dra_driver.Store.{get_checkpoint, init_checkpoint, update_checkpoint}
use k8s_dra_driver.Store.Boot.{Holds, Remains, init_checkpoint-Remains}
use k8s_dra_driver.Store.Updates.{entry, stored_claims, update_checkpoint-insert}
use k8s_dra_driver.State.{DeviceState, ConfigKind, gpu_config}
use k8s_dra_driver.State.Configs.{
  OpaqueDeviceConfig, Groups, is_class, is_claim, of_source, decode_configs, config_results,
  find_config, with_defaults, numbered, backward,
}
use k8s_dra_driver.State.Configs.Chosen.{GroupsChosen, AllAccounted, config_results-GroupsChosen}
use k8s_dra_driver.Kube.{AllocationConfig, from_class, from_claim}
use k8s_dra_driver.Devices.{driver_name}
use k8s_dra_driver.State.Configs.Defaults.{find_config-with_defaults}
use k8s_dra_driver.Devices.{unhealthy}
use k8s_dra_driver.State.Siblings.Health.{Updates, update_device_health_status-Updates}
use k8s_dra_driver.State.Overlap.{validate_no_overlapping_prepared_devices}
use k8s_dra_driver.State.Overlap.Laws.{
  Exclusive, validate_no_overlapping_prepared_devices-Exclusive,
}
use k8s_dra_driver.State.Claims.{prepare, unprepare}
use k8s_dra_driver.State.Claims.Outcomes.{Spares, Left}
use k8s_dra_driver.State.Claims.Entries.{prepare-Left}
use k8s_dra_driver.State.Claims.Repeats.{prepare-prepare}
use k8s_dra_driver.State.Claims.Removal.{Gone, unprepare-Gone}
use k8s_dra_driver.State.Claims.Exclusive.{IsExclusive}
use k8s_dra_driver.State.Claims.Reachable.{start_here, prepared, unprepared, Reaches-IsExclusive}
use k8s_dra_driver.Cleanup.{cleanup}
use k8s_dra_driver.Driver.{DriverParts, node_unprepare_resource}
use k8s_dra_driver.Driver.Stale.{cleanup-entry}
use k8s_dra_driver.Examples.Parts.{
  file, file-IsFile, api, managers, json, json-IsJson, no_claims, Bytes, of_checkpoint,
}
use k8s_dra_driver.Examples.Data.{
  result, claim, second_claim, ref, gates, start, empty_start, checkpoint, v1, v2, started_entry,
  done_entry, gpu_device, some_devices,
}

prepare-Left_example :
    Spares file "u1" checkpoint (prepare file api managers gates claim start).1.store
    × Left file "u1" checkpoint
        (prepare file api managers gates claim start).1.store
        (prepare file api managers gates claim start).0
prepare-Left_example = prepare-Left file file-IsFile api managers gates claim start

abbrev device : KubeletDevice
device = record {
  requests = "gpu" ∷ [];
  pool_name = "node1";
  device_name = "gpu-1";
  cdi_device_ids = "k8s.hami-core-gpu.project-hami.io/claim=u1-gpu-1" ∷ [];
}

prepared_once : (prepare file api managers gates claim start).0 ≡ ok (device ∷ [])
unfolding prepare to_latest_version persist map_values update_claims gpu_canonical_name itoa
prepared_once = refl

abbrev after : DeviceState Checkpoint ℕ
after = (prepare file api managers gates claim start).1

read_after :
    get_checkpoint file after.store ≡ (ok (to_latest_version (persist after.store)), after.store)
unfolding get_checkpoint
read_after = refl

prepare-prepare_example :
    prepare file api managers gates claim after
    ≡ (ok (device ∷ []), record after { store = after.store })
prepare-prepare_example =
    prepare-prepare file file-IsFile api managers gates claim start (device ∷ [])
      (to_latest_version (persist after.store)) after.store prepared_once read_after

unprepare-Gone_example :
    Spares file "u1" after.store (unprepare file api managers gates ref after).1.store
    × Gone file "u1" after.store
        (unprepare file api managers gates ref after).1.store
        (unprepare file api managers gates ref after).0
unprepare-Gone_example = unprepare-Gone file file-IsFile api managers gates ref after

empty_IsExclusive : IsExclusive file empty_start.store
unfolding lookup persist to_latest_version
empty_IsExclusive j k b c n (e, done) pc = cc

abbrev second : DeviceState Checkpoint ℕ
second = (prepare file api managers gates claim empty_start).1

abbrev third : DeviceState Checkpoint ℕ
third = (unprepare file api managers gates ref second).1

Reaches-IsExclusive_example :
    IsExclusive file (prepare file api managers gates second_claim third).1.store
Reaches-IsExclusive_example =
    Reaches-IsExclusive file file-IsFile api managers gates empty_start
      (prepare file api managers gates second_claim third).1 refl empty_IsExclusive
      (prepared second_claim third (unprepared ref second (prepared claim empty_start start_here)))

no_overlap : validate_no_overlapping_prepared_devices (("u3", done_entry) ∷ []) claim ≡ ok tt
unfolding validate_no_overlapping_prepared_devices
no_overlap = refl

found_u3 : lookup "u3" (("u3", done_entry) ∷ []) ≡ some done_entry
unfolding lookup
found_u3 = refl

validate_no_overlapping_prepared_devices-Exclusive_example :
    Exclusive claim.status done_entry.status
validate_no_overlapping_prepared_devices-Exclusive_example =
    validate_no_overlapping_prepared_devices-Exclusive claim (("u3", done_entry) ∷ []) "u3"
      done_entry no_overlap found_u3 (λ e. cc ((eq_iff "u1" "u3").1 e)) refl

initialized : (init_checkpoint file "boot-2" checkpoint).0 ≡ ok tt
unfolding init_checkpoint contains get_node_boot_id to_latest_version persist
initialized = refl

init_checkpoint-Remains_example :
    (listed : List String) × (ok ("checkpoint.json" ∷ []) ≡ ok listed)
    × (m : Map PreparedClaim) × Remains file file-IsFile "boot-2" checkpoint listed m
    × Holds file "boot-2" m (init_checkpoint file "boot-2" checkpoint).1
init_checkpoint-Remains_example =
    init_checkpoint-Remains file file-IsFile "boot-2" checkpoint initialized

abbrev bytes : Bytes
bytes = of_checkpoint (persist (written 7 7 checkpoint))

marshalled : marshal_checkpoint json checkpoint ≡ ok bytes
unfolding marshal_checkpoint to_latest_version
marshalled = refl

verify_checksum-marshal_checkpoint_example :
    (c : Checkpoint) × (unmarshal_checkpoint json bytes ≡ ok c)
    × (verify_checksum json c ≡ ok tt)
    × (claims (to_latest_version c)
        ≡ map_values persist_claim (claims (to_latest_version checkpoint)))
    × (get_node_boot_id (to_latest_version c) ≡ get_node_boot_id (to_latest_version checkpoint))
verify_checksum-marshal_checkpoint_example =
    verify_checksum-marshal_checkpoint json json-IsJson checkpoint bytes marshalled

lookup-to_v2-to_v1_example :
    lookup "u2" (entries (to_v2 (to_v1 v2)).prepared_claims)
    ≡ survives (lookup "u2" (entries v2.prepared_claims))
unfolding lookup
lookup-to_v2-to_v1_example = lookup-to_v2-to_v1 v2 "u2" (refl, (refl, tt))

to_v1-to_v2_example : entries (to_v1 (to_v2 v1)).prepared_claims ≡ entries v1.prepared_claims
to_v1-to_v2_example = to_v1-to_v2 v1

get_devices-persist_groups_example :
    get_devices (persist_groups some_devices) ≡ get_devices some_devices
get_devices-persist_groups_example = get_devices-persist_groups some_devices

validate_feature_gates-IsConsistent_example :
    (validate_feature_gates default_feature_gates ≡ none) ↔ IsConsistent default_feature_gates
validate_feature_gates-IsConsistent_example =
    validate_feature_gates-IsConsistent default_feature_gates

update_checkpoint-insert_example :
    let p = update_checkpoint file (update_claims (insert "u2" started_entry)) checkpoint in
    ((p.0 ≡ ok tt)
      × ((k : String)
          → entry file p.1 k
            ≡ (if "u2" == k then some (persist_claim started_entry) else entry file checkpoint k)))
    ⊎ ((p.0 ≢ ok tt) × (file.load p.1 ≡ file.load checkpoint))
update_checkpoint-insert_example =
    update_checkpoint-insert file file-IsFile "u2" started_entry checkpoint

-- A config of the device class for every request, and one of the claim for the request "gpu".
abbrev configs : List AllocationConfig
configs =
    record {
      source = from_claim;
      requests = "gpu" ∷ [];
      opaque = some (record { driver = driver_name; parameters = "{}" });
    }
    ∷ record {
      source = from_class;
      requests = [];
      opaque = some (record { driver = driver_name; parameters = "{}" });
    }
    ∷ []

-- The config of the claim stands behind two defaults and that of the class.
abbrev groups : Groups ConfigKind
groups = ((3, record { requests = "gpu" ∷ []; config = gpu_config }), result ∷ []) ∷ []

grouped : config_results api gates start.allocatable configs (result ∷ []) ≡ ok groups
unfolding config_results contains device_type lookup
grouped = refl

config_results-GroupsChosen_example :
    (of_class : List (OpaqueDeviceConfig ConfigKind)) × (of_claim : List
      (OpaqueDeviceConfig ConfigKind))
    × (decode_configs api (of_source is_class configs) ≡ ok of_class)
    × (decode_configs api (of_source is_claim configs) ≡ ok of_claim)
    × GroupsChosen api gates start.allocatable
        (with_defaults api gates (of_class ++ of_claim))
        groups
    × AllAccounted api gates start.allocatable
        (with_defaults api gates (of_class ++ of_claim))
        groups
        (result ∷ [])
config_results-GroupsChosen_example =
    config_results-GroupsChosen api gates start.allocatable configs (result ∷ []) groups grouped

find_config-with_defaults_example :
    find_config api "other" gpu_device (backward (numbered api 0 (with_defaults api gates [])))
    ≢ ok none
unfolding device_type
find_config-with_defaults_example =
    find_config-with_defaults api gates "other" gpu_device [] refl refl refl refl

checkpoint-IsMap : IsMap (stored_claims file checkpoint)
unfolding lookup to_latest_version persist map_values
checkpoint-IsMap = (refl, (refl, tt))

not_started : passed (λ c. is_started c.checkpoint_state) (entry file checkpoint "u3") ≡ none
unfolding lookup to_latest_version persist map_values
not_started = refl

-- The lock is free and nothing is published.
abbrev parts : DriverParts ℕ
parts = record { acquire = pure tt; release = λ h. h; publish_resources = λ devices. pure tt }

cleanup-entry_example :
    entry file
      (cleanup file no_claims (node_unprepare_resource file api managers gates parts) start).1.store
      "u3"
    ≡ entry file checkpoint "u3"
cleanup-entry_example =
    cleanup-entry file file-IsFile api managers gates parts no_claims start "u3" checkpoint-IsMap
      not_started

update_device_health_status-Updates_example : Updates unhealthy gpu_device
update_device_health_status-Updates_example =
    update_device_health_status-Updates unhealthy gpu_device
