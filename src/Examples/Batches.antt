-- ===== src/Examples/Batches.antt =====
-- The properties of batches at concrete inputs: two claims for the same GPU; and a group with a
-- HAMi-Core GPU.
use k8s_dra_driver.Common.{
  ℕ, List, [], ◌∷◌, Map, lookup, contains, is_some, delete, map_values, itoa, Outcome, ok, err,
  failure, pure, ◌≡◌, refl,
}
use k8s_dra_driver.Kube.{KubeletDevice}
use k8s_dra_driver.Checkpoint.{Checkpoint, to_latest_version, update_claims}
use k8s_dra_driver.Checkpoint.Persist.{persist}
use k8s_dra_driver.Devices.{gpu_canonical_name}
use k8s_dra_driver.Devices.Prepared.Uuids.{group_hami_gpu_uuids}
use k8s_dra_driver.Devices.Prepared.Uuids.Hami.{group_hami_gpu_uuids-none}
use k8s_dra_driver.State.{DeviceState}
use k8s_dra_driver.State.Claims.Exclusive.{IsExclusive}
use k8s_dra_driver.Driver.{DriverParts, prepare_resource_claims, unprepare_resource_claims}
use k8s_dra_driver.Driver.Batches.{batches-IsExclusive}
use k8s_dra_driver.Driver.Results.{prepare_resource_claims-lookup}
use k8s_dra_driver.Examples.Parts.{file, file-IsFile, api, managers}
use k8s_dra_driver.Examples.Data.{
  claim, second_claim, ref, gates, empty_start, hami_group, prepared_device,
}

empty_IsExclusive : IsExclusive file empty_start.store
unfolding lookup persist to_latest_version
empty_IsExclusive j k b c n (e, done) pc = cc

-- The lock is free and nothing is published.
abbrev parts : DriverParts ℕ
parts = record { acquire = pure tt; release = λ h. h; publish_resources = λ devices. pure tt }

abbrev first : DeviceState Checkpoint ℕ
first =
    (prepare_resource_claims file api managers gates parts (claim ∷ second_claim ∷ [])
      empty_start).1

batches-IsExclusive_example :
    IsExclusive file first.store
    × IsExclusive file
        (unprepare_resource_claims file api managers gates parts (ref ∷ []) first).1.store
batches-IsExclusive_example =
    batches-IsExclusive file file-IsFile api managers gates parts empty_start
      (claim ∷ second_claim ∷ []) (ref ∷ []) refl empty_IsExclusive

-- The second claim is refused.
abbrev results : Map (Outcome (List KubeletDevice))
results =
    ("u2", err (failure "requested device is already allocated to different claim"))
    ∷ ("u1", ok (prepared_device ∷ []))
    ∷ []

refused :
    (prepare_resource_claims file api managers gates parts
      (claim ∷ second_claim ∷ [])
      empty_start).0
    ≡ ok results
unfolding prepare_resource_claims to_latest_version persist update_claims map_values delete
    gpu_canonical_name itoa
refused = refl

prepare_resource_claims-lookup_example :
    is_some (lookup "u2" results) ≡ contains "u2" ("u1" ∷ "u2" ∷ [])
prepare_resource_claims-lookup_example =
    prepare_resource_claims-lookup file api managers gates parts (claim ∷ second_claim ∷ [])
      empty_start results refused "u2"

group_hami_gpu_uuids-none_example : group_hami_gpu_uuids hami_group ≡ []
group_hami_gpu_uuids-none_example = group_hami_gpu_uuids-none hami_group
