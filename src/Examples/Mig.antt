-- ===== src/Examples/Mig.antt =====
-- The properties of the MIG operations on a GPU that may have one MIG device.
use k8s_dra_driver.Common.{
  and_then, true, false, Bool, some, [], ◌∷◌, ok, err, failure, if◌then◌else◌, ◌≡◌, refl, ap, sym,
}
use k8s_dra_driver.Devices.{GpuInfo, MigSpec, MigSpecTuple, MigLiveTuple}
use k8s_dra_driver.Examples.Data.{gpu_info, gpu_device}
use k8s_dra_driver.Nvml.{
  found, not_found, present, empty, Nvml, DeviceLib, NvmlState, delete_mig_device,
}
use k8s_dra_driver.Nvml.Removal.{is_absent, IsNvml, delete_mig_device-Gone}
use k8s_dra_driver.Partitions.{inspect_mig_profiles_and_placements}
use k8s_dra_driver.Partitions.Bounds.{All, Covers, inspect_mig_profiles_and_placements-Covers}
use k8s_dra_driver.Partitions.Slices.{
  PerGpu, generate_split_resource_slices, generate_combined_resource_slices,
}
use k8s_dra_driver.Partitions.Slices.Agreement.{announced, generate_split_resource_slices-announced}

-- The state says whether the device is there.
abbrev api : Nvml Bool
api = record {
  handle_by_uuid = λ u a. (ok tt, a);
  is_mig_enabled = λ u a. ok a;
  set_mig_mode = λ u b a. (ok tt, a);
  gi_profile_info = λ u p a. err (failure "no profile");
  create_gi = λ u p q a. (ok 0, true);
  gi_by_id = λ u g a. if a then found else not_found;
  gi_info = λ u g a. ok (record { id = 0; profile_id = 19; placement_start = 4 });
  ci_profile_info = λ u g p a. ok tt;
  create_ci = λ u g a. (ok 0, a);
  ci_by_id = λ u g c a. if a then found else not_found;
  ci_uuid = λ u g c a. ok "MIG-1";
  destroy_ci = λ u g c a. (ok tt, a);
  destroy_gi = λ u g a. (ok tt, false);
  max_mig_device_count = λ u a. ok 7;
  slot = λ u i a. if a then present else empty;
  slot_gi_id = λ u i a. ok 0;
  slot_ci_id = λ u i a. some 0;
  slot_uuid = λ u i a. some "MIG-1";
  mig_info = λ g i a. err (failure "no profile");
}

api-IsNvml : IsNvml api
api-IsNvml = record {
  destroyed = λ gpu gi a a' e. ap (λ p. is_absent (if p.1 then found else not_found)) (sym e);
  absent-set_mig_mode = λ gpu g gi b a h. h;
  absent-handle_by_uuid = λ gpu g gi a h. h;
}

abbrev lib : DeviceLib
lib = record {
  dynamic_mig = true;
  gpu_infos_by_uuid = ("GPU-1", gpu_info) ∷ [];
  gpu_uuid_by_minor = λ n. "GPU-1";
}

abbrev there : NvmlState Bool
there = record { devhandle_by_uuid = []; nvml = true }

abbrev live : MigLiveTuple
live = record { parent_minor = 1; gi_id = 0; ci_id = 0; mig_uuid = "MIG-1"; parent_uuid = "GPU-1" }

delete_mig_device-Gone_example :
    is_absent (api.gi_by_id "GPU-1" 0 (delete_mig_device api lib live there).1.nvml) ≡ true
unfolding delete_mig_device
delete_mig_device-Gone_example = delete_mig_device-Gone api api-IsNvml lib live there refl

abbrev wanted : MigSpecTuple
wanted = record { parent_minor = 1; profile_id = 19; placement_start = 4 }

abbrev spec : MigSpec
spec = record {
  parent = gpu_info;
  profile = "1g.5gb";
  gi_profile_info = record {
    id = 19;
    multiprocessor_count = 14;
    copy_engine_count = 1;
    decoder_count = 0;
    encoder_count = 0;
    jpeg_count = 0;
    ofa_count = 0;
    memory_size_mb = 4864;
  };
  placement = record { start = 4; size = 1 };
}

inspect_mig_profiles_and_placements-Covers_example :
    (d : GpuInfo) × (inspect_mig_profiles_and_placements (ok (spec ∷ [])) gpu_info
      ≡ ok (spec ∷ [], d))
    × All (Covers (d.max_capacities, d.mem_slice_count)) (spec ∷ [])
inspect_mig_profiles_and_placements-Covers_example =
    inspect_mig_profiles_and_placements-Covers (spec ∷ []) gpu_info

abbrev gpus : PerGpu
gpus = (1, ("gpu-1", gpu_device) ∷ []) ∷ []

generate_split_resource_slices-announced_example :
    and_then (generate_split_resource_slices gpus) announced
    ≡ and_then (generate_combined_resource_slices gpus) announced
generate_split_resource_slices-announced_example = generate_split_resource_slices-announced gpus
