-- ===== src/Devices.antt =====
-- cmd/hami-kubelet-plugin/deviceinfo.go, hami_core.go and mig.go: what is known of a device, and
-- the names under which devices are announced.
pub mod Prepared
pub mod Allocatable
use k8s_dra_driver.Common.{ℕ, ℤ, Bool, Option, String, ◌<>◌, Map, itoa}

-- DriverName (main.go)
abbrev pub driver_name : String
driver_name = "hami-core-gpu.project-hami.io"

-- A field that is not exported is absent from the checkpoint: it is `unset` when read back.
pub data HealthStatus : Type 0 where
  healthy unhealthy unset : HealthStatus

-- GpuInfo, less `migProfiles`.
pub record GpuInfo : Type 0 where
  pub uuid : String
  pub minor : ℕ
  pub mig_enabled : Bool
  pub vfio_enabled : Bool
  pub memory_bytes : ℕ
  pub product_name : String
  pub brand : String
  pub architecture : String
  pub cuda_compute_capability : String
  pub driver_version : String
  pub cuda_driver_version : String
  pub max_capacities : Map ℤ
  pub mem_slice_count : ℕ
  pub pcie_bus_id : String
  pub pcie_root_attr : Option (String × String)
  pub addressing_mode : Option String
  pub health : HealthStatus

-- HAMiGpuInfo embeds GpuInfo.
pub record HamiGpuInfo : Type 0 where
  pub gpu_info : GpuInfo
  pub open gpu_info use *

-- GpuInstanceProfileInfo and GpuInstancePlacement of NVML, as far as they are used.
pub record ProfileInfo : Type 0 where
  pub id : ℕ
  pub multiprocessor_count : ℕ
  pub copy_engine_count : ℕ
  pub decoder_count : ℕ
  pub encoder_count : ℕ
  pub jpeg_count : ℕ
  pub ofa_count : ℕ
  pub memory_size_mb : ℕ

pub record Placement : Type 0 where
  pub start : ℕ
  pub size : ℕ

-- MigSpec; `profile` is the text that `Profile.String()` gives.
pub record MigSpec : Type 0 where
  pub parent : GpuInfo
  pub profile : String
  pub gi_profile_info : ProfileInfo
  pub placement : Placement

-- MigLiveTuple
pub record MigLiveTuple : Type 0 where
  pub parent_minor : ℕ
  pub gi_id : ℕ
  pub ci_id : ℕ
  pub mig_uuid : String
  pub parent_uuid : String

-- MigSpecTuple
pub record MigSpecTuple : Type 0 where
  pub parent_minor : ℕ
  pub profile_id : ℕ
  pub placement_start : ℕ

-- MigDeviceInfo, less the NVML handles; `gi_info_id` is `gIInfo.Id`.
pub record MigDeviceInfo : Type 0 where
  pub uuid : String
  pub profile : String
  pub parent_uuid : String
  pub gi_profile_id : ℕ
  pub parent_minor : ℕ
  pub ci_id : ℕ
  pub gi_id : ℕ
  pub placement_start : ℕ
  pub placement_size : ℕ
  pub gi_info_id : ℕ
  pub parent : GpuInfo
  pub pcie_bus_id : String
  pub health : HealthStatus

pub record VfioDeviceInfo : Type 0 where
  pub uuid : String
  pub device_id : String
  pub vendor_id : String
  pub index : ℕ
  pub parent : Option GpuInfo
  pub product_name : String
  pub pcie_bus_id : String
  pub numa_node : ℕ
  pub iommu_group : ℕ
  pub addressable_memory_bytes : ℕ

-- (d *GpuInfo) CanonicalName
unfoldable pub gpu_canonical_name : GpuInfo → String
gpu_canonical_name d = "gpu-" <> itoa d.minor

-- (d *HAMiGpuInfo) CanonicalName
unfoldable pub hami_canonical_name : HamiGpuInfo → String
hami_canonical_name d = "hami-gpu-" <> itoa d.minor

-- (d *VfioDeviceInfo) CanonicalName
unfoldable pub vfio_canonical_name : VfioDeviceInfo → String
vfio_canonical_name d = "gpu-vfio-" <> itoa d.index

-- (m *MigDeviceInfo) SpecTuple
unfoldable pub spec_tuple : MigDeviceInfo → MigSpecTuple
spec_tuple m = record {
  parent_minor = m.parent_minor;
  profile_id = m.gi_profile_id;
  placement_start = m.placement_start;
}

-- (m *MigDeviceInfo) LiveTuple
unfoldable pub live_tuple : MigDeviceInfo → MigLiveTuple
live_tuple m = record {
  parent_minor = m.parent_minor;
  parent_uuid = m.parent_uuid;
  gi_id = m.gi_id;
  ci_id = m.ci_id;
  mig_uuid = m.uuid;
}

-- (m *MigSpec) Tuple
unfoldable pub mig_spec_tuple : MigSpec → MigSpecTuple
mig_spec_tuple m = record {
  parent_minor = m.parent.minor;
  profile_id = m.gi_profile_info.id;
  placement_start = m.placement.start;
}
