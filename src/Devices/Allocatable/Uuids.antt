-- ===== src/Devices/Allocatable/Uuids.antt =====
-- The methods of allocatable.go that list UUIDs.
use k8s_dra_driver.Common.{
  Bool, true, false, List, [], ◌∷◌, String, if◌then◌else◌, Outcome, ok, panic, and_then, sort,
}
use k8s_dra_driver.FeatureGates.{Gates}
use k8s_dra_driver.Devices.Allocatable.{
  AllocatableDevice, AllocatableDevices, DeviceType, hami_gpu_type, gpu_type, mig_static_type,
  vfio_type, device_type, same_type, device_uuid, select,
}

-- `device.UUID()` of each device of a list, up to the first panic.
unfoldable pub uuids_of : List AllocatableDevice → Outcome (List String)
unfolding device_uuid
uuids_of [] = ok []
uuids_of (d ∷ ds) = and_then (device_uuid d) λ u. and_then (uuids_of ds) λ us. ok (u ∷ us)

abbrev sorted : Outcome (List String) → Outcome (List String)
sorted r = and_then r λ us. ok (sort us)

abbrev is_full_gpu : DeviceType → Bool
is_full_gpu hami_gpu_type = true
is_full_gpu gpu_type = true
is_full_gpu _ = false

-- (d AllocatableDevices) GpuUUIDs
unfoldable pub gpu_uuids : AllocatableDevices → Outcome (List String)
unfolding select uuids_of device_type
gpu_uuids m = sorted (uuids_of (select (λ d. is_full_gpu (device_type d)) m))

-- (d AllocatableDevices) MigDeviceUUIDs
unfoldable pub mig_device_uuids : Gates → AllocatableDevices → Outcome (List String)
unfolding select uuids_of device_type
mig_device_uuids g m =
    if g.dynamic_mig
    then panic
    else sorted (uuids_of (select (λ d. same_type (device_type d) mig_static_type) m))

-- (d AllocatableDevices) VfioDeviceUUIDs
unfoldable pub vfio_device_uuids : AllocatableDevices → Outcome (List String)
unfolding select uuids_of device_type
vfio_device_uuids m = sorted (uuids_of (select (λ d. same_type (device_type d) vfio_type) m))

-- (d AllocatableDevices) UUIDs
unfoldable pub uuids : AllocatableDevices → Outcome (List String)
unfolding select uuids_of
uuids m = sorted (uuids_of (select (λ d. true) m))
