-- ===== src/State/Siblings/Health.antt =====
-- What an update of the health of a device does to it.
use k8s_dra_driver.Common.{Bool, true, false, Option, none, some, ok, ◌≡◌, refl, ap}
use k8s_dra_driver.Devices.{
  HealthStatus, healthy, unhealthy, unset, GpuInfo, HamiGpuInfo, MigSpec, MigDeviceInfo,
  VfioDeviceInfo, spec_tuple, gpu_canonical_name,
}
use k8s_dra_driver.Devices.Allocatable.{
  AllocatableDevice, DeviceType, gpu_type, mig_static_type, device_type, canonical_name, is_healthy,
  is_healthy_status,
}
use k8s_dra_driver.Mig.{mig_device_canonical_name}
use k8s_dra_driver.State.Siblings.{update_device_health_status}

-- The types of device that keep a health status which can be updated.
abbrev pub keeps_health : DeviceType → Bool
keeps_health gpu_type = true
keeps_health mig_static_type = true
keeps_health _ = false

abbrev pub is_good : HealthStatus → Bool
is_good healthy = true
is_good unhealthy = false
is_good unset = false

same_health : (hs : HealthStatus) → is_healthy_status hs ≡ is_good hs
same_health healthy = refl
same_health unhealthy = refl
same_health unset = refl

abbrev pub Updates : HealthStatus → AllocatableDevice → Type 0
Updates hs d =
    (device_type (update_device_health_status hs d) ≡ device_type d)
    × (canonical_name (update_device_health_status hs d) ≡ canonical_name d)
    × (keeps_health (device_type d) ≡ true
        → is_healthy (update_device_health_status hs d) ≡ ok (is_good hs))
    × (keeps_health (device_type d) ≡ false → update_device_health_status hs d ≡ d)

by_pointers :
    (hs : HealthStatus) (h : Option HamiGpuInfo) (g : Option GpuInfo) (d : Option MigSpec)
    (s : Option MigDeviceInfo) (v : Option VfioDeviceInfo)
    → Updates hs (record { hami_gpu = h; gpu = g; mig_dynamic = d; mig_static = s; vfio = v })
unfolding update_device_health_status device_type canonical_name is_healthy
    mig_device_canonical_name spec_tuple gpu_canonical_name
by_pointers hs (some h) g d s v = (refl, refl, (λ e. cc), (λ e. refl))
by_pointers hs none (some g) d s v = (refl, refl, (λ e. ap ok (same_health hs)), (λ e. cc))
by_pointers hs none none (some d) s v = (refl, refl, (λ e. cc), (λ e. refl))
by_pointers hs none none none (some s) v = (refl, refl, (λ e. ap ok (same_health hs)), (λ e. cc))
by_pointers hs none none none none (some v) = (refl, refl, (λ e. cc), (λ e. refl))
by_pointers hs none none none none none = (refl, refl, (λ e. cc), (λ e. refl))

-- An update of the health keeps the type and the name of a device. A full GPU and a static MIG device
-- are then healthy exactly if the new status is; any other device is as it was.
pub update_device_health_status-Updates : (hs : HealthStatus) (d : AllocatableDevice) → Updates hs d
update_device_health_status-Updates hs d =
    by_pointers hs d.hami_gpu d.gpu d.mig_dynamic d.mig_static d.vfio
