-- ===== src/State/Siblings.antt =====
-- The changes to the map of allocatable devices of device_state.go: `discoverSiblingAllocatables`,
-- the loops of `Prepare` and `Unprepare` behind PassthroughSupport, and `UpdateDeviceHealthStatus`.
pub mod Kept
pub mod Health
use k8s_dra_driver.Common.{
  Bool, true, false, Option, none, some, List, [], ◌∷◌, String, if◌then◌else◌, lookup, insert,
  Outcome, ok, err, panic, and_then, Exec, ◌>>=◌, ◌>>◌, pure, lift, modify, crash,
}
use k8s_dra_driver.Kube.{KubeletDevice}
use k8s_dra_driver.Devices.{HealthStatus, GpuInfo, MigDeviceInfo, VfioDeviceInfo}
use k8s_dra_driver.Devices.Allocatable.{
  AllocatableDevice, AllocatableDevices, DeviceView, hami_gpu, gpu, mig_dynamic, mig_static, vfio,
  unknown, device_view, canonical_name,
}
use k8s_dra_driver.Devices.Allocatable.Siblings.{remove_sibling_devices}
use k8s_dra_driver.State.{DeviceState, Managers, on_host}

-- The loop of `Prepare` over the prepared devices.
unfoldable pub remove_all_siblings : List KubeletDevice → AllocatableDevices → AllocatableDevices
unfolding lookup remove_sibling_devices
remove_all_siblings [] m = m
remove_all_siblings (k ∷ ks) m = elim (lookup k.device_name m) [
  | none ↦ remove_all_siblings ks m
  | some d ↦ remove_all_siblings ks (remove_sibling_devices d m)
]

abbrev set_gpu_health : HealthStatus → GpuInfo → GpuInfo
set_gpu_health hs d = record d { health = hs }

abbrev set_mig_health : HealthStatus → MigDeviceInfo → MigDeviceInfo
set_mig_health hs d = record d { health = hs }

abbrev health_view : DeviceView → HealthStatus → AllocatableDevice → AllocatableDevice
health_view (gpu i) hs d = record d { gpu = some (set_gpu_health hs i) }
health_view (mig_static i) hs d = record d { mig_static = some (set_mig_health hs i) }
health_view _ hs d = d

-- (s *DeviceState) UpdateDeviceHealthStatus, what it makes of the device.
unfoldable pub update_device_health_status : HealthStatus → AllocatableDevice → AllocatableDevice
unfolding device_view
update_device_health_status hs d = health_view (device_view d) hs d

abbrev Step : Type 0 → Type 0 → Type 0
Step D H = Exec (DeviceState D H) (Unit {0})

abbrev set_parent : Option GpuInfo → VfioDeviceInfo → VfioDeviceInfo
set_parent parent d = record d { parent = parent }

module _ {D H : Type 0} where
  -- s.allocatable[d.CanonicalName()] = d
  abbrev add_device : AllocatableDevice → Step D H
  add_device d = lift (canonical_name d) >>= λ name.
      modify (λ s. record s { allocatable = insert name d s.allocatable })

  unfoldable add_devices : List AllocatableDevice → Step D H
  unfolding canonical_name insert
  add_devices [] = pure tt
  add_devices (d ∷ ds) = let rest = add_devices ds in add_device d >> rest

  -- The write through the pointer `device.Vfio`, which the map holds under this name.
  abbrev write_parent : String → AllocatableDevice → VfioDeviceInfo → Option GpuInfo → Step D H
  write_parent name device d parent = modify (λ s. record s {
    allocatable = insert name (record device { vfio = some (set_parent parent d) }) s.allocatable;
  })

module _ {D H T M : Type 0} (managers : Managers H T M) where
  open managers use {discover_vfio_device, discover_gpu_by_pci_bus_id}

  -- The `switch` on the type; `name` is the key under which the device was found.
  abbrev discover_view : String → AllocatableDevice → DeviceView → Step D H
  discover_view name device (gpu d) =
      if d.vfio_enabled then (on_host (discover_vfio_device d) >>= λ v. add_device v) else pure tt
  discover_view name device (vfio d) =
      on_host (discover_gpu_by_pci_bus_id d.pcie_bus_id) >>= λ found.
      write_parent name device d found.0.gpu >> add_device found.0 >> add_devices found.1
  discover_view name device _ = pure tt

  -- (s *DeviceState) discoverSiblingAllocatables
  unfoldable pub discover_sibling_allocatables : String → AllocatableDevice → Step D H
  unfolding device_view add_devices canonical_name insert
  discover_sibling_allocatables name device = discover_view name device (device_view device)

  abbrev discover_found : String → Option AllocatableDevice → Step D H
  discover_found name none = pure tt
  discover_found name (some d) = discover_sibling_allocatables name d

  -- The loop of `Unprepare` over the prepared devices.
  unfoldable pub discover_all_siblings : List KubeletDevice → Step D H
  unfolding discover_sibling_allocatables lookup
  discover_all_siblings [] = pure tt
  discover_all_siblings (k ∷ ks) =
      let rest = discover_all_siblings ks in
      (λ s. discover_found k.device_name (lookup k.device_name s.allocatable) s) >> rest
