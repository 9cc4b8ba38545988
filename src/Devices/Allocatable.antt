-- ===== src/Devices/Allocatable.antt =====
-- cmd/hami-kubelet-plugin/allocatable.go: the devices that can be allocated, by name. The five
-- pointers of a device are options; a `switch d.Type()` is a match on `device_view`, which holds the
-- pointer that the branch follows.
pub mod Siblings
pub mod Uuids
use k8s_dra_driver.Common.{
  Bool, true, false, Option, none, some, List, [], ◌∷◌, String, ◌==◌, if◌then◌else◌, Map, insert,
  delete, Outcome, ok, err, panic, and_then, sort,
}
use k8s_dra_driver.FeatureGates.{Gates}
use k8s_dra_driver.Devices.{
  HealthStatus, healthy, unhealthy, unset, GpuInfo, HamiGpuInfo, MigSpec, MigDeviceInfo,
  VfioDeviceInfo, gpu_canonical_name, hami_canonical_name, vfio_canonical_name,
}
use k8s_dra_driver.Mig.{mig_device_canonical_name, mig_spec_canonical_name}

pub record AllocatableDevice : Type 0 where
  pub hami_gpu : Option HamiGpuInfo
  pub gpu : Option GpuInfo
  pub mig_dynamic : Option MigSpec
  pub mig_static : Option MigDeviceInfo
  pub vfio : Option VfioDeviceInfo

abbrev pub AllocatableDevices : Type 0
AllocatableDevices = Map AllocatableDevice

pub data DeviceType : Type 0 where
  hami_gpu_type gpu_type mig_dynamic_type mig_static_type vfio_type unknown_type : DeviceType

pub data DeviceView : Type 0 where
  hami_gpu : HamiGpuInfo → DeviceView
  gpu : GpuInfo → DeviceView
  mig_dynamic : MigSpec → DeviceView
  mig_static : MigDeviceInfo → DeviceView
  vfio : VfioDeviceInfo → DeviceView
  unknown : DeviceView

-- The order of the tests for nil in `Type`.
abbrev view_of :
    Option HamiGpuInfo
    → Option GpuInfo
    → Option MigSpec
    → Option MigDeviceInfo
    → Option VfioDeviceInfo
    → DeviceView
view_of (some d) _ _ _ _ = hami_gpu d
view_of none (some d) _ _ _ = gpu d
view_of none none (some d) _ _ = mig_dynamic d
view_of none none none (some d) _ = mig_static d
view_of none none none none (some d) = vfio d
view_of none none none none none = unknown

unfoldable pub device_view : AllocatableDevice → DeviceView
device_view d = view_of d.hami_gpu d.gpu d.mig_dynamic d.mig_static d.vfio

abbrev pub type_of : DeviceView → DeviceType
type_of (hami_gpu _) = hami_gpu_type
type_of (gpu _) = gpu_type
type_of (mig_dynamic _) = mig_dynamic_type
type_of (mig_static _) = mig_static_type
type_of (vfio _) = vfio_type
type_of unknown = unknown_type

-- (d AllocatableDevice) Type
unfoldable pub device_type : AllocatableDevice → DeviceType
unfolding device_view
device_type d = type_of (device_view d)

abbrev pub same_type : DeviceType → DeviceType → Bool
same_type hami_gpu_type hami_gpu_type = true
same_type gpu_type gpu_type = true
same_type mig_dynamic_type mig_dynamic_type = true
same_type mig_static_type mig_static_type = true
same_type vfio_type vfio_type = true
same_type unknown_type unknown_type = true
same_type _ _ = false

abbrev is_mig_type : DeviceType → Bool
is_mig_type mig_static_type = true
is_mig_type mig_dynamic_type = true
is_mig_type _ = false

unfoldable pub is_static_or_dyn_mig_device : AllocatableDevice → Bool
unfolding device_type
is_static_or_dyn_mig_device d = is_mig_type (device_type d)

abbrev view_name : DeviceView → Outcome String
view_name (hami_gpu d) = ok (hami_canonical_name d)
view_name (gpu d) = ok (gpu_canonical_name d)
view_name (mig_static d) = ok (mig_device_canonical_name d)
view_name (mig_dynamic d) = ok (mig_spec_canonical_name d)
view_name (vfio d) = ok (vfio_canonical_name d)
view_name unknown = panic

-- (d *AllocatableDevice) CanonicalName
unfoldable pub canonical_name : AllocatableDevice → Outcome String
unfolding device_view
canonical_name d = view_name (device_view d)

-- `UUID` tests MigStatic before MigDynamic.
abbrev uuid_of :
    Option HamiGpuInfo
    → Option GpuInfo
    → Option MigDeviceInfo
    → Option MigSpec
    → Option VfioDeviceInfo
    → Outcome String
uuid_of (some d) _ _ _ _ = ok d.uuid
uuid_of none (some d) _ _ _ = ok d.uuid
uuid_of none none (some d) _ _ = ok d.uuid
uuid_of none none none (some d) _ = panic
uuid_of none none none none (some d) = ok d.uuid
uuid_of none none none none none = panic

-- (d AllocatableDevice) UUID
unfoldable pub device_uuid : AllocatableDevice → Outcome String
device_uuid d = uuid_of d.hami_gpu d.gpu d.mig_static d.mig_dynamic d.vfio

abbrev pub is_healthy_status : HealthStatus → Bool
is_healthy_status healthy = true
is_healthy_status unhealthy = false
is_healthy_status unset = false

abbrev view_healthy : DeviceView → Outcome Bool
view_healthy (hami_gpu d) = ok (is_healthy_status d.health)
view_healthy (gpu d) = ok (is_healthy_status d.health)
view_healthy (mig_static d) = ok (is_healthy_status d.health)
view_healthy (mig_dynamic d) = ok true
view_healthy (vfio d) = panic
view_healthy unknown = panic

-- (d *AllocatableDevice) IsHealthy
unfoldable pub is_healthy : AllocatableDevice → Outcome Bool
unfolding device_view
is_healthy d = view_healthy (device_view d)

abbrev view_pcie_bus_id : DeviceView → Option String
view_pcie_bus_id (hami_gpu d) = some d.pcie_bus_id
view_pcie_bus_id (gpu d) = some d.pcie_bus_id
view_pcie_bus_id (mig_static d) = some d.parent.pcie_bus_id
view_pcie_bus_id (mig_dynamic d) = some d.parent.pcie_bus_id
view_pcie_bus_id (vfio d) = some d.pcie_bus_id
view_pcie_bus_id unknown = none

abbrev is_text : String → Option String → Bool
is_text s none = false
is_text s (some t) = t == s

-- The device stands on the physical GPU with that bus id.
unfoldable pub on_gpu : String → AllocatableDevice → Bool
unfolding device_view
on_gpu pcie_bus_id d = is_text pcie_bus_id (view_pcie_bus_id (device_view d))

-- The devices that pass a test, in the order of the loop.
unfoldable pub select : (AllocatableDevice → Bool) → AllocatableDevices → List AllocatableDevice
select p [] = []
select p ((name, d) ∷ m) = let rest = select p m in if p d then d ∷ rest else rest

unfoldable pub get_devices_by_gpu_pci_bus_id : AllocatableDevices → String → List AllocatableDevice
unfolding select on_gpu
get_devices_by_gpu_pci_bus_id m pcie_bus_id = select (on_gpu pcie_bus_id) m

unfoldable pub get_gpus : AllocatableDevices → List AllocatableDevice
unfolding select device_type
get_gpus m = select (λ d. same_type (device_type d) gpu_type) m

unfoldable pub get_vfio_devices : AllocatableDevices → List AllocatableDevice
unfolding select device_type
get_vfio_devices m = select (λ d. same_type (device_type d) vfio_type) m

abbrev gpu_on : String → DeviceView → Bool
gpu_on pcie_bus_id (gpu d) = d.pcie_bus_id == pcie_bus_id
gpu_on pcie_bus_id _ = false

-- The first full GPU with that bus id, or nil.
unfoldable pub get_gpu_by_pcie_bus_id : AllocatableDevices → String → Option AllocatableDevice
unfolding device_view
get_gpu_by_pcie_bus_id [] pcie_bus_id = none
get_gpu_by_pcie_bus_id ((name, d) ∷ m) pcie_bus_id =
    if gpu_on pcie_bus_id (device_view d) then some d else get_gpu_by_pcie_bus_id m pcie_bus_id
