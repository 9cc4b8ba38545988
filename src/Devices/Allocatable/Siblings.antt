-- ===== src/Devices/Allocatable/Siblings.antt =====
-- `RemoveSiblingDevices` of allocatable.go.
use k8s_dra_driver.Common.{Option, none, some, List, [], ◌∷◌, String, if◌then◌else◌, delete}
use k8s_dra_driver.Devices.{gpu_canonical_name, vfio_canonical_name}
use k8s_dra_driver.Devices.Allocatable.{
  AllocatableDevice, AllocatableDevices, DeviceType, DeviceView, hami_gpu, gpu, mig_dynamic,
  mig_static, vfio, unknown, device_view, device_type, same_type, get_devices_by_gpu_pci_bus_id,
}

-- `delete` under the name of a sibling; the other types are passed over.
abbrev drop_entry : DeviceView → AllocatableDevices → AllocatableDevices
drop_entry (gpu d) m = delete (gpu_canonical_name d) m
drop_entry (vfio d) m = delete (vfio_canonical_name d) m
drop_entry _ m = m

-- One round of the loop of `RemoveSiblingDevices`.
remove_sibling : DeviceType → AllocatableDevice → AllocatableDevices → AllocatableDevices
unfolding device_type device_view
remove_sibling t sibling m =
    if same_type (device_type sibling) t then m else drop_entry (device_view sibling) m

remove_siblings : DeviceType → List AllocatableDevice → AllocatableDevices → AllocatableDevices
unfolding remove_sibling
remove_siblings t [] m = m
remove_siblings t (s ∷ ss) m = remove_siblings t ss (remove_sibling t s m)

-- The bus id that the first `switch` finds; `none` is an early return.
abbrev sibling_bus : DeviceView → Option String
sibling_bus (gpu d) = some d.pcie_bus_id
sibling_bus (vfio d) = some d.pcie_bus_id
sibling_bus (mig_static _) = none
sibling_bus (mig_dynamic _) = none
sibling_bus (hami_gpu _) = some ""
sibling_bus unknown = some ""

-- (d AllocatableDevices) RemoveSiblingDevices
unfoldable pub remove_sibling_devices : AllocatableDevice → AllocatableDevices → AllocatableDevices
unfolding device_view device_type get_devices_by_gpu_pci_bus_id remove_siblings
remove_sibling_devices device m = elim (sibling_bus (device_view device)) [
  | none ↦ m
  | some bus ↦ remove_siblings (device_type device) (get_devices_by_gpu_pci_bus_id m bus) m
]
