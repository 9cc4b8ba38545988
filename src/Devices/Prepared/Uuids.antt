-- ===== src/Devices/Prepared/Uuids.antt =====
-- The methods of prepared.go and hami_core.go that list UUIDs.
pub mod Hami
use k8s_dra_driver.Common.{List, [], ◌∷◌, ◌++◌, String, sort}
use k8s_dra_driver.Devices.Prepared.{
  PreparedDeviceList, PreparedDeviceGroup, PreparedView, hami_gpu, gpu, mig, vfio, prepared_view,
  hami_gpus, gpus, mig_devices, vfio_devices,
}

-- What the loop of one of the UUID methods appends for a device: the field behind the pointer that
-- the method follows.
abbrev hami_uuid : PreparedView → List String
hami_uuid (hami_gpu d) = d.info.uuid ∷ []
hami_uuid _ = []

abbrev gpu_uuid : PreparedView → List String
gpu_uuid (gpu d) = d.info.uuid ∷ []
gpu_uuid _ = []

abbrev mig_uuid : PreparedView → List String
mig_uuid (mig d) = d.concrete.mig_uuid ∷ []
mig_uuid _ = []

abbrev vfio_uuid : PreparedView → List String
vfio_uuid (vfio d) = d.info.uuid ∷ []
vfio_uuid _ = []

uuid_loop : (PreparedView → List String) → PreparedDeviceList → List String
unfolding prepared_view
uuid_loop f [] = []
uuid_loop f (d ∷ ds) = f (prepared_view d) ++ uuid_loop f ds

-- (l PreparedDeviceList) HAMiGpuUUIDs
unfoldable pub hami_gpu_uuids : PreparedDeviceList → List String
unfolding uuid_loop hami_gpus
hami_gpu_uuids l = sort (uuid_loop hami_uuid (hami_gpus l))

-- (l PreparedDeviceList) GpuUUIDs
unfoldable pub list_gpu_uuids : PreparedDeviceList → List String
unfolding uuid_loop gpus
list_gpu_uuids l = sort (uuid_loop gpu_uuid (gpus l))

-- (l PreparedDeviceList) MigDeviceUUIDs
unfoldable pub list_mig_device_uuids : PreparedDeviceList → List String
unfolding uuid_loop mig_devices
list_mig_device_uuids l = sort (uuid_loop mig_uuid (mig_devices l))

-- (l PreparedDeviceList) VfioDeviceUUIDs
unfoldable pub list_vfio_device_uuids : PreparedDeviceList → List String
unfolding uuid_loop vfio_devices
list_vfio_device_uuids l = sort (uuid_loop vfio_uuid (vfio_devices l))

-- (l PreparedDeviceList) UUIDs
unfoldable pub list_uuids : PreparedDeviceList → List String
unfolding list_gpu_uuids list_mig_device_uuids list_vfio_device_uuids
list_uuids l = sort ((list_gpu_uuids l ++ list_mig_device_uuids l) ++ list_vfio_device_uuids l)

-- (g *PreparedDeviceGroup) HAMIGpuUUIDs
unfoldable pub group_hami_gpu_uuids : PreparedDeviceGroup → List String
unfolding hami_gpus list_uuids
group_hami_gpu_uuids g = list_uuids (hami_gpus g.devices)

-- (g *PreparedDeviceGroup) GpuUUIDs
unfoldable pub group_gpu_uuids : PreparedDeviceGroup → List String
unfolding gpus list_uuids
group_gpu_uuids g = list_uuids (gpus g.devices)

-- (g *PreparedDeviceGroup) MigDeviceUUIDs
unfoldable pub group_mig_device_uuids : PreparedDeviceGroup → List String
unfolding mig_devices list_uuids
group_mig_device_uuids g = list_uuids (mig_devices g.devices)

-- (g *PreparedDeviceGroup) VfioDeviceUUIDs
unfoldable pub group_vfio_device_uuids : PreparedDeviceGroup → List String
unfolding vfio_devices list_uuids
group_vfio_device_uuids g = list_uuids (vfio_devices g.devices)

-- (g *PreparedDeviceGroup) UUIDs
unfoldable pub group_uuids : PreparedDeviceGroup → List String
unfolding group_gpu_uuids group_mig_device_uuids group_vfio_device_uuids
group_uuids g = sort ((group_gpu_uuids g ++ group_mig_device_uuids g) ++ group_vfio_device_uuids g)
