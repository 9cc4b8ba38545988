-- ===== src/Devices/Prepared.antt =====
-- cmd/hami-kubelet-plugin/prepared.go and the prepared types of hami_core.go: the devices that were
-- prepared for a claim, in groups that share a configuration. A `switch device.Type()` is a match on
-- `prepared_view`, which holds the pointer that the branch follows.
pub mod Uuids
use k8s_dra_driver.Common.{
  ℕ, Bool, true, false, Option, none, some, List, [], ◌∷◌, ◌++◌, String, ◌==◌, if◌then◌else◌, Map,
  insert, Outcome, ok, panic, sort, is_some,
}
use k8s_dra_driver.Kube.{KubeletDevice, ClaimStatus, Allocation, AllocationResult}
use k8s_dra_driver.Devices.{
  driver_name, GpuInfo, HamiGpuInfo, MigLiveTuple, VfioDeviceInfo, gpu_canonical_name,
  hami_canonical_name, vfio_canonical_name,
}

pub record PreparedHamiGpu : Type 0 where
  pub info : HamiGpuInfo
  pub device : KubeletDevice

pub record PreparedGpu : Type 0 where
  pub info : GpuInfo
  pub device : KubeletDevice

pub record PreparedMigDevice : Type 0 where
  pub concrete : MigLiveTuple
  pub device : KubeletDevice

pub record PreparedVfioDevice : Type 0 where
  pub info : VfioDeviceInfo
  pub device : KubeletDevice

pub record PreparedDevice : Type 0 where
  pub hami_gpu : Option PreparedHamiGpu
  pub gpu : Option PreparedGpu
  pub mig : Option PreparedMigDevice
  pub vfio : Option PreparedVfioDevice

abbrev pub PreparedDeviceList : Type 0
PreparedDeviceList = List PreparedDevice

-- cdispec.Mount and the edits of a container, as far as they are used.
pub record Mount : Type 0 where
  pub container_path : String
  pub host_path : String
  pub options : List String

pub record ContainerEdits : Type 0 where
  pub env : List String
  pub mounts : List Mount

pub record DeviceConfigState : Type 0 where
  pub mps_control_daemon_id : String
  pub container_edits : Option ContainerEdits

pub record PreparedDeviceGroup : Type 0 where
  pub devices : PreparedDeviceList
  pub config_state : DeviceConfigState

abbrev pub PreparedDevices : Type 0
PreparedDevices = List PreparedDeviceGroup

pub data PreparedView : Type 0 where
  hami_gpu : PreparedHamiGpu → PreparedView
  gpu : PreparedGpu → PreparedView
  mig : PreparedMigDevice → PreparedView
  vfio : PreparedVfioDevice → PreparedView
  unknown : PreparedView

abbrev pub prepared_view_of :
    Option PreparedHamiGpu
    → Option PreparedGpu
    → Option PreparedMigDevice
    → Option PreparedVfioDevice
    → PreparedView
prepared_view_of (some d) _ _ _ = hami_gpu d
prepared_view_of none (some d) _ _ = gpu d
prepared_view_of none none (some d) _ = mig d
prepared_view_of none none none (some d) = vfio d
prepared_view_of none none none none = unknown

-- (d PreparedDevice) Type
unfoldable pub prepared_view : PreparedDevice → PreparedView
prepared_view d = prepared_view_of d.hami_gpu d.gpu d.mig d.vfio

abbrev view_name : PreparedView → Outcome String
view_name (hami_gpu d) = ok (hami_canonical_name d.info)
view_name (gpu d) = ok (gpu_canonical_name d.info)
view_name (mig d) = ok d.device.device_name
view_name (vfio d) = ok (vfio_canonical_name d.info)
view_name unknown = panic

-- (d *PreparedDevice) CanonicalName
unfoldable pub prepared_canonical_name : PreparedDevice → Outcome String
unfolding prepared_view
prepared_canonical_name d = view_name (prepared_view d)

abbrev is_hami_gpu : PreparedView → Bool
is_hami_gpu (hami_gpu _) = true
is_hami_gpu _ = false

abbrev is_gpu : PreparedView → Bool
is_gpu (gpu _) = true
is_gpu _ = false

abbrev is_mig : PreparedView → Bool
is_mig (mig _) = true
is_mig _ = false

abbrev is_vfio : PreparedView → Bool
is_vfio (vfio _) = true
is_vfio _ = false

-- The devices whose type passes a test, in order.
select : (PreparedView → Bool) → PreparedDeviceList → PreparedDeviceList
unfolding prepared_view
select p [] = []
select p (d ∷ ds) = let rest = select p ds in if p (prepared_view d) then d ∷ rest else rest

-- (l PreparedDeviceList) HAMiGpus
unfoldable pub hami_gpus : PreparedDeviceList → PreparedDeviceList
unfolding select
hami_gpus l = select is_hami_gpu l

-- (l PreparedDeviceList) Gpus
unfoldable pub gpus : PreparedDeviceList → PreparedDeviceList
unfolding select
gpus l = select is_gpu l

-- (l PreparedDeviceList) MigDevices
unfoldable pub mig_devices : PreparedDeviceList → PreparedDeviceList
unfolding select
mig_devices l = select is_mig l

-- (l PreparedDeviceList) VfioDevices
unfoldable pub vfio_devices : PreparedDeviceList → PreparedDeviceList
unfolding select
vfio_devices l = select is_vfio l

abbrev pub view_device : PreparedView → List KubeletDevice
view_device (hami_gpu d) = d.device ∷ []
view_device (gpu d) = d.device ∷ []
view_device (mig d) = d.device ∷ []
view_device (vfio d) = d.device ∷ []
view_device unknown = []

-- The loop of `GetDevices` over one group.
unfoldable pub list_devices : PreparedDeviceList → List KubeletDevice
unfolding prepared_view
list_devices [] = []
list_devices (d ∷ ds) = view_device (prepared_view d) ++ list_devices ds

-- (g *PreparedDeviceGroup) GetDevices
unfoldable pub group_devices : PreparedDeviceGroup → List KubeletDevice
unfolding list_devices
group_devices g = list_devices g.devices

-- (d PreparedDevices) GetDevices
unfoldable pub get_devices : PreparedDevices → List KubeletDevice
unfolding group_devices
get_devices [] = []
get_devices (g ∷ gs) = group_devices g ++ get_devices gs

abbrev view_device_name : PreparedView → List String
view_device_name (gpu d) = gpu_canonical_name d.info ∷ []
view_device_name (mig d) = d.device.device_name ∷ []
view_device_name _ = []

list_device_names : PreparedDeviceList → List String
unfolding prepared_view
list_device_names [] = []
list_device_names (d ∷ ds) = view_device_name (prepared_view d) ++ list_device_names ds

-- (d PreparedDevices) GetDeviceNames
unfoldable pub get_device_names : PreparedDevices → List String
unfolding list_device_names
get_device_names [] = []
get_device_names (g ∷ gs) = list_device_names g.devices ++ get_device_names gs

-- r.AdminAccess != nil && *r.AdminAccess
abbrev pub is_admin : Option Bool → Bool
is_admin none = false
is_admin (some b) = b

-- The devices of the allocation that are this driver's and not for admin access, as a set of names:
-- the loop that `GetNonAdminDevices` and `requestedNonAdminDevices` share.
unfoldable pub non_admin_devices : List AllocationResult → List String
non_admin_devices [] = []
non_admin_devices (r ∷ rs) =
    let rest = non_admin_devices rs in
    if r.driver == driver_name
    then if is_admin r.admin_access then rest else r.device ∷ rest
    else rest
