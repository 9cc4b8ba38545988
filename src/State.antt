-- ===== src/State.antt =====
-- cmd/hami-kubelet-plugin/device_state.go: the state of the plugin on a node, and the parts that its
-- methods call. `s.Lock()` makes the methods run one after the other; they are functions from one
-- state to the next.
pub mod Keeping
pub mod Configs
pub mod Apply
pub mod Preparing
pub mod Unpreparing
pub mod Siblings
pub mod Overlap
pub mod Claims
use k8s_dra_driver.Common.{Bool, Option, List, String, Outcome, Exec}
use k8s_dra_driver.Kube.{ResourceClaim}
use k8s_dra_driver.Devices.{GpuInfo, MigSpec, MigSpecTuple, MigLiveTuple, VfioDeviceInfo}
use k8s_dra_driver.Devices.Allocatable.{AllocatableDevice, AllocatableDevices}
use k8s_dra_driver.Devices.Prepared.{
  PreparedDeviceList, PreparedDeviceGroup, PreparedDevices, ContainerEdits,
}

-- The Go type of a decoded configuration; `other_config` is any other runtime object.
pub data ConfigKind : Type 0 where
  gpu_config mig_config vfio_config other_config : ConfigKind

-- The configuration API, api/nvidia.com/resource/v1beta1 of the NVIDIA driver, which is a module of
-- its own. `C` is a decoded object, `T` a time-slicing configuration and `M` one for MPS. The
-- methods on the sharing part are those of `castConfig.Sharing`.
pub record ConfigApi (C : Type 0) (T : Type 0) (M : Type 0) : Type 0 where
  pub decode : String → Outcome C
  pub kind : C → ConfigKind
  pub default_gpu_config : C
  pub default_mig_device_config : C
  pub default_vfio_device_config : C
  pub normalize : C → Outcome C
  pub validate : C → Outcome (Unit {0})
  pub is_time_slicing : C → Bool
  pub get_time_slicing_config : C → Outcome (Option T)
  pub is_mps : C → Bool
  pub get_mps_config : C → Outcome (Option M)
  -- DefaultGpuConfig().Sharing.TimeSlicingConfig
  pub default_time_slicing_config : Outcome (Option T)

-- The managers that a DeviceState holds. They act on `H`, all of the node but the checkpoint
-- directory and the map of allocatable devices.
pub record Managers (H : Type 0) (T : Type 0) (M : Type 0) : Type 0 where
  -- CDIHandler
  pub create_claim_spec_file : String → PreparedDevices → Exec H (Unit {0})
  pub delete_claim_spec_file : String → Exec H (Unit {0})
  -- cdiparser.QualifiedName
  pub qualified_name : String → String → String → String
  -- HAMiCoreManager
  pub hami_unprepare : String → PreparedDeviceList → Exec H (Unit {0})
  pub hami_container_edits : ResourceClaim → AllocatableDevices → Exec H (Option ContainerEdits)
  -- TimeSlicingManager
  pub set_time_slice : List String → Option T → Exec H (Unit {0})
  -- MpsControlDaemon
  pub mps_start : String → AllocatableDevices → Option M → Exec H (Unit {0})
  pub mps_assert_ready : String → AllocatableDevices → Exec H (Unit {0})
  pub mps_id : String → AllocatableDevices → String
  pub mps_container_edits : String → AllocatableDevices → Option ContainerEdits
  pub mps_stop : String → PreparedDeviceGroup → Exec H (Unit {0})
  -- VfioPciManager
  pub vfio_configure : VfioDeviceInfo → Exec H (Unit {0})
  pub vfio_unconfigure : VfioDeviceInfo → Exec H (Unit {0})
  -- deviceLib
  pub create_mig_device : MigSpec → Exec H MigLiveTuple
  pub delete_mig_device : MigLiveTuple → Exec H (Unit {0})
  pub find_mig_dev_by_spec : MigSpecTuple → Exec H (Option MigLiveTuple)
  pub obliterate_stale_mig_devices : List String → Exec H (Unit {0})
  pub discover_vfio_device : GpuInfo → Exec H AllocatableDevice
  pub discover_gpu_by_pci_bus_id : String → Exec H (AllocatableDevice × List AllocatableDevice)

-- DeviceState, with the node that it acts on.
pub record DeviceState (D : Type 0) (H : Type 0) : Type 0 where
  pub allocatable : AllocatableDevices
  pub store : D
  pub host : H

abbrev pub on_store : {D H A : Type 0} → Exec D A → Exec (DeviceState D H) A
on_store m s = let (r, d) = m s.store in (r, record s { store = d })

abbrev pub on_host : {D H A : Type 0} → Exec H A → Exec (DeviceState D H) A
on_host m s = let (r, h) = m s.host in (r, record s { host = h })
