-- ===== src/State/Apply.antt =====
-- `applyConfig`, `applySharingConfig` and `applyVfioDeviceConfig` of device_state.go.
use k8s_dra_driver.Common.{
  ◌&&◌, Option, none, some, List, [], ◌∷◌, String, if◌then◌else◌, lookup, insert, Exec, ◌>>=◌, ◌>>◌,
  pure, raise, crash, lift,
}
use k8s_dra_driver.Kube.{AllocationResult, ResourceClaim}
use k8s_dra_driver.FeatureGates.{Gates}
use k8s_dra_driver.Devices.{VfioDeviceInfo}
use k8s_dra_driver.Devices.Allocatable.{AllocatableDevice, AllocatableDevices}
use k8s_dra_driver.Devices.Allocatable.Uuids.{gpu_uuids}
use k8s_dra_driver.Devices.Prepared.{DeviceConfigState, ContainerEdits}
use k8s_dra_driver.State.{ConfigApi, Managers, gpu_config, mig_config, vfio_config, other_config}

-- requestedDevices: a name that is not there stands for a nil pointer. Every result was looked up
-- before, so none is missing.
unfoldable requested_devices : AllocatableDevices → List AllocationResult → AllocatableDevices
unfolding lookup insert
requested_devices m [] = []
requested_devices m (r ∷ rs) =
    let rest = requested_devices m rs in
    elim (lookup r.device m) [ some d ↦ insert r.device d rest | none ↦ rest ]

abbrev no_state : DeviceConfigState
no_state = record { mps_control_daemon_id = ""; container_edits = none }

module _ {C T M H : Type 0} (api : ConfigApi C T M) (managers : Managers H T M) (g : Gates) where
  open api use {kind, is_time_slicing, get_time_slicing_config, is_mps, get_mps_config}
  open managers use {
    hami_container_edits, set_time_slice, mps_start, mps_assert_ready, mps_id, mps_container_edits,
    vfio_configure,
  }

  abbrev hami_part : ResourceClaim → AllocatableDevices → Exec H (Option ContainerEdits)
  hami_part claim devices =
      if g.hami_core_support then hami_container_edits claim devices else pure none

  abbrev set_time_slice_of : AllocatableDevices → Option T → Exec H (Unit {0})
  set_time_slice_of devices none = pure tt
  set_time_slice_of devices (some t) =
      lift (gpu_uuids devices) >>= λ uuids. set_time_slice uuids (some t)

  abbrev time_slicing_part : C → AllocatableDevices → Exec H (Unit {0})
  time_slicing_part config devices =
      if g.time_slicing_settings && is_time_slicing config
      then (lift (get_time_slicing_config config) >>= λ t. set_time_slice_of devices t)
      else pure tt

  abbrev start_mps : C → String → AllocatableDevices → Exec H DeviceConfigState
  start_mps config uid devices = lift (get_mps_config config) >>= λ m.
      mps_start uid devices m
      >> mps_assert_ready uid devices
      >> pure (record {
        mps_control_daemon_id = mps_id uid devices;
        container_edits = mps_container_edits uid devices;
      })

  abbrev mps_part : C → String → AllocatableDevices → DeviceConfigState → Exec H DeviceConfigState
  mps_part config uid devices state =
      if g.mps_support && is_mps config
      then if g.dynamic_mig
        then raise "MPS is not yet supported when using featureGates.DynamicMIG=true"
        else start_mps config uid devices
      else pure state

  -- (s *DeviceState) applySharingConfig
  unfoldable pub apply_sharing_config :
      AllocatableDevices → C → ResourceClaim → List AllocationResult → Exec H DeviceConfigState
  unfolding requested_devices gpu_uuids
  apply_sharing_config m config claim results =
      let devices = requested_devices m results in
      hami_part claim devices >>= λ edits.
      time_slicing_part config devices
      >> mps_part config claim.uid devices (record no_state { container_edits = edits })

  abbrev vfio_of : Option AllocatableDevice → Option VfioDeviceInfo
  vfio_of none = none
  vfio_of (some d) = d.vfio

  -- `Configure` reads the fields of the device, which panics where it is nil.
  abbrev configure_vfio : Option VfioDeviceInfo → Exec H (Unit {0})
  configure_vfio none = crash
  configure_vfio (some d) = vfio_configure d

  unfoldable configure_all : AllocatableDevices → List AllocationResult → Exec H (Unit {0})
  unfolding lookup
  configure_all m [] = pure tt
  configure_all m (r ∷ rs) =
      let rest = configure_all m rs in configure_vfio (vfio_of (lookup r.device m)) >> rest

  -- (s *DeviceState) applyVfioDeviceConfig
  unfoldable pub apply_vfio_device_config :
      AllocatableDevices → List AllocationResult → Exec H (Option DeviceConfigState)
  unfolding configure_all
  apply_vfio_device_config m results =
      if g.passthrough_support then configure_all m results >> pure (some no_state) else pure none

  -- (s *DeviceState) applyConfig
  unfoldable pub apply_config :
      AllocatableDevices
      → C
      → ResourceClaim
      → List AllocationResult
      → Exec H (Option DeviceConfigState)
  unfolding apply_sharing_config apply_vfio_device_config
  apply_config m config claim results = elim (kind config) [
    | gpu_config ↦ apply_sharing_config m config claim results >>= λ state. pure (some state)
    | mig_config ↦ apply_sharing_config m config claim results >>= λ state. pure (some state)
    | vfio_config ↦ apply_vfio_device_config m results
    | other_config ↦ raise "unknown config type"
  ]
