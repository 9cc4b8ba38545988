-- ===== src/State/Preparing.antt =====
-- `prepareDevices` of device_state.go. What it changes is the node; the map of allocatable devices
-- is only read.
use k8s_dra_driver.Common.{
  Option, none, some, List, [], ◌∷◌, String, ◌<>◌, lookup, Outcome, ok, err, failure, Exec, ◌>>=◌,
  ◌>>◌, pure, raise, crash, lift, and_then,
}
use k8s_dra_driver.Kube.{Allocation, AllocationResult, KubeletDevice, ResourceClaim}
use k8s_dra_driver.FeatureGates.{Gates}
use k8s_dra_driver.Devices.{driver_name, live_tuple}
use k8s_dra_driver.Devices.Allocatable.{
  AllocatableDevice, AllocatableDevices, DeviceView, hami_gpu, gpu, mig_dynamic, mig_static, vfio,
  unknown, device_view, canonical_name,
}
use k8s_dra_driver.Devices.Prepared.{PreparedDevice, PreparedDevices, DeviceConfigState}
use k8s_dra_driver.State.{ConfigApi, ConfigKind, Managers, other_config}
use k8s_dra_driver.State.Configs.{Groups, config_results}
use k8s_dra_driver.State.Apply.{apply_config}

abbrev cdi_vendor : String
cdi_vendor = "k8s." <> driver_name

abbrev cdi_claim_class : String
cdi_claim_class = "claim"

abbrev nothing_prepared : PreparedDevice
nothing_prepared = record { hami_gpu = none; gpu = none; mig = none; vfio = none }

-- A group of results with the state that `applyConfig` gave for its config.
abbrev Applied : Type 0
Applied = List AllocationResult × Option DeviceConfigState

module _ {C T M H : Type 0} (api : ConfigApi C T M) (managers : Managers H T M) (g : Gates) where
  open api use {kind, normalize, validate}
  open managers use {create_mig_device, qualified_name}

  abbrev recognised : ConfigKind → Outcome (Unit {0}) → Outcome (Unit {0})
  recognised other_config r = err (failure "runtime object is not a recognized configuration")
  recognised _ r = r

  -- The loop that normalizes, validates and applies the configs.
  unfoldable apply_configs : AllocatableDevices → ResourceClaim → Groups C → Exec H (List Applied)
  unfolding apply_config
  apply_configs m claim [] = pure []
  apply_configs m claim ((c, results) ∷ gs) =
      let rest = apply_configs m claim gs in
      lift (recognised (kind c.1.config) (ok tt))
      >> (lift (normalize c.1.config) >>= λ config.
          lift (validate config)
          >> (apply_config api managers g m config claim results >>= λ state.
              rest >>= λ others. pure ((results, state) ∷ others)))

  -- (cdi *CDIHandler) GetClaimDeviceName, which gives a text that is never empty.
  unfoldable pub get_claim_device_name : String → AllocatableDevice → Outcome String
  unfolding canonical_name
  get_claim_device_name uid device =
      and_then (canonical_name device)
        (λ name. ok (qualified_name cdi_vendor cdi_claim_class (uid <> "-" <> name)))

  abbrev kubelet_device : AllocationResult → String → KubeletDevice
  kubelet_device r id = record {
    requests = r.request ∷ [];
    pool_name = r.pool;
    device_name = r.device;
    cdi_device_ids = id ∷ [];
  }

  -- The `switch` on the type of the allocatable device.
  abbrev prepare_view : DeviceView → KubeletDevice → Exec H PreparedDevice
  prepare_view (hami_gpu d) k =
      pure (record nothing_prepared { hami_gpu = some (record { info = d; device = k }) })
  prepare_view (gpu d) k =
      pure (record nothing_prepared { gpu = some (record { info = d; device = k }) })
  prepare_view (mig_static d) k =
      pure (record nothing_prepared { mig = some (record { concrete = live_tuple d; device = k }) })
  prepare_view (mig_dynamic d) k = create_mig_device d >>= λ mig.
      pure (record nothing_prepared { mig = some (record { concrete = mig; device = k }) })
  prepare_view (vfio d) k =
      pure (record nothing_prepared { vfio = some (record { info = d; device = k }) })
  prepare_view unknown k = pure nothing_prepared

  abbrev prepare_found :
      String → Option AllocatableDevice → AllocationResult → Exec H PreparedDevice
  prepare_found uid none r = crash
  prepare_found uid (some d) r = lift (get_claim_device_name uid d) >>= λ id.
      prepare_view (device_view d) (kubelet_device r id)

  unfoldable prepare_results :
      AllocatableDevices → String → List AllocationResult → Exec H (List PreparedDevice)
  unfolding lookup get_claim_device_name device_view live_tuple
  prepare_results m uid [] = pure []
  prepare_results m uid (r ∷ rs) =
      let rest = prepare_results m uid rs in
      prepare_found uid (lookup r.device m) r >>= λ d. rest >>= λ ds. pure (d ∷ ds)

  -- *preparedDeviceGroupConfigState[c]
  abbrev dereference : Option DeviceConfigState → Exec H DeviceConfigState
  dereference none = crash
  dereference (some state) = pure state

  -- The loop that builds the groups of prepared devices.
  unfoldable prepare_groups : AllocatableDevices → String → List Applied → Exec H PreparedDevices
  unfolding prepare_results
  prepare_groups m uid [] = pure []
  prepare_groups m uid ((results, state) ∷ gs) =
      let rest = prepare_groups m uid gs in
      dereference state >>= λ config_state. prepare_results m uid results >>= λ devices.
      rest >>= λ groups. pure (record { devices = devices; config_state = config_state } ∷ groups)

  -- The body of `prepareDevices` behind the test for an allocation.
  unfoldable prepare_allocated :
      AllocatableDevices → ResourceClaim → Allocation → Exec H PreparedDevices
  unfolding config_results apply_configs prepare_groups
  prepare_allocated m claim a = lift (config_results api g m a.config a.results) >>= λ groups.
      apply_configs m claim groups >>= λ applied. prepare_groups m claim.uid applied

  -- (s *DeviceState) prepareDevices
  unfoldable pub prepare_devices : AllocatableDevices → ResourceClaim → Exec H PreparedDevices
  unfolding prepare_allocated
  prepare_devices m claim = elim claim.status.allocation [
    | none ↦ raise "claim not yet allocated"
    | some a ↦ prepare_allocated m claim a
  ]
