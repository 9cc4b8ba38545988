-- ===== src/State/Unpreparing.antt =====
-- `unprepareDevices`, `unpreparePartiallyPrepairedClaim` and what they call in device_state.go.
use k8s_dra_driver.Common.{
  Bool, true, false, ◌||◌, Option, none, some, List, [], ◌∷◌, String, ◌==◌, if◌then◌else◌, Map,
  Outcome, ok, err, failure, panic, and_then, Exec, ◌>>=◌, ◌>>◌, pure, crash, lift,
}
use k8s_dra_driver.Kube.{AllocationResult}
use k8s_dra_driver.FeatureGates.{Gates}
use k8s_dra_driver.Devices.{MigSpecTuple, MigLiveTuple, VfioDeviceInfo}
use k8s_dra_driver.Devices.Allocatable.{AllocatableDevices, DeviceView, vfio, device_view}
use k8s_dra_driver.Devices.Prepared.{
  PreparedDevice, PreparedDeviceList, PreparedDeviceGroup, PreparedDevices, PreparedView, mig,
  prepared_view, hami_gpus, vfio_devices,
}
use k8s_dra_driver.Devices.Prepared as P
use k8s_dra_driver.Devices.Prepared.Uuids.{group_gpu_uuids}
use k8s_dra_driver.Mig.{mig_spec_tuple_from_canonical_name}
use k8s_dra_driver.Checkpoint.{PreparedClaim, completed_only}
use k8s_dra_driver.State.{ConfigApi, Managers}

abbrev vfio_with : String → DeviceView → Option VfioDeviceInfo
vfio_with uuid (vfio d) = if d.uuid == uuid then some d else none
vfio_with uuid _ = none

abbrev or_else : {A : Type 0} → Option A → Outcome A → Outcome A
or_else (some a) r = ok a
or_else none r = r

-- (s *DeviceState) getAllocatableVfioDevice; the caller reads only the Vfio of the device.
unfoldable pub get_allocatable_vfio_device : AllocatableDevices → String → Outcome VfioDeviceInfo
unfolding device_view
get_allocatable_vfio_device [] uuid = err (failure "allocatable device not found for vfio device")
get_allocatable_vfio_device ((name, d) ∷ m) uuid =
    or_else (vfio_with uuid (device_view d)) (get_allocatable_vfio_device m uuid)

-- The device names of an allocation, whatever their driver; a nil allocation is a panic.
unfoldable pub result_devices : List AllocationResult → List String
result_devices [] = []
result_devices (r ∷ rs) = r.device ∷ result_devices rs

unfoldable pub allocated_devices : PreparedClaim → Outcome (List String)
unfolding result_devices
allocated_devices c = elim c.status.allocation [
  | none ↦ panic
  | some a ↦ ok (result_devices a.results)
]

-- Whether a name stands in a list of names, where the loop that looks for it stops at the first.
unfoldable pub names_device : String → List String → Bool
names_device dname [] = false
names_device dname (d ∷ ds) = d == dname || names_device dname ds

-- The loops of `deleteMigDevIfExistsAndNotUsedByCompletedClaim` over the completed claims.
unfoldable pub in_use : String → Map PreparedClaim → Outcome Bool
unfolding allocated_devices names_device
in_use dname [] = ok false
in_use dname ((uid, c) ∷ m) =
    let rest = in_use dname m in
    and_then (allocated_devices c) (λ ds. if names_device dname ds then ok true else rest)

module _ {C T M H : Type 0} (api : ConfigApi C T M) (managers : Managers H T M) (g : Gates) where
  open api use {default_time_slicing_config}
  open managers use {
    hami_unprepare, set_time_slice, mps_stop, vfio_unconfigure, delete_mig_device,
    find_mig_dev_by_spec,
  }

  abbrev unconfigure_view : AllocatableDevices → PreparedView → Exec H (Unit {0})
  unconfigure_view m (P.vfio d) =
      lift (get_allocatable_vfio_device m d.info.uuid) >>= λ v. vfio_unconfigure v
  unconfigure_view m _ = crash

  -- (s *DeviceState) unprepareVfioDevices
  unfoldable unprepare_vfio_devices : AllocatableDevices → PreparedDeviceList → Exec H (Unit {0})
  unfolding get_allocatable_vfio_device prepared_view
  unprepare_vfio_devices m [] = pure tt
  unprepare_vfio_devices m (d ∷ ds) =
      let rest = unprepare_vfio_devices m ds in unconfigure_view m (prepared_view d) >> rest

  abbrev delete_view : PreparedView → Exec H (Unit {0})
  delete_view (mig d) = if g.dynamic_mig then delete_mig_device d.concrete else pure tt
  delete_view _ = pure tt

  -- The loop over the devices of a group; the other branches of its `switch` only log.
  unfoldable delete_migs : PreparedDeviceList → Exec H (Unit {0})
  unfolding prepared_view
  delete_migs [] = pure tt
  delete_migs (d ∷ ds) = let rest = delete_migs ds in delete_view (prepared_view d) >> rest

  abbrev when : Bool → Exec H (Unit {0}) → Exec H (Unit {0})
  when b m = if b then m else pure tt

  -- One round of the loop of `unprepareDevices`.
  unfoldable unprepare_group : AllocatableDevices → String → PreparedDeviceGroup → Exec H (Unit {0})
  unfolding unprepare_vfio_devices vfio_devices delete_migs hami_gpus group_gpu_uuids
  unprepare_group m uid group =
      when g.passthrough_support (unprepare_vfio_devices m (vfio_devices group.devices))
      >> delete_migs group.devices
      >> when g.hami_core_support (hami_unprepare uid (hami_gpus group.devices))
      >> when g.mps_support (mps_stop uid group)
      >> when g.time_slicing_settings
          (lift default_time_slicing_config >>= λ t. set_time_slice (group_gpu_uuids group) t)

  -- (s *DeviceState) unprepareDevices
  unfoldable pub unprepare_devices :
      AllocatableDevices → String → PreparedDevices → Exec H (Unit {0})
  unfolding unprepare_group
  unprepare_devices m uid [] = pure tt
  unprepare_devices m uid (group ∷ gs) =
      let rest = unprepare_devices m uid gs in unprepare_group m uid group >> rest

  abbrev delete_found : Option MigLiveTuple → Exec H (Unit {0})
  delete_found none = pure tt
  delete_found (some mlt) = delete_mig_device mlt

  -- (s *DeviceState) deleteMigDevIfExistsAndNotUsedByCompletedClaim
  unfoldable pub delete_mig_dev_if_not_used :
      MigSpecTuple → String → Map PreparedClaim → Exec H (Unit {0})
  unfolding in_use
  delete_mig_dev_if_not_used ms dname completed = lift (in_use dname completed) >>= λ used.
      if used then pure tt else (find_mig_dev_by_spec ms >>= λ found. delete_found found)

  abbrev roll_back : Option MigSpecTuple → String → Map PreparedClaim → Exec H (Unit {0})
  roll_back none dname completed = pure tt
  roll_back (some ms) dname completed = delete_mig_dev_if_not_used ms dname completed

  -- The loop over the results of the allocation.
  unfoldable pub roll_back_devices : List String → Map PreparedClaim → Exec H (Unit {0})
  unfolding delete_mig_dev_if_not_used mig_spec_tuple_from_canonical_name
  roll_back_devices [] completed = pure tt
  roll_back_devices (d ∷ ds) completed =
      let rest = roll_back_devices ds completed in
      roll_back (mig_spec_tuple_from_canonical_name d) d completed >> rest

  -- (s *DeviceState) unpreparePartiallyPrepairedClaim; the HAMi-Core manager is there where its gate
  -- is enabled. Without DynamicMIG it logs and goes on.
  unfoldable pub unprepare_partially_prepared_claim :
      String → PreparedClaim → Map PreparedClaim → Exec H (Unit {0})
  unfolding roll_back_devices allocated_devices
  unprepare_partially_prepared_claim uid pc prepared =
      if g.hami_core_support
      then hami_unprepare uid []
      else (lift (allocated_devices pc) >>= λ devices.
          roll_back_devices devices (completed_only prepared))
