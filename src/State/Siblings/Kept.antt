-- ===== src/State/Siblings/Kept.antt =====
-- The discovery of siblings leaves the checkpoint directory as it is.
use k8s_dra_driver.Common.{
  true, false, Option, none, some, List, [], ◌∷◌, String, if◌then◌else◌, lookup, lift, pure, ◌>>=◌,
  ◌>>◌, refl,
}
use k8s_dra_driver.Kube.{KubeletDevice}
use k8s_dra_driver.Devices.{VfioDeviceInfo}
use k8s_dra_driver.Devices.Allocatable.{
  AllocatableDevice, DeviceView, hami_gpu, gpu, mig_dynamic, mig_static, vfio, unknown,
  canonical_name, device_view,
}
use k8s_dra_driver.State.{Managers, on_host}
use k8s_dra_driver.State.Keeping.{Keeps, chain-Keeps}
use k8s_dra_driver.State.Siblings.{
  add_device, add_devices, write_parent, discover_view, discover_found,
  discover_sibling_allocatables, discover_all_siblings,
}

module _ {D H : Type 0} where
  add_device-Keeps : (d : AllocatableDevice) → Keeps (add_device {D = D} {H = H} d)
  add_device-Keeps d = chain-Keeps (lift (canonical_name d)) _ (λ s. refl) (λ name s. refl)

  add_devices-Keeps : (ds : List AllocatableDevice) → Keeps (add_devices {D = D} {H = H} ds)
  unfolding add_devices
  add_devices-Keeps [] = λ s. refl
  add_devices-Keeps (d ∷ ds) =
      chain-Keeps (add_device d) _ (add_device-Keeps d) (λ _. add_devices-Keeps ds)

  add_found-Keeps :
      (name : String) (d : AllocatableDevice) (i : VfioDeviceInfo)
      (found : AllocatableDevice × List AllocatableDevice)
      → Keeps (
          write_parent {D = D} {H = H} name d i found.0.gpu
          >> add_device found.0
          >> add_devices found.1)
  add_found-Keeps name d i found =
      chain-Keeps (write_parent {D = D} {H = H} name d i found.0.gpu)
        (λ _. add_device found.0 >> add_devices found.1) (λ s. refl)
        (λ _.
          chain-Keeps (add_device {D = D} {H = H} found.0) (λ _. add_devices found.1)
            (add_device-Keeps found.0) (λ _. add_devices-Keeps found.1))

module _ {D H T M : Type 0} (managers : Managers H T M) where
  discover-Keeps :
      (name : String) (d : AllocatableDevice) (v : DeviceView)
      → Keeps (discover_view {D = D} managers name d v)
  discover-Keeps name d (gpu i) =
      elim i.vfio_enabled
        as (λ b. Keeps (
          if b
          then (on_host (managers.discover_vfio_device i) >>= λ v. add_device {D = D} v)
          else pure tt)) [
            | true ↦
                chain-Keeps (on_host {D = D} (managers.discover_vfio_device i)) _ (λ s. refl)
                  (λ v. add_device-Keeps v)
            | false ↦ λ s. refl
          ]
  discover-Keeps name d (vfio i) =
      chain-Keeps (on_host {D = D} (managers.discover_gpu_by_pci_bus_id i.pcie_bus_id))
        (λ found. write_parent name d i found.0.gpu >> add_device found.0 >> add_devices found.1)
        (λ s. refl) (add_found-Keeps name d i)
  discover-Keeps name d (hami_gpu i) = λ s. refl
  discover-Keeps name d (mig_dynamic i) = λ s. refl
  discover-Keeps name d (mig_static i) = λ s. refl
  discover-Keeps name d unknown = λ s. refl

  found-Keeps :
      (name : String) (o : Option AllocatableDevice)
      → Keeps (discover_found {D = D} managers name o)
  unfolding discover_sibling_allocatables
  found-Keeps name none = λ s. refl
  found-Keeps name (some d) = discover-Keeps name d (device_view d)

  pub discover_all_siblings-Keeps :
      (ks : List KubeletDevice) → Keeps (discover_all_siblings {D = D} managers ks)
  unfolding discover_all_siblings
  discover_all_siblings-Keeps [] = λ s. refl
  discover_all_siblings-Keeps (k ∷ ks) =
      chain-Keeps
        (λ s. discover_found managers k.device_name (lookup k.device_name s.allocatable) s) _
        (λ s. found-Keeps k.device_name (lookup k.device_name s.allocatable) s)
        (λ _. discover_all_siblings-Keeps ks)
