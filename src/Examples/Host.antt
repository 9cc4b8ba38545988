-- ===== src/Examples/Host.antt =====
-- The properties of the parts that act on devices, at concrete inputs.
use k8s_dra_driver.Common.{
  true, false, none, some, List, [], ◌∷◌, String, ok, is_ok, ◌&&◌, contains, lookup, delete, ◌≤◌,
  ◌≡◌, ◌⊎◌, refl, ap, sym,
}
use k8s_dra_driver.Devices.{VfioDeviceInfo}
use k8s_dra_driver.Health.{get, get_device_placement_map, full_gpu_instance_id}
use k8s_dra_driver.Health.Placement.{last_at, get-get_device_placement_map}
use k8s_dra_driver.Health.Xids.{xids_to_skip}
use k8s_dra_driver.Health.Monitor.{
  count, len, HealthMonitor, Channel, Reaches, stays, step, wait, event,
  new_nvml_device_health_monitor, registered_channel, register_events_for_devices, on_reply,
}
use k8s_dra_driver.Health.Monitor.Notices.{Each}
use k8s_dra_driver.Health.Monitor.Reachable.{HasPlacement, Reaches-Notices}
use k8s_dra_driver.Health.Events.{Advertised, device_health_event}
use k8s_dra_driver.Health.Events.Published.{
  is_well, device_health_event-Publishes, device_health_event-unwell,
}
use k8s_dra_driver.Devices.Allocatable.{AllocatableDevices, device_type}
use k8s_dra_driver.Examples.Data.{gpu_device, gpu_info}
use k8s_dra_driver.Vfio.{PciHost, busy, free, VfioPciManager, nvidia_driver, configure, unconfigure}
use k8s_dra_driver.Vfio.Binding.{IsPci, Changeable, unconfigure-configure, configure-Changeable}

-- A host with one GPU, which no process has open, and whose state is the name of its driver.
abbrev pci : PciHost String
pci = record {
  driver_of = λ a s. ok s;
  fuser = λ n s. busy ∷ free ∷ [];
  num_vfs = λ a s. ok 0;
  has_override = λ a s. true;
  has_driver = λ d s. true;
  has_unbind_lock = λ a s. false;
  reads_one = λ a s. false;
  write_override = λ a d s. (ok tt, s);
  write_bind = λ d a s. (ok tt, d);
  write_unbind = λ d a s. (ok tt, "");
  write_in_braces = λ a s. (ok tt, s);
  sleep = λ n s. (ok tt, s);
}

pci-IsPci : IsPci pci
pci-IsPci = record { bound = λ a d s s' e. ap (λ p. ok p.1) (sym e) }

abbrev manager : VfioPciManager
manager = record { driver = "vfio-pci"; nvidia_enabled = true }

abbrev vfio : VfioDeviceInfo
vfio = record {
  uuid = "u";
  device_id = "1";
  vendor_id = "2";
  index = 0;
  parent = some gpu_info;
  product_name = "A100";
  pcie_bus_id = "0000:01:00.0";
  numa_node = 0;
  iommu_group = 7;
  addressable_memory_bytes = 0;
}

unconfigure-configure_example :
    let s = (configure pci manager vfio nvidia_driver).1 in
    (pci.driver_of "0000:01:00.0" s ≡ ok "vfio-pci")
    × ((pci.driver_of "0000:01:00.0" (unconfigure pci manager vfio s).1 ≡ ok nvidia_driver)
        ⊎ (is_ok (unconfigure pci manager vfio s).0 ≡ false)
        ⊎ ((manager.nvidia_enabled ≡ false) × (unconfigure pci manager vfio s ≡ (ok tt, s))))
unfolding configure
unconfigure-configure_example = unconfigure-configure pci pci-IsPci manager vfio nvidia_driver refl

configure-Changeable_example :
    ((configure pci manager vfio nvidia_driver).1 ≡ nvidia_driver)
    ⊎ Changeable pci manager vfio nvidia_driver
configure-Changeable_example = configure-Changeable pci manager vfio nvidia_driver

abbrev gpus : AllocatableDevices
gpus = ("gpu-1", gpu_device) ∷ []

get-get_device_placement_map_example :
    get (get_device_placement_map gpus) "GPU-1" full_gpu_instance_id full_gpu_instance_id
    ≡ last_at "GPU-1" full_gpu_instance_id full_gpu_instance_id gpus none
get-get_device_placement_map_example =
    get-get_device_placement_map "GPU-1" full_gpu_instance_id full_gpu_instance_id gpus

abbrev monitor : HealthMonitor
monitor = new_nvml_device_health_monitor gpus "94"

abbrev channel : Channel
channel = record { queue = []; sending = some "gpu-1" }

channel-Reaches : Reaches monitor (registered_channel monitor (λ uuid. true)) channel
unfolding on_reply xids_to_skip register_events_for_devices get_device_placement_map delete
channel-Reaches = step stays (
    wait
      (event (record {
        is_critical = true;
        xid = 79;
        gi = full_gpu_instance_id;
        ci = full_gpu_instance_id;
        uuid = some "GPU-1";
      }))
      refl)

Reaches-Notices_example :
    (count channel.queue ≤ len gpus)
    × Each (HasPlacement gpus) channel.queue
    × ((dev : String) → channel.sending ≡ some dev → HasPlacement gpus dev)
Reaches-Notices_example = Reaches-Notices gpus "94" (λ uuid. true) channel channel-Reaches

abbrev advertised : Advertised
advertised = record { heap = gpus; allocatable = "gpu-1" ∷ []; published = [] }

device_health_event-Publishes_example :
    let p = device_health_event "gpu-1" advertised in
    (p.1.published ≡ [])
    ⊎ ((l : List String) × (p.1.published ≡ l ∷ [])
        × ((j : String) → contains j l ≡ (contains j p.1.allocatable && is_well p.1.heap j)))
device_health_event-Publishes_example = device_health_event-Publishes "gpu-1" advertised

device_health_event-unwell_example :
    is_well (device_health_event "gpu-1" advertised).1.heap "gpu-1" ≡ false
unfolding lookup device_type
device_health_event-unwell_example =
    device_health_event-unwell "gpu-1" gpu_device advertised refl refl
