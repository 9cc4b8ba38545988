-- ===== src/Checkpoint/Persist.antt =====
-- What of a checkpoint stands in its JSON text, by the `json` tags of the types: the fields that are
-- not exported are lost, and a map or text that is empty is left out and read back as nil or empty.
use k8s_dra_driver.Common.{false, Option, none, some, [], ◌∷◌, Map, map_values}
use k8s_dra_driver.Devices.{unset as unset_health, GpuInfo, VfioDeviceInfo}
use k8s_dra_driver.Devices.Prepared.{
  PreparedDevice, PreparedHamiGpu, PreparedGpu, PreparedVfioDevice, DeviceConfigState,
  PreparedDevices, PreparedDeviceList,
}
use k8s_dra_driver.Checkpoint.{
  Checkpoint, CheckpointV1, CheckpointV2, PreparedClaim, PreparedClaimV1,
}

-- Only `UUID` of a GpuInfo is exported.
unfoldable pub persist_gpu_info : GpuInfo → GpuInfo
persist_gpu_info g = record {
  uuid = g.uuid;
  minor = 0;
  mig_enabled = false;
  vfio_enabled = false;
  memory_bytes = 0;
  product_name = "";
  brand = "";
  architecture = "";
  cuda_compute_capability = "";
  driver_version = "";
  cuda_driver_version = "";
  max_capacities = [];
  mem_slice_count = 0;
  pcie_bus_id = "";
  pcie_root_attr = none;
  addressing_mode = none;
  health = unset_health;
}

-- Only `UUID` of a VfioDeviceInfo is exported.
unfoldable pub persist_vfio_info : VfioDeviceInfo → VfioDeviceInfo
persist_vfio_info d = record {
  uuid = d.uuid;
  device_id = "";
  vendor_id = "";
  index = 0;
  parent = none;
  product_name = "";
  pcie_bus_id = "";
  numa_node = 0;
  iommu_group = 0;
  addressable_memory_bytes = 0;
}

abbrev pub on_pointer {ℓ} : {A : Type ℓ} → (A → A) → Option A → Option A
on_pointer f none = none
on_pointer f (some a) = some (f a)

abbrev pub persist_hami : PreparedHamiGpu → PreparedHamiGpu
persist_hami d = record d { info = record { gpu_info = persist_gpu_info d.info.gpu_info } }

abbrev pub persist_gpu : PreparedGpu → PreparedGpu
persist_gpu d = record d { info = persist_gpu_info d.info }

abbrev pub persist_vfio : PreparedVfioDevice → PreparedVfioDevice
persist_vfio d = record d { info = persist_vfio_info d.info }

-- All fields of a MigLiveTuple and of a kubelet device are exported.
unfoldable pub persist_device : PreparedDevice → PreparedDevice
unfolding persist_gpu_info persist_vfio_info
persist_device d = record {
  hami_gpu = on_pointer persist_hami d.hami_gpu;
  gpu = on_pointer persist_gpu d.gpu;
  mig = d.mig;
  vfio = on_pointer persist_vfio d.vfio;
}

-- `containerEdits` is not exported.
abbrev persist_config_state : DeviceConfigState → DeviceConfigState
persist_config_state c = record c { container_edits = none }

unfoldable pub persist_list : PreparedDeviceList → PreparedDeviceList
unfolding persist_device
persist_list [] = []
persist_list (d ∷ ds) = persist_device d ∷ persist_list ds

unfoldable pub persist_groups : PreparedDevices → PreparedDevices
unfolding persist_list
persist_groups [] = []
persist_groups (g ∷ gs) =
    record { devices = persist_list g.devices; config_state = persist_config_state g.config_state }
    ∷ persist_groups gs

unfoldable pub persist_claim : PreparedClaim → PreparedClaim
unfolding persist_groups
persist_claim c = record c { prepared_devices = persist_groups c.prepared_devices }

unfoldable pub persist_claim_v1 : PreparedClaimV1 → PreparedClaimV1
unfolding persist_groups
persist_claim_v1 c = record c { prepared_devices = persist_groups c.prepared_devices }

-- `omitempty` on a map
abbrev pub persist_map {ℓ} : {V : Type ℓ} → (V → V) → Option (Map V) → Option (Map V)
persist_map f none = none
persist_map f (some []) = none
persist_map f (some (e ∷ m)) = some (map_values f (e ∷ m))

unfoldable pub persist_v2 : CheckpointV2 → CheckpointV2
unfolding persist_claim
persist_v2 v2 = record v2 { prepared_claims = persist_map persist_claim v2.prepared_claims }

unfoldable pub persist_v1 : CheckpointV1 → CheckpointV1
unfolding persist_claim_v1
persist_v1 v1 = record { prepared_claims = persist_map persist_claim_v1 v1.prepared_claims }

-- The value that is read back after a checkpoint was written.
unfoldable pub persist : Checkpoint → Checkpoint
unfolding persist_v2 persist_v1
persist cp = record {
  checksum = cp.checksum;
  v1 = on_pointer persist_v1 cp.v1;
  v2 = on_pointer persist_v2 cp.v2;
}
