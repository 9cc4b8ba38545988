-- ===== src/Examples/Data.antt =====
-- Test data: a node with one GPU, two claims, and checkpoints.
use k8s_dra_driver.Common.{ℕ, false, none, some, [], ◌∷◌}
use k8s_dra_driver.Kube.{AllocationResult, KubeletDevice, ClaimStatus, ResourceClaim, ClaimRef}
use k8s_dra_driver.FeatureGates.{Gates, default_feature_gates}
use k8s_dra_driver.Devices.{GpuInfo, healthy, driver_name}
use k8s_dra_driver.Devices.Allocatable.{AllocatableDevice}
use k8s_dra_driver.Devices.Prepared.{PreparedDevices, PreparedDeviceGroup}
use k8s_dra_driver.Checkpoint.{
  Checkpoint, CheckpointV1, CheckpointV2, PreparedClaim, prepare_started, prepare_completed,
}
use k8s_dra_driver.State.{DeviceState}

abbrev pub gpu_info : GpuInfo
gpu_info = record {
  uuid = "GPU-1";
  minor = 1;
  mig_enabled = false;
  vfio_enabled = false;
  memory_bytes = 1000;
  product_name = "A100";
  brand = "NVIDIA";
  architecture = "Ampere";
  cuda_compute_capability = "8.0";
  driver_version = "580";
  cuda_driver_version = "13";
  max_capacities = [];
  mem_slice_count = 0;
  pcie_bus_id = "0000:01:00.0";
  pcie_root_attr = none;
  addressing_mode = none;
  health = healthy;
}

abbrev pub gpu_device : AllocatableDevice
gpu_device = record {
  hami_gpu = none;
  gpu = some gpu_info;
  mig_dynamic = none;
  mig_static = none;
  vfio = none;
}

abbrev pub result : AllocationResult
result = record {
  request = "gpu";
  driver = driver_name;
  pool = "node1";
  device = "gpu-1";
  admin_access = none;
  consumed_capacity = [];
}

abbrev pub status : ClaimStatus
status = record {
  allocation = some (record { results = result ∷ []; config = [] });
  reserved_for = [];
}

abbrev pub claim : ResourceClaim
claim = record { uid = "u1"; name = "c1"; namespace = "ns"; status = status }

abbrev pub ref : ClaimRef
ref = record { uid = "u1"; name = "c1"; namespace = "ns" }

-- HAMiCoreSupport is off.
abbrev pub gates : Gates
gates = record default_feature_gates { hami_core_support = false }

abbrev pub started_entry : PreparedClaim
started_entry = record {
  checkpoint_state = prepare_started;
  status = status;
  prepared_devices = [];
  name = "c2";
  namespace = "ns";
}

abbrev pub done_entry : PreparedClaim
done_entry = record {
  checkpoint_state = prepare_completed;
  status = record { allocation = some (record { results = []; config = [] }); reserved_for = [] };
  prepared_devices = [];
  name = "";
  namespace = "";
}

abbrev pub v2 : CheckpointV2
v2 = record {
  checksum = 7;
  prepared_claims = some (("u3", done_entry) ∷ ("u2", started_entry) ∷ []);
  node_boot_id = "boot-1";
}

abbrev pub checkpoint : Checkpoint
checkpoint = record { checksum = 7; v1 = none; v2 = some v2 }

abbrev pub v1 : CheckpointV1
v1 = record {
  prepared_claims = some (("u3", record { status = status; prepared_devices = [] }) ∷ []);
}

abbrev pub start : DeviceState Checkpoint ℕ
start = record { allocatable = ("gpu-1", gpu_device) ∷ []; store = checkpoint; host = 0 }

-- A checkpoint of this boot without claims.
abbrev pub empty_start : DeviceState Checkpoint ℕ
empty_start = record start {
  store = record checkpoint {
    v2 = some (record { checksum = 7; prepared_claims = none; node_boot_id = "boot-1" });
  };
}

abbrev pub second_claim : ResourceClaim
second_claim = record claim { uid = "u2"; name = "c2" }

abbrev pub prepared_device : KubeletDevice
prepared_device = record {
  requests = "gpu" ∷ [];
  pool_name = "node1";
  device_name = "gpu-1";
  cdi_device_ids = "k8s.hami-core-gpu.project-hami.io/claim=u1-gpu-1" ∷ [];
}

-- One group with the GPU.
abbrev pub some_devices : PreparedDevices
some_devices =
    record {
      devices =
          record {
            hami_gpu = none;
            gpu = some (record { info = gpu_info; device = prepared_device });
            mig = none;
            vfio = none;
          }
          ∷ [];
      config_state = record { mps_control_daemon_id = ""; container_edits = none };
    }
    ∷ []

-- A group with a HAMi-Core GPU.
abbrev pub hami_group : PreparedDeviceGroup
hami_group = record {
  devices =
      record {
        hami_gpu =
            some (record { info = record { gpu_info = gpu_info }; device = prepared_device });
        gpu = none;
        mig = none;
        vfio = none;
      }
      ∷ [];
  config_state = record { mps_control_daemon_id = ""; container_edits = none };
}
