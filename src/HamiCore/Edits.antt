-- ===== src/HamiCore/Edits.antt =====
-- `GetCDIContainerEdits` of hami_core.go: the cache directory of the claim, and the environment and
-- the mounts of its container.
pub mod Limits
pub mod Cache
pub mod Preparation
use k8s_dra_driver.Common.{
  ℕ, ◌+◌, ◌/◌, ℤ, quotient, format_int, itoa, Bool, true, false, Option, none, some, List, [], ◌∷◌,
  ◌++◌, String, ◌<>◌, ◌==◌, if◌then◌else◌, Map, lookup, insert, Outcome, ok, panic, and_then, Exec,
  ◌>>=◌, ◌>>◌, pure, lift,
}
use k8s_dra_driver.Kube.{Pod, Quantity, Allocation, AllocationResult, ResourceClaim}
use k8s_dra_driver.Devices.{HamiGpuInfo}
use k8s_dra_driver.Devices.Allocatable.{AllocatableDevice, AllocatableDevices}
use k8s_dra_driver.Devices.Prepared.{ContainerEdits, Mount}
use k8s_dra_driver.HamiCore.Pods.{PodSource, resolve_claim_to_pod}
use k8s_dra_driver.HamiCore.Labels.{ensure_pod_monitor_label}
use k8s_dra_driver.HamiCore.Disk.{Disk, remove_all, mkdir_all, chmod, write_file}

abbrev pub hami_core_claim_marker_prefix : String
hami_core_claim_marker_prefix = ".claim-"

abbrev hook_path : String
hook_path = "/usr/local"

-- filepath.Join of a clean path and a name
abbrev join : String → String → String
join path name = if path == "/" then "/" <> name else path <> "/" <> name

-- maps.Copy(dst, src)
unfoldable pub copy_map : {V : Type 0} → Map V → Map V → Map V
unfolding insert
copy_map [] dst = dst
copy_map ((k, v) ∷ src) dst = copy_map src (insert k v dst)

abbrev pub capacity_of : Option (Map Quantity) → Map Quantity
capacity_of none = []
capacity_of (some c) = c

abbrev pub capacity_at : String → Map (Map Quantity) → Map Quantity
capacity_at device m = capacity_of (lookup device m)

-- The loop of `getConsumableCapacityMap`.
unfoldable pub capacities : List AllocationResult → Map (Map Quantity) → Map (Map Quantity)
unfolding copy_map lookup insert
capacities [] m = m
capacities (r ∷ rs) m =
    capacities rs (insert r.device (copy_map r.consumed_capacity (capacity_at r.device m)) m)

abbrev pub capacity_outcome : Option Allocation → Outcome (Map (Map Quantity))
capacity_outcome none = panic
capacity_outcome (some a) = ok (capacities a.results [])

-- (m *HAMiCoreManager) getConsumableCapacityMap; a nil allocation is a panic.
unfoldable pub get_consumable_capacity_map : ResourceClaim → Outcome (Map (Map Quantity))
unfolding capacities
get_consumable_capacity_map claim = capacity_outcome claim.status.allocation

-- The number of a capacity, where it is there and fits an int64.
abbrev pub amount : String → String → Map (Map Quantity) → Option ℤ
amount device name m = elim (lookup name (capacity_at device m)) [
  | none ↦ none
  | some q ↦ q.as_int64
]

abbrev sm_limit : Option ℤ → String
sm_limit none = "60"
sm_limit (some v) = format_int v

abbrev memory_limit : ℕ → Option ℤ → String
memory_limit bytes none = itoa (bytes / 1024 / 1024) <> "m"
memory_limit bytes (some v) = format_int (quotient (quotient v 1024) 1024) <> "m"

-- The two variables of one device; the device must be a HAMi-Core GPU.
unfoldable pub device_env : Map (Map Quantity) → ℕ → String → HamiGpuInfo → List String
unfolding lookup
device_env caps idx name d =
    ("CUDA_DEVICE_SM_LIMIT_" <> itoa idx <> "=" <> sm_limit (amount name "cores" caps))
    ∷ ("CUDA_DEVICE_MEMORY_LIMIT_"
        <> itoa idx
        <> "="
        <> memory_limit d.memory_bytes (amount name "memory" caps))
    ∷ []

abbrev hami_env :
    Map (Map Quantity)
    → ℕ
    → String
    → Option HamiGpuInfo
    → Outcome (List String)
    → Outcome (List String)
hami_env caps idx name none rest = panic
hami_env caps idx name (some d) rest = and_then rest (λ env. ok (device_env caps idx name d ++ env))

-- The loop over the devices.
unfoldable pub devices_env : Map (Map Quantity) → ℕ → AllocatableDevices → Outcome (List String)
unfolding device_env
devices_env caps idx [] = ok []
devices_env caps idx ((name, d) ∷ ds) =
    let rest = devices_env caps (idx + 1) ds in hami_env caps idx name d.hami_gpu rest

-- The state that the manager acts on: that of the client, and the disk.
pub record HamiNode (A : Type 0) : Type 0 where
  pub client_state : A
  pub disk : Disk

abbrev pub on_client : {A B : Type 0} → Exec A B → Exec (HamiNode A) B
on_client m s = let (r, a) = m s.client_state in (r, record s { client_state = a })

abbrev pub on_disk : {A B : Type 0} → Exec Disk B → Exec (HamiNode A) B
on_disk m s = let (r, d) = m s.disk in (r, record s { disk = d })

-- podUID_containerName, the name of the directory under vgpu/containers
abbrev pub cache_name : Pod × String → String
cache_name (pod, container) = pod.uid <> "_" <> container

-- The calls on the disk, up to the marker.
unfoldable pub make_cache : String → String → Exec Disk (Unit {0})
unfolding remove_all mkdir_all chmod write_file
make_cache name uid =
    remove_all name
    >> mkdir_all name
    >> chmod name
    >> write_file name (hami_core_claim_marker_prefix <> uid)

abbrev mount : String → String → String → Mount
mount container host mode = record {
  container_path = container;
  host_path = host;
  options = mode ∷ "nosuid" ∷ "nodev" ∷ "bind" ∷ [];
}

abbrev pub container_edits : String → String → String → List String → ContainerEdits
container_edits host_hook name uid env =
    let vgpu = join host_hook "vgpu" in
    let directory = hook_path <> "/vgpu/containers/" <> name in
    record {
      env = ("CUDA_DEVICE_MEMORY_SHARED_CACHE=" <> directory <> "/" <> uid <> ".cache") ∷ env;
      mounts =
          mount directory (vgpu <> "/containers/" <> name) "rw"
          ∷ mount (hook_path <> "/vgpu/libvgpu.so") (vgpu <> "/libvgpu.so") "ro"
          ∷ mount "/etc/ld.so.preload" (vgpu <> "/ld.so.preload") "ro"
          ∷ mount "/tmp/vgpulock" "/tmp/vgpulock" "rw"
          ∷ [];
    }

module _ {A : Type 0} (source : PodSource A) (node : String) (host_hook_path : String) where
  -- The environment and the mounts.
  abbrev pub env_steps :
      ResourceClaim → AllocatableDevices → Pod × String → Exec (HamiNode A) (Option ContainerEdits)
  env_steps claim devices target = lift (get_consumable_capacity_map claim) >>= λ caps.
      lift (devices_env caps 0 devices) >>= λ env.
      pure (some (container_edits host_hook_path (cache_name target) claim.uid env))

  -- The steps behind the resolution of the pod.
  unfoldable pub edits_for :
      ResourceClaim → AllocatableDevices → Pod × String → Exec (HamiNode A) (Option ContainerEdits)
  unfolding ensure_pod_monitor_label make_cache get_consumable_capacity_map devices_env
  edits_for claim devices target =
      on_client (ensure_pod_monitor_label source node target.0)
      >> on_disk (make_cache (cache_name target) claim.uid)
      >> env_steps claim devices target

  -- (m *HAMiCoreManager) GetCDIContainerEdits
  unfoldable pub get_cdi_container_edits :
      ResourceClaim → AllocatableDevices → Exec (HamiNode A) (Option ContainerEdits)
  unfolding resolve_claim_to_pod edits_for
  get_cdi_container_edits claim devices =
      on_client (resolve_claim_to_pod source node claim) >>= λ target.
      edits_for claim devices target
