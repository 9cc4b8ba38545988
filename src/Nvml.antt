-- ===== src/Nvml.antt =====
-- cmd/hami-kubelet-plugin/nvlib.go: the creation, the search and the removal of MIG devices. NVML is
-- a parameter; a handle is named by the ids that it was looked up with.
pub mod Removal
pub mod Search
use k8s_dra_driver.Common.{
  ℕ, zero, suc, ◌+◌, ◌-◌, Bool, true, false, not, ◌&&◌, Option, none, some, List, [], ◌∷◌, String,
  eqb, if◌then◌else◌, contains, Map, lookup, Outcome, ok, err, panic, Fault, failure, and_then,
  Exec, ◌>>=◌, ◌>>◌, pure, raise, lift, asks, modify,
}
use k8s_dra_driver.Devices.{
  GpuInfo, MigSpec, MigSpecTuple, MigLiveTuple, MigDeviceInfo, ProfileInfo, Placement, unset,
}

-- What a look-up by id gives.
pub data Handle : Type 0 where
  found not_found not_supported refused : Handle

-- GpuInstanceInfo, as far as it is used
pub record GpuInstanceInfo : Type 0 where
  pub id : ℕ
  pub profile_id : ℕ
  pub placement_start : ℕ

-- What GetMigDeviceHandleByIndex gives: a handle, NOT_FOUND or INVALID_ARGUMENT, or another error.
pub data Slot : Type 0 where
  present empty broken : Slot

-- The calls of NVML on a GPU, named by its UUID. `mig_info` is what the callback of `getMigDevices`
-- reads of one MIG device.
pub record Nvml (A : Type 0) : Type 0 where
  pub handle_by_uuid : String → Exec A (Unit {0})
  pub is_mig_enabled : String → A → Outcome Bool
  pub set_mig_mode : String → Bool → Exec A (Unit {0})
  pub gi_profile_info : String → String → A → Outcome ProfileInfo
  pub create_gi : String → ProfileInfo → Placement → Exec A ℕ
  pub gi_by_id : String → ℕ → A → Handle
  pub gi_info : String → ℕ → A → Outcome GpuInstanceInfo
  pub ci_profile_info : String → ℕ → String → A → Outcome (Unit {0})
  pub create_ci : String → ℕ → Exec A ℕ
  pub ci_by_id : String → ℕ → ℕ → A → Handle
  pub ci_uuid : String → ℕ → ℕ → A → Outcome String
  pub destroy_ci : String → ℕ → ℕ → Exec A (Unit {0})
  pub destroy_gi : String → ℕ → Exec A (Unit {0})
  pub max_mig_device_count : String → A → Outcome ℕ
  pub slot : String → ℕ → A → Slot
  pub slot_gi_id : String → ℕ → A → Outcome ℕ
  pub slot_ci_id : String → ℕ → A → Option ℕ
  pub slot_uuid : String → ℕ → A → Option String
  pub mig_info : GpuInfo → ℕ → A → Outcome MigDeviceInfo

-- The fields of deviceLib that are read: the GPUs as they were found at the start.
pub record DeviceLib : Type 0 where
  pub dynamic_mig : Bool
  pub gpu_infos_by_uuid : Map GpuInfo
  pub gpu_uuid_by_minor : ℕ → String

-- `devhandle_by_uuid` is the cache of handles.
pub record NvmlState (A : Type 0) : Type 0 where
  pub devhandle_by_uuid : List String
  pub nvml : A

module _ {A : Type 0} where
  abbrev pub on_nvml : {B : Type 0} → Exec A B → Exec (NvmlState A) B
  on_nvml m s = let (r, a) = m s.nvml in (r, record s { nvml = a })

  abbrev pub reads : {B : Type 0} → (A → Outcome B) → Exec (NvmlState A) B
  reads f s = (f s.nvml, s)

module _ {A : Type 0} (api : Nvml A) (l : DeviceLib) where
  abbrev pub remember : String → Exec (NvmlState A) (Unit {0})
  remember uuid = modify (λ s. record s { devhandle_by_uuid = uuid ∷ s.devhandle_by_uuid })

  -- (l deviceLib) DeviceGetHandleByUUID
  unfoldable pub device_get_handle_by_uuid : String → Exec (NvmlState A) (Unit {0})
  unfolding contains
  device_get_handle_by_uuid uuid s =
      if not l.dynamic_mig
      then on_nvml (api.handle_by_uuid uuid) s
      else if contains uuid s.devhandle_by_uuid
      then (ok tt, s)
      else (on_nvml (api.handle_by_uuid uuid) >> remember uuid) s

  abbrev pub created : MigSpec → ProfileInfo → ℕ → GpuInstanceInfo → String → MigDeviceInfo
  created spec profile ci info uuid = record {
    uuid = uuid;
    profile = spec.profile;
    parent_uuid = spec.parent.uuid;
    gi_profile_id = profile.id;
    parent_minor = spec.parent.minor;
    ci_id = ci;
    gi_id = info.id;
    placement_start = spec.placement.start;
    placement_size = spec.placement.size;
    gi_info_id = info.id;
    parent = spec.parent;
    pcie_bus_id = "";
    health = unset;
  }

  abbrev pub enable_mig_mode : String → Bool → Exec (NvmlState A) (Unit {0})
  enable_mig_mode gpu true = pure tt
  enable_mig_mode gpu false = on_nvml (api.set_mig_mode gpu true)

  -- (l deviceLib) createMigDevice
  unfoldable pub create_mig_device : MigSpec → Exec (NvmlState A) MigDeviceInfo
  unfolding device_get_handle_by_uuid
  create_mig_device spec =
      let gpu = spec.parent.uuid in
      device_get_handle_by_uuid gpu >> reads (api.is_mig_enabled gpu) >>= λ on.
      enable_mig_mode gpu on >> reads (api.gi_profile_info gpu spec.profile) >>= λ profile.
      on_nvml (api.create_gi gpu profile spec.placement) >>= λ gi.
      reads (api.gi_info gpu gi) >>= λ info.
      reads (api.ci_profile_info gpu gi spec.profile) >> on_nvml (api.create_ci gpu gi) >>= λ ci.
      reads (api.ci_uuid gpu gi ci) >>= λ uuid. pure (created spec profile ci info uuid)

  -- The loop of `walkMigDevices` with the callback of `getMigDevices`: `n` slots are left from `i` on.
  unfoldable pub walk_mig_devices : GpuInfo → ℕ → ℕ → A → Outcome (List MigDeviceInfo)
  walk_mig_devices gpu zero i a = ok []
  walk_mig_devices gpu (suc n) i a =
      let rest = walk_mig_devices gpu n (i + 1) a in
      elim (api.slot gpu.uuid i a) [
        | empty ↦ rest
        | broken ↦ err (failure "error getting MIG device handle")
        | present ↦ and_then (api.mig_info gpu i a) (λ d. and_then rest (λ ds. ok (d ∷ ds)))
      ]

  abbrev pub walk : GpuInfo → A → Outcome (List MigDeviceInfo)
  walk gpu a = and_then (api.max_mig_device_count gpu.uuid a) (λ n. walk_mig_devices gpu n 0 a)

  -- (l deviceLib) getMigDevices; MIG mode is what it was when the GPU was found.
  unfoldable pub get_mig_devices : GpuInfo → Exec (NvmlState A) (List MigDeviceInfo)
  unfolding device_get_handle_by_uuid walk_mig_devices
  get_mig_devices gpu =
      if not gpu.mig_enabled
      then pure []
      else (device_get_handle_by_uuid gpu.uuid >> reads (walk gpu))

  abbrev pub disable_mig_mode : String → List MigDeviceInfo → Exec (NvmlState A) (Unit {0})
  disable_mig_mode uuid [] = on_nvml (api.set_mig_mode uuid false)
  disable_mig_mode uuid (d ∷ ds) = pure tt

  abbrev pub maybe_disable_of : String → Option GpuInfo → Exec (NvmlState A) (Unit {0})
  maybe_disable_of uuid none = raise "uuid not in gpuInfosByUUID"
  maybe_disable_of uuid (some gpu) = get_mig_devices gpu >>= λ migs. disable_mig_mode uuid migs

  -- (l deviceLib) maybeDisableMigMode
  unfoldable pub maybe_disable_mig_mode : String → Exec (NvmlState A) (Unit {0})
  unfolding get_mig_devices lookup
  maybe_disable_mig_mode uuid = maybe_disable_of uuid (lookup uuid l.gpu_infos_by_uuid)

  -- The compute instance goes before the GPU instance.
  abbrev pub delete_ci : MigLiveTuple → Handle → Exec (NvmlState A) (Unit {0})
  delete_ci t found = on_nvml (api.destroy_ci t.parent_uuid t.gi_id t.ci_id)
  delete_ci t not_found = pure tt
  delete_ci t not_supported = raise "error getting Compute instance handle"
  delete_ci t refused = raise "error getting Compute instance handle"

  abbrev pub delete_gi : MigLiveTuple → Handle → Exec (NvmlState A) (Unit {0})
  delete_gi t not_supported = pure tt
  delete_gi t refused = raise "error getting GPU instance handle for MIG device"
  delete_gi t not_found = maybe_disable_mig_mode t.parent_uuid
  delete_gi t found =
      (λ s. delete_ci t (api.ci_by_id t.parent_uuid t.gi_id t.ci_id s.nvml) s)
      >> on_nvml (api.destroy_gi t.parent_uuid t.gi_id)
      >> maybe_disable_mig_mode t.parent_uuid

  -- (l deviceLib) deleteMigDevice
  unfoldable pub delete_mig_device : MigLiveTuple → Exec (NvmlState A) (Unit {0})
  unfolding device_get_handle_by_uuid maybe_disable_mig_mode
  delete_mig_device t =
      device_get_handle_by_uuid t.parent_uuid
      >> (λ s. delete_gi t (api.gi_by_id t.parent_uuid t.gi_id s.nvml) s)

  abbrev pub or_zero : Option ℕ → ℕ
  or_zero none = 0
  or_zero (some n) = n

  abbrev pub or_blank : Option String → String
  or_blank none = ""
  or_blank (some s) = s

  abbrev pub live_tuple_at : MigSpecTuple → String → ℕ → ℕ → A → MigLiveTuple
  live_tuple_at ms parent i gi a = record {
    parent_minor = ms.parent_minor;
    gi_id = gi;
    ci_id = or_zero (api.slot_ci_id parent i a);
    mig_uuid = or_blank (api.slot_uuid parent i a);
    parent_uuid = parent;
  }

  abbrev pub matches : MigSpecTuple → GpuInstanceInfo → Bool
  matches ms info = eqb info.profile_id ms.profile_id && eqb info.placement_start ms.placement_start

  -- What a slot shows: the ids of its GPU instance, once the handle and the information are there.
  abbrev pub inspect_slot : String → ℕ → A → Outcome (ℕ × GpuInstanceInfo)
  inspect_slot parent i a =
      and_then (api.slot_gi_id parent i a)
        (λ gi. and_then (api.gi_info parent gi a) (λ info. ok (gi, info)))

  -- The loop of `FindMigDevBySpec`: `n` slots are left from `i` on.
  unfoldable pub search_slots : MigSpecTuple → String → ℕ → ℕ → A → Outcome (Option MigLiveTuple)
  search_slots ms parent zero i a = ok none
  search_slots ms parent (suc n) i a =
      let rest = search_slots ms parent n (i + 1) a in
      elim (api.slot parent i a) [
        | present ↦ and_then (inspect_slot parent i a) (λ (gi, info).
            if matches ms info then ok (some (live_tuple_at ms parent i gi a)) else rest)
        | empty ↦ rest
        | broken ↦ rest
      ]

  -- A count that NVML does not give reads as 0.
  abbrev pub count_of : Outcome ℕ → ℕ
  count_of (ok n) = n
  count_of (err e) = 0
  count_of panic = 0

  -- (l deviceLib) FindMigDevBySpec
  unfoldable pub find_mig_dev_by_spec : MigSpecTuple → Exec (NvmlState A) (Option MigLiveTuple)
  unfolding device_get_handle_by_uuid search_slots
  find_mig_dev_by_spec ms =
      let parent = l.gpu_uuid_by_minor ms.parent_minor in
      device_get_handle_by_uuid parent
      >> reads (λ a. search_slots ms parent (count_of (api.max_mig_device_count parent a)) 0 a)
