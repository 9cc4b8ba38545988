-- ===== src/Health.antt =====
-- cmd/hami-kubelet-plugin/device_health.go: the health monitor of the GPUs. A pointer to a device is
-- the key under which the device stands in the map of allocatable devices at the start.
pub mod Placement
pub mod Xids
pub mod Monitor
pub mod Events
use k8s_dra_driver.Common.{
  ℕ, Bool, true, false, not, Option, none, some, List, [], ◌∷◌, String, ◌==◌, eqb, if◌then◌else◌,
  Map, lookup, insert, ◌≡◌, arith,
}
use k8s_dra_driver.Devices.{GpuInfo, MigDeviceInfo}
use k8s_dra_driver.Devices.Allocatable.{
  AllocatableDevice, AllocatableDevices, DeviceView, hami_gpu, gpu, mig_dynamic, mig_static, vfio,
  unknown, device_view,
}

abbrev pub full_gpu_instance_id : ℕ
full_gpu_instance_id = 0xFFFFFFFF

-- map[uint32]V
abbrev pub IdMap : Type 0 → Type 0
IdMap V = List (ℕ × V)

module _ {V : Type 0} where
  unfoldable pub find : ℕ → IdMap V → Option V
  find i [] = none
  find i ((j, v) ∷ m) = if eqb j i then some v else find i m

  unfoldable pub remove : ℕ → IdMap V → IdMap V
  remove i [] = []
  remove i ((j, v) ∷ m) = let rest = remove i m in if eqb j i then rest else (j, v) ∷ rest

  find-remove : (i k : ℕ) (m : IdMap V) → find k (remove i m) ≡ (if eqb i k then none else find k m)
  unfolding find remove
  find-remove i k [] = ground arith
  find-remove i k ((j, v) ∷ m) = ground (arith, find-remove i k m)

  -- m[i] = v
  unfoldable pub put : ℕ → V → IdMap V → IdMap V
  unfolding remove
  put i v m = (i, v) ∷ remove i m

  pub find-put :
      (i k : ℕ) (v : V) (m : IdMap V) → find k (put i v m) ≡ (if eqb i k then some v else find k m)
  unfolding find put
  find-put i k v m = ground (arith, find-remove i k m)

  -- m[i], with an empty map where there is none
  abbrev pub or_empty : Option (List V) → List V
  or_empty none = []
  or_empty (some m) = m

-- devicePlacementMap
abbrev pub DevicePlacementMap : Type 0
DevicePlacementMap = Map (IdMap (IdMap String))

-- (p devicePlacementMap) addDevice
unfoldable pub add_device : DevicePlacementMap → String → ℕ → ℕ → String → DevicePlacementMap
unfolding lookup insert find put
add_device p uuid gi ci d =
    let gis = or_empty (lookup uuid p) in
    insert uuid (put gi (put ci d (or_empty (find gi gis))) gis) p

abbrev pub get_ci : ℕ → Option (IdMap String) → Option String
get_ci ci none = none
get_ci ci (some m) = find ci m

abbrev pub get_gi : ℕ → ℕ → Option (IdMap (IdMap String)) → Option String
get_gi gi ci none = none
get_gi gi ci (some m) = get_ci ci (find gi m)

-- (p devicePlacementMap) get
unfoldable pub get : DevicePlacementMap → String → ℕ → ℕ → Option String
unfolding lookup find
get p uuid gi ci = get_gi gi ci (lookup uuid p)

-- The three parts of a placement; a device without a UUID has none.
abbrev pub at_uuid : String → ℕ → Option (String × ℕ × ℕ)
at_uuid uuid id = if uuid == "" then none else some (uuid, id, id)

-- The `switch d.Type()`; a static MIG device takes the id of its GPU instance twice.
abbrev pub view_placement : DeviceView → Option (String × ℕ × ℕ)
view_placement (gpu d) = at_uuid d.uuid full_gpu_instance_id
view_placement (mig_static d) = at_uuid (d.parent.uuid) d.gi_info_id
view_placement (hami_gpu d) = none
view_placement (mig_dynamic d) = none
view_placement (vfio d) = none
view_placement unknown = none

abbrev pub add_at : DevicePlacementMap → Option (String × ℕ × ℕ) → String → DevicePlacementMap
add_at p none name = p
add_at p (some (uuid, gi, ci)) name = add_device p uuid gi ci name

-- The loop of `getDevicePlacementMap`.
unfoldable pub add_devices : AllocatableDevices → DevicePlacementMap → DevicePlacementMap
unfolding add_device device_view
add_devices [] p = p
add_devices ((name, d) ∷ ds) p = add_devices ds (add_at p (view_placement (device_view d)) name)

unfoldable pub get_device_placement_map : AllocatableDevices → DevicePlacementMap
unfolding add_devices
get_device_placement_map devices = add_devices devices []
