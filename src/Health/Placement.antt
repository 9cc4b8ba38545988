-- ===== src/Health/Placement.antt =====
-- The placement map against a description of it by the placement of each device.
use k8s_dra_driver.Common.{
  ℕ, Bool, true, false, not, Bool-cases, inl, inr, sym, ◌&&◌, Option, none, some, [], ◌∷◌, String,
  ◌==◌, eq_iff, eqb, if◌then◌else◌, lookup, lookup-insert, ◌≡◌, refl, ap, ◌∙◌, arith,
}
use k8s_dra_driver.Devices.Allocatable.{
  AllocatableDevices, DeviceView, hami_gpu, gpu, mig_dynamic, mig_static, vfio, unknown,
  device_view,
}
use k8s_dra_driver.Health.{
  IdMap, find, put, find-put, or_empty, DevicePlacementMap, add_device, get_ci, get_gi, get,
  full_gpu_instance_id, at_uuid, view_placement, add_at, add_devices, get_device_placement_map,
}

abbrev pub same_place : String → ℕ → ℕ → Option (String × ℕ × ℕ) → Bool
same_place uuid gi ci none = false
same_place uuid gi ci (some (u, g, c)) = u == uuid && (eqb g gi && eqb c ci)

-- Which devices stand at a placement: a full GPU at its own UUID with the id of a full GPU twice, and a
-- static MIG device at the UUID of its parent with the id of its GPU instance twice; where these UUIDs
-- are not empty. A device of another type stands nowhere.
abbrev pub view_stands_at : String → ℕ → ℕ → DeviceView → Bool
view_stands_at uuid gi ci (gpu d) =
    not (uuid == "") && (d.uuid == uuid && (eqb 0xFFFFFFFF gi && eqb 0xFFFFFFFF ci))
view_stands_at uuid gi ci (mig_static d) =
    not (uuid == "") && (d.parent.uuid == uuid && (eqb d.gi_info_id gi && eqb d.gi_info_id ci))
view_stands_at uuid gi ci (hami_gpu d) = false
view_stands_at uuid gi ci (mig_dynamic d) = false
view_stands_at uuid gi ci (vfio d) = false
view_stands_at uuid gi ci unknown = false

-- The device that is met last at a placement, or the one that was there.
unfoldable pub last_at : String → ℕ → ℕ → AllocatableDevices → Option String → Option String
last_at uuid gi ci [] o = o
last_at uuid gi ci ((name, d) ∷ ds) o =
    last_at uuid gi ci ds (if view_stands_at uuid gi ci (device_view d) then some name else o)

same_place-at_uuid :
    (uuid u : String) (gi ci id : ℕ)
    → same_place uuid gi ci (at_uuid u id)
      ≡ (not (uuid == "") && (u == uuid && (eqb id gi && eqb id ci)))
same_place-at_uuid uuid u gi ci id = elim (Bool-cases (u == uuid)) [
  | inl e ↦ same_uuid (u == "") refl e
  | inr e ↦ other_uuid (u == "") (uuid == "") refl e
]
  where
    same_uuid :
        (b : Bool)
        → (u == "") ≡ b
        → (u == uuid) ≡ true
        → same_place uuid gi ci (if b then none else some (u, id, id))
          ≡ (not (uuid == "") && (u == uuid && (eqb id gi && eqb id ci)))
    same_uuid true e f = rw (sym (ap (λ v. v == "") ((eq_iff u uuid).0 f)) ∙ e) refl
    same_uuid false e f = rw (sym (ap (λ v. v == "") ((eq_iff u uuid).0 f)) ∙ e) refl

    other_uuid :
        (b c : Bool)
        → (uuid == "") ≡ c
        → (u == uuid) ≡ false
        → same_place uuid gi ci (if b then none else some (u, id, id))
          ≡ (not c && (u == uuid && (eqb id gi && eqb id ci)))
    other_uuid true true e f = refl
    other_uuid true false e f = rw f refl
    other_uuid false true e f = rw f refl
    other_uuid false false e f = rw f refl

same_place-view :
    (uuid : String) (gi ci : ℕ) (v : DeviceView)
    → same_place uuid gi ci (view_placement v) ≡ view_stands_at uuid gi ci v
same_place-view uuid gi ci (gpu d) = same_place-at_uuid uuid d.uuid gi ci full_gpu_instance_id
same_place-view uuid gi ci (mig_static d) = same_place-at_uuid uuid d.parent.uuid gi ci d.gi_info_id
same_place-view uuid gi ci (hami_gpu d) = refl
same_place-view uuid gi ci (mig_dynamic d) = refl
same_place-view uuid gi ci (vfio d) = refl
same_place-view uuid gi ci unknown = refl

get_ci-or_empty : (ci : ℕ) (o : Option (IdMap String)) → find ci (or_empty o) ≡ get_ci ci o
unfolding find
get_ci-or_empty ci none = refl
get_ci-or_empty ci (some m) = refl

get_gi-or_empty :
    (gi ci : ℕ) (o : Option (IdMap (IdMap String)))
    → get_ci ci (find gi (or_empty o)) ≡ get_gi gi ci o
unfolding find
get_gi-or_empty gi ci none = refl
get_gi-or_empty gi ci (some m) = refl

same_id : (a b : ℕ) → eqb a b ≡ true → a ≡ b
same_id a b e = ground arith

module _ (p : DevicePlacementMap) (u uuid : String) (g gi c ci : ℕ) (name : String) where
  -- What stands at the instances, once the UUID is known to be the same.
  added :
      (b b' : Bool)
      → u ≡ uuid
      → eqb g gi ≡ b
      → eqb c ci ≡ b'
      → get_ci ci (
          if b
          then some (put c name (or_empty (find g (or_empty (lookup u p)))))
          else find gi (or_empty (lookup u p)))
        ≡ (if b && b' then some name else get_gi gi ci (lookup uuid p))
  unfolding find
  added false b' e f h = get_gi-or_empty gi ci (lookup u p) ∙ ap (λ u. get_gi gi ci (lookup u p)) e
  added true true e f h =
      find-put c ci name (or_empty (find g (or_empty (lookup u p))))
      ∙ ap (λ b. if b then some name else find ci (or_empty (find g (or_empty (lookup u p))))) h
  added true false e f h =
      find-put c ci name (or_empty (find g (or_empty (lookup u p))))
      ∙ ap (λ b. if b then some name else find ci (or_empty (find g (or_empty (lookup u p))))) h
      ∙ get_ci-or_empty ci (find g (or_empty (lookup u p)))
      ∙ ap (λ g. get_ci ci (find g (or_empty (lookup u p)))) (same_id g gi f)
      ∙ get_gi-or_empty gi ci (lookup u p)
      ∙ ap (λ u. get_gi gi ci (lookup u p)) e

  added_at :
      (b : Bool)
      → (u == uuid) ≡ b
      → get_gi gi ci (
          if b
          then some (
              put g
                (put c name (or_empty (find g (or_empty (lookup u p)))))
                (or_empty (lookup u p)))
          else lookup uuid p)
        ≡ (if b && (eqb g gi && eqb c ci) then some name else get_gi gi ci (lookup uuid p))
  unfolding find
  added_at true e =
      ap (get_ci ci) (find-put g gi _ (or_empty (lookup u p)))
      ∙ added (eqb g gi) (eqb c ci) ((eq_iff u uuid).0 e) refl refl
  added_at false e = refl

  get-add_device :
      get (add_device p u g c name) uuid gi ci
      ≡ (if u == uuid && (eqb g gi && eqb c ci) then some name else get p uuid gi ci)
  unfolding get add_device
  get-add_device = ap (get_gi gi ci) (lookup-insert u uuid _ p) ∙ added_at (u == uuid) refl

get-add_at :
    (p : DevicePlacementMap) (o : Option (String × ℕ × ℕ)) (name uuid : String) (gi ci : ℕ)
    → get (add_at p o name) uuid gi ci
      ≡ (if same_place uuid gi ci o then some name else get p uuid gi ci)
get-add_at p none name uuid gi ci = refl
get-add_at p (some (u, g, c)) name uuid gi ci = get-add_device p u uuid g gi c ci name

get-add_devices :
    (uuid : String) (gi ci : ℕ) (ds : AllocatableDevices) (p : DevicePlacementMap)
    → get (add_devices ds p) uuid gi ci ≡ last_at uuid gi ci ds (get p uuid gi ci)
unfolding add_devices last_at
get-add_devices uuid gi ci [] p = refl
get-add_devices uuid gi ci ((name, d) ∷ ds) p =
    get-add_devices uuid gi ci ds (add_at p (view_placement (device_view d)) name)
    ∙ ap (last_at uuid gi ci ds) (
        get-add_at p (view_placement (device_view d)) name uuid gi ci
        ∙ ap (λ b. if b then some name else get p uuid gi ci)
            (same_place-view uuid gi ci (device_view d)))

-- The placement map that is built from the devices gives, for a UUID and two instance ids, the last
-- device that stands there, and nothing where no device does: a full GPU stands at its own UUID with
-- the id of a full GPU twice, a static MIG device at the UUID of its parent with the id of its GPU
-- instance twice, where these UUIDs are not empty, and no other device stands anywhere.
pub get-get_device_placement_map :
    (uuid : String) (gi ci : ℕ) (devices : AllocatableDevices)
    → get (get_device_placement_map devices) uuid gi ci ≡ last_at uuid gi ci devices none
unfolding get_device_placement_map get lookup
get-get_device_placement_map uuid gi ci devices = get-add_devices uuid gi ci devices []
