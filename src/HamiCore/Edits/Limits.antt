-- ===== src/HamiCore/Edits/Limits.antt =====
-- `getConsumableCapacityMap` against a description of it: what a claim consumes of a device.
use k8s_dra_driver.Common.{
  Bool, true, false, Option, none, some, List, [], ◌∷◌, String, ◌==◌, eq_iff, if◌then◌else◌, Map,
  IsMap, lookup, insert, lookup-insert, ok, ◌≡◌, refl, ap, sym, ◌∙◌,
}
use k8s_dra_driver.Kube.{Quantity, Allocation, AllocationResult, ResourceClaim}
use k8s_dra_driver.HamiCore.Edits.{
  copy_map, capacity_of, capacity_at, capacity_outcome, capacities, get_consumable_capacity_map,
}

abbrev or_else : {V : Type 0} → Option V → Option V → Option V
or_else (some v) o = some v
or_else none o = o

or_else_end : {V : Type 0} (x : Option V) → or_else x none ≡ x
or_else_end none = refl
or_else_end (some v) = refl

or_else_assoc : {V : Type 0} (x y z : Option V) → or_else x (or_else y z) ≡ or_else (or_else x y) z
or_else_assoc none y z = refl
or_else_assoc (some v) y z = refl

-- A key that the rest of the source map does not have.
copied :
    {V : Type 0} (j k : String) (v : V) (m dst : Map V) (b : Bool)
    → (j == k) ≡ b
    → lookup j m ≡ none
    → or_else (lookup k m) (if b then some v else lookup k dst)
      ≡ or_else (if b then some v else lookup k m) (lookup k dst)
copied j k v m dst true e h =
    ap (λ o. or_else o (some v)) (ap (λ i. lookup i m) (sym ((eq_iff j k).0 e)) ∙ h)
copied j k v m dst false e h = refl

lookup-copy_map :
    {V : Type 0} (k : String) (src dst : Map V)
    → IsMap src
    → lookup k (copy_map src dst) ≡ or_else (lookup k src) (lookup k dst)
unfolding lookup copy_map
lookup-copy_map k [] dst h = refl
lookup-copy_map k ((j, v) ∷ src) dst h =
    lookup-copy_map k src (insert j v dst) h.1
    ∙ ap (or_else (lookup k src)) (lookup-insert j k v dst)
    ∙ copied j k v src dst (j == k) refl h.0

-- The last result of the device that has the capacity.
unfoldable pub consumed : String → String → List AllocationResult → Option Quantity
unfolding lookup
consumed device name [] = none
consumed device name (r ∷ rs) =
    or_else (consumed device name rs)
      (if r.device == device then lookup name r.consumed_capacity else none)

abbrev pub AreMaps : List AllocationResult → Type 0
AreMaps [] = Unit
AreMaps (r ∷ rs) = IsMap r.consumed_capacity × AreMaps rs

module _ (r : AllocationResult) (device name : String) (m : Map (Map Quantity))
    (h : IsMap r.consumed_capacity) where
  round_case :
      (b : Bool)
      → (r.device == device) ≡ b
      → lookup name (
          capacity_of (
            if b
            then some (copy_map r.consumed_capacity (capacity_at r.device m))
            else lookup device m))
        ≡ or_else
            (if b then lookup name r.consumed_capacity else none)
            (lookup name (capacity_at device m))
  round_case true e =
      lookup-copy_map name r.consumed_capacity (capacity_at r.device m) h
      ∙ ap (λ d. or_else (lookup name r.consumed_capacity) (lookup name (capacity_at d m)))
          ((eq_iff r.device device).0 e)
  round_case false e = refl

  -- One round of the loop.
  round_lem :
      lookup name (
        capacity_at device
          (insert r.device (copy_map r.consumed_capacity (capacity_at r.device m)) m))
      ≡ or_else
          (if r.device == device then lookup name r.consumed_capacity else none)
          (lookup name (capacity_at device m))
  round_lem =
      ap (λ o. lookup name (capacity_of o))
        (lookup-insert r.device device (copy_map r.consumed_capacity (capacity_at r.device m)) m)
      ∙ round_case (r.device == device) refl

capacities-consumed :
    (device name : String) (rs : List AllocationResult) (m : Map (Map Quantity))
    → AreMaps rs
    → lookup name (capacity_at device (capacities rs m))
      ≡ or_else (consumed device name rs) (lookup name (capacity_at device m))
unfolding capacities consumed
capacities-consumed device name [] m h = refl
capacities-consumed device name (r ∷ rs) m h =
    capacities-consumed device name rs _ h.1
    ∙ ap (or_else (consumed device name rs)) (round_lem r device name m h.0)
    ∙ or_else_assoc (consumed device name rs) _ _

-- The capacity map of a claim gives, for a device and a capacity, what the last result of that device
-- with that capacity consumes, where the consumed capacities of each result are a map.
pub get_consumable_capacity_map-consumed :
    (claim : ResourceClaim) (a : Allocation) (device name : String)
    → claim.status.allocation ≡ some a
    → AreMaps a.results
    → (m : Map (Map Quantity)) × (get_consumable_capacity_map claim ≡ ok m)
      × (lookup name (capacity_at device m) ≡ consumed device name a.results)
unfolding get_consumable_capacity_map lookup
get_consumable_capacity_map-consumed claim a device name e h = (
  capacities a.results [],
  ap (λ o. capacity_outcome o) e,
  capacities-consumed device name a.results [] h ∙ or_else_end (consumed device name a.results),
)
