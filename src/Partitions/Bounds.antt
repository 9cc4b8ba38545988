-- ===== src/Partitions/Bounds.antt =====
-- The partitions of a GPU against what the GPU announces.
use k8s_dra_driver.Common.{
  some_inj, ℕ, ◌≤◌, ℤ, pos, negsuc, Bool, true, false, not, Option, none, some, List, [], ◌∷◌,
  String, ◌==◌, eq_iff, if◌then◌else◌, if_cases, Map, lookup, insert, lookup-insert, max, ok, ◌≡◌,
  refl, ap, ◌∙◌, subst, arith,
}
use k8s_dra_driver.Devices.{GpuInfo, MigSpec}
use k8s_dra_driver.Partitions.{
  at_most, part_capacities, larger, set_max, set_max_all, maxima,
  inspect_mig_profiles_and_placements,
}

at_most_trans : (a b c : ℤ) → at_most a b ≡ true → at_most b c ≡ true → at_most a c ≡ true
at_most_trans (pos a) (pos b) (pos c) h k = ground arith
at_most_trans (pos a) (pos b) (negsuc c) h k = cc
at_most_trans (pos a) (negsuc b) c h k = cc
at_most_trans (negsuc a) (pos b) (pos c) h k = refl
at_most_trans (negsuc a) (pos b) (negsuc c) h k = cc
at_most_trans (negsuc a) (negsuc b) (pos c) h k = refl
at_most_trans (negsuc a) (negsuc b) (negsuc c) h k = ground arith

at_most_total : (a b : ℤ) → not (at_most a b) ≡ true → at_most b a ≡ true
at_most_total (pos a) (pos b) h = ground arith
at_most_total (pos a) (negsuc b) h = refl
at_most_total (negsuc a) (pos b) h = cc
at_most_total (negsuc a) (negsuc b) h = ground arith

at_most_refl : (a : ℤ) → at_most a a ≡ true
at_most_refl (pos a) = ground arith
at_most_refl (negsuc a) = ground arith

-- The map has a value for the name that is not smaller.
abbrev pub Bounds : Map ℤ → String → ℤ → Type 0
Bounds m name c = (c' : ℤ) × (lookup name m ≡ some c') × (at_most c c' ≡ true)

larger_lem : (o : Option ℤ) (v c : ℤ) → larger o v ≡ true → o ≡ some c → at_most c v ≡ true
larger_lem none v c h e = cc
larger_lem (some d) v c h e =
    let same : d ≡ c = cc in subst (λ c. at_most c v ≡ true) same (at_most_total v d h)

smaller_lem :
    (o : Option ℤ) (v : ℤ) → larger o v ≡ false → (c : ℤ) × (o ≡ some c) × (at_most v c ≡ true)
smaller_lem none v h = cc
smaller_lem (some d) v h = (d, refl, ground (arith, h))

module _ (m : Map ℤ) (k : String) (v : ℤ) where
  inserted_at :
      (name : String) (c : ℤ) (b : Bool)
      → (k == name) ≡ b
      → larger (lookup k m) v ≡ true
      → Bounds m name c
      → Bounds (insert k v m) name c
  inserted_at name c true e h (c', f, g) =
      let before : lookup k m ≡ some c' = ap (λ n. lookup n m) ((eq_iff k name).0 e) ∙ f in
      (
        v,
        lookup-insert k name v m ∙ ap (λ b. if b then some v else lookup name m) e,
        at_most_trans c c' v g (larger_lem (lookup k m) v c' h before),
      )
  inserted_at name c false e h (c', f, g) =
      (c', lookup-insert k name v m ∙ ap (λ b. if b then some v else lookup name m) e ∙ f, g)

  Bounds-set_max : (name : String) (c : ℤ) → Bounds m name c → Bounds (set_max m k v) name c
  unfolding set_max
  Bounds-set_max name c b =
      if_cases (larger (lookup k m) v) (insert k v m) m (λ m. Bounds m name c)
        (λ h. inserted_at name c (k == name) refl h b) (λ h. b)

  set_max-Bounds : Bounds (set_max m k v) k v
  unfolding set_max
  set_max-Bounds =
      if_cases (larger (lookup k m) v) (insert k v m) m (λ m. Bounds m k v)
        (λ h. (
          v,
          lookup-insert k k v m ∙ ap (λ b. if b then some v else lookup k m) ((eq_iff k k).1 refl),
          at_most_refl v,
        ))
        (λ h. smaller_lem (lookup k m) v h)

Bounds-set_max_all :
    (caps m : Map ℤ) (name : String) (c : ℤ) → Bounds m name c → Bounds (set_max_all m caps) name c
unfolding set_max_all
Bounds-set_max_all [] m name c b = b
Bounds-set_max_all ((k, v) ∷ caps) m name c b =
    Bounds-set_max_all caps (set_max m k v) name c (Bounds-set_max m k v name c b)

set_max_all-Bounds :
    (caps m : Map ℤ) (name : String) (c : ℤ)
    → lookup name caps ≡ some c
    → Bounds (set_max_all m caps) name c
unfolding set_max_all lookup
set_max_all-Bounds [] m name c e = cc
set_max_all-Bounds ((k, v) ∷ caps) m name c e =
    if_cases (k == name) (some v) (lookup name caps)
      (λ o. o ≡ some c → Bounds (set_max_all (set_max m k v) caps) name c)
      (λ q e. Bounds-set_max_all caps (set_max m k v) name c (
        subst (λ n. Bounds (set_max m k v) n c) ((eq_iff k name).0 q)
          (subst (Bounds (set_max m k v) k) (some_inj v c e) (set_max-Bounds m k v))))
      (λ q e. set_max_all-Bounds caps (set_max m k v) name c e) e

-- The announced maxima cover a partition.
abbrev pub Covers : Map ℤ × ℕ → MigSpec → Type 0
Covers (m, n) mi =
    ((name : String) (c : ℤ) → lookup name (part_capacities mi) ≡ some c → Bounds m name c)
    × (mi.placement.size ≤ n)

abbrev pub All : (MigSpec → Type 0) → List MigSpec → Type 0
All P [] = Unit
All P (mi ∷ infos) = P mi × All P infos

maxima-keeps :
    (infos : List MigSpec) (m : Map ℤ) (n : ℕ) (mi : MigSpec)
    → Covers (m, n) mi
    → Covers (maxima infos (m, n)) mi
unfolding maxima
maxima-keeps [] m n mi h = h
maxima-keeps (i ∷ infos) m n mi h =
    maxima-keeps infos (set_max_all m (part_capacities i)) (max n i.placement.size) mi (
      (λ name c e. Bounds-set_max_all (part_capacities i) m name c (h.0 name c e)),
      ground (arith, h.1),
    )

maxima-Covers :
    (infos : List MigSpec) (m : Map ℤ) (n : ℕ) → All (Covers (maxima infos (m, n))) infos
unfolding maxima
maxima-Covers [] m n = tt
maxima-Covers (i ∷ infos) m n =
    let m' = set_max_all m (part_capacities i) in
    let n' = max n i.placement.size in
    (
      maxima-keeps infos m' n' i
          ((λ name c e. set_max_all-Bounds (part_capacities i) m name c e), ground arith),
      maxima-Covers infos m' n',
    )

-- After the inspection of its MIG profiles the GPU announces, for every partition that was found and
-- for each of its capacities, at least this capacity, and at least as many memory slices as the
-- partition takes.
pub inspect_mig_profiles_and_placements-Covers :
    (infos : List MigSpec) (d : GpuInfo)
    → (d' : GpuInfo) × (inspect_mig_profiles_and_placements (ok infos) d ≡ ok (infos, d'))
      × All (Covers (d'.max_capacities, d'.mem_slice_count)) infos
unfolding inspect_mig_profiles_and_placements
inspect_mig_profiles_and_placements-Covers infos d = (_, refl, maxima-Covers infos [] 0)
