-- ===== src/Health/Monitor/Notices.antt =====
-- What stands in the channel of the health monitor: only devices of the placement map, and never
-- more than the channel holds.
use k8s_dra_driver.Common.{
  some_inj, ℕ, suc, ◌≤◌, Bool, true, some, List, [], ◌∷◌, ◌++◌, String, ◌==◌, ltb, eqb, if_cases,
  Map, lookup, ◌≡◌, refl, ap, subst, arith,
}
use k8s_dra_driver.Health.{IdMap, find, DevicePlacementMap}
use k8s_dra_driver.Health.Monitor.{
  count, HealthMonitor, offer, mark_cis, mark_all_mig_devices_unhealthy, mark_gpus, register_gpus,
}

-- Every value of a map has a property.
abbrev pub All : {K V : Type 0} → (V → Type 0) → List (K × V) → Type 0
All Q [] = Unit
All Q ((k, v) ∷ m) = Q v × All Q m

abbrev pub Each : (String → Type 0) → List String → Type 0
Each P [] = Unit
Each P (x ∷ xs) = P x × Each P xs

abbrev pub Everywhere : (String → Type 0) → DevicePlacementMap → Type 0
Everywhere P p = All (λ gis. All (λ cis. All P cis) gis) p

Each-append :
    (P : String → Type 0) (q : List String) (x : String) → Each P q → P x → Each P (q ++ x ∷ [])
Each-append P [] x h p = (p, tt)
Each-append P (y ∷ q) x h p = (h.0, Each-append P q x h.1 p)

count-append : (q : List String) (x : String) → count (q ++ x ∷ []) ≡ suc (count q)
unfolding count
count-append [] x = refl
count-append (y ∷ q) x = ap suc (count-append q x)

-- The channel has only such notifications, and room for all of them.
abbrev pub Fits : (String → Type 0) → ℕ → List String → Type 0
Fits P n q = Each P q × (count q ≤ n)

pub pushed :
    (P : String → Type 0) (n : ℕ) (dev : String) (q : List String)
    → P dev
    → Fits P n q
    → ltb (count q) n ≡ true
    → Fits P n (q ++ dev ∷ [])
pushed P n dev q p h r =
    let grown = count-append q dev in (Each-append P q dev h.0 p, ground (arith, grown, r))

module _ (P : String → Type 0) (m : HealthMonitor) where
  offer-Fits :
      (dev : String) (q : List String) → P dev → Fits P m.buffer q → Fits P m.buffer (offer m dev q)
  offer-Fits dev q p h =
      if_cases (ltb (count q) m.buffer) _ _ (Fits P m.buffer) (λ r. pushed P m.buffer dev q p h r)
        (λ r. h)

  mark_cis-Fits :
      (cis : IdMap String) (q : List String)
      → All P cis
      → Fits P m.buffer q
      → Fits P m.buffer (mark_cis m cis q)
  unfolding mark_cis
  mark_cis-Fits [] q a h = h
  mark_cis-Fits ((ci, dev) ∷ cis) q a h =
      mark_cis-Fits cis (offer m dev q) a.1 (offer-Fits dev q a.0 h)

  mark_migs-Fits :
      (gis : IdMap (IdMap String)) (q : List String)
      → All (λ cis. All P cis) gis
      → Fits P m.buffer q
      → Fits P m.buffer (mark_all_mig_devices_unhealthy m gis q)
  unfolding mark_all_mig_devices_unhealthy
  mark_migs-Fits [] q a h = h
  mark_migs-Fits ((gi, cis) ∷ gis) q a h =
      mark_migs-Fits gis (mark_cis m cis q) a.1 (mark_cis-Fits cis q a.0 h)

  pub mark_gpus-Fits :
      (p : DevicePlacementMap) (q : List String)
      → Everywhere P p
      → Fits P m.buffer q
      → Fits P m.buffer (mark_gpus m p q)
  unfolding mark_gpus
  mark_gpus-Fits [] q a h = h
  mark_gpus-Fits ((uuid, gis) ∷ p) q a h =
      mark_gpus-Fits p (mark_all_mig_devices_unhealthy m gis q) a.1 (mark_migs-Fits gis q a.0 h)

  pub register_gpus-Fits :
      (registered : String → Bool) (p : DevicePlacementMap) (q : List String)
      → Everywhere P p
      → Fits P m.buffer q
      → Fits P m.buffer (register_gpus m registered p q)
  unfolding register_gpus
  register_gpus-Fits registered [] q a h = h
  register_gpus-Fits registered ((uuid, gis) ∷ p) q a h = register_gpus-Fits registered p _ a.1 (
      if_cases (registered uuid) q (mark_all_mig_devices_unhealthy m gis q) (Fits P m.buffer)
        (λ e. h) (λ e. mark_migs-Fits gis q a.0 h))

pub lookup-All :
    {V : Type 0} (Q : V → Type 0) (k : String) (m : Map V) (v : V)
    → All Q m
    → lookup k m ≡ some v
    → Q v
unfolding lookup
lookup-All Q k [] v a e = cc
lookup-All Q k ((j, w) ∷ m) v a e =
    if_cases (j == k) (some w) (lookup k m) (λ o. o ≡ some v → Q v)
      (λ r e. subst Q (some_inj w v e) a.0) (λ r e. lookup-All Q k m v a.1 e) e

pub find-All :
    {V : Type 0} (Q : V → Type 0) (i : ℕ) (m : IdMap V) (v : V) → All Q m → find i m ≡ some v → Q v
unfolding find
find-All Q i [] v a e = cc
find-All Q i ((j, w) ∷ m) v a e =
    if_cases (eqb j i) (some w) (find i m) (λ o. o ≡ some v → Q v)
      (λ r e. subst Q (some_inj w v e) a.0) (λ r e. find-All Q i m v a.1 e) e
