-- ===== src/State/Overlap/Laws.antt =====
-- What `validateNoOverlappingPreparedDevices` guarantees of the claims of a checkpoint.
use k8s_dra_driver.Common.{
  Bool, true, false, ◌||◌, not, Option, none, some, List, [], ◌∷◌, String, ◌==◌, eq_iff,
  if◌then◌else◌, contains, Map, lookup, Outcome, ok, err, failure, and_then, ◌⊎◌, inl, inr, ◌≡◌,
  ◌≢◌, refl, ap, ◌∙◌, arith, subst,
}
use k8s_dra_driver.Kube.{ClaimStatus, Allocation, ResourceClaim}
use k8s_dra_driver.Devices.Prepared.{non_admin_devices}
use k8s_dra_driver.Checkpoint.{PreparedClaim, is_completed, get_non_admin_devices}
use k8s_dra_driver.State.Overlap.{
  overlaps, check_claims, check_requested, requested_non_admin_devices,
  validate_no_overlapping_prepared_devices,
}

-- The devices that a claim of this status has for itself.
abbrev pub devices_of : ClaimStatus → List String
devices_of status = elim status.allocation [ none ↦ [] | some a ↦ non_admin_devices a.results ]

-- No device belongs to both.
abbrev pub Exclusive : ClaimStatus → ClaimStatus → Type 0
Exclusive a b = (x : String) → contains x (devices_of a) ≡ true → contains x (devices_of b) ≡ false

Exclusive-cases :
    (a b : ClaimStatus) (x : String) (t : Bool)
    → contains x (devices_of a) ≡ t
    → Exclusive a b
    → contains x (devices_of b) ≡ true
    → contains x (devices_of a) ≡ false
Exclusive-cases a b x true e h there = cc (h x e)
Exclusive-cases a b x false e h there = e

pub Exclusive-sym : (a b : ClaimStatus) → Exclusive a b → Exclusive b a
Exclusive-sym a b h x there = Exclusive-cases a b x _ refl h there

overlaps-contains :
    (xs ys : List String) (x : String)
    → overlaps xs ys ≡ false
    → contains x xs ≡ true
    → contains x ys ≡ false
unfolding overlaps contains
overlaps-contains [] ys x h there = cc
overlaps-contains (y ∷ xs) ys x h there = ground (arith, overlaps-contains xs ys x, eq_iff y x)

-- One claim that the loop passes.
passed_claim :
    (c : PreparedClaim) (a : Option Allocation) (requested : List String)
    (rest : Outcome (Unit {0}))
    → c.status.allocation ≡ a
    → and_then (get_non_admin_devices c) (λ devices.
      if overlaps requested devices
      then err (failure "requested device is already allocated to different claim")
      else rest)
      ≡ ok tt
    → (overlaps requested (devices_of c.status) ≡ false) × (rest ≡ ok tt)
unfolding get_non_admin_devices
passed_claim c none requested rest e h = cc (rw e at h)
passed_claim c (some a) requested rest e h = rw e (ground (arith, rw e at h))

first_claim :
    (uid : String) (requested : List String) (j : String) (b : PreparedClaim)
    (m : Map PreparedClaim) (t : Bool)
    → (j == uid || not (is_completed b.checkpoint_state)) ≡ t
    → check_claims uid requested ((j, b) ∷ m) ≡ ok tt
    → (check_claims uid requested m ≡ ok tt)
      × ((j == uid || not (is_completed b.checkpoint_state)) ≡ false
          → overlaps requested (devices_of b.status) ≡ false)
unfolding check_claims
first_claim uid requested j b m true e h = (rw e at h, λ e'. cc)
first_claim uid requested j b m false e h =
    let p = passed_claim b _ requested (check_claims uid requested m) refl (rw e at h) in
    (p.1, λ e'. p.0)

not_skipped :
    (uid j k : String) (t : Bool) → uid ≢ k → j ≡ k → t ≡ true → (j == uid || not t) ≡ false
not_skipped uid j k t other e h = ground (arith, eq_iff j uid)

found_value :
    {V : Type 0} (j k : String) (b c : V) (m : Map V) (t : Bool)
    → j == k ≡ t
    → lookup k ((j, b) ∷ m) ≡ some c
    → ((j ≡ k) × (b ≡ c)) ⊎ (lookup k m ≡ some c)
unfolding lookup
found_value j k b c m true e h = let h' : some b ≡ some c = rw e at h in inl ((eq_iff j k).0 e, cc)
found_value j k b c m false e h = inr (rw e at h)

-- Behind the loop, no device that was asked for is one of another claim that is prepared.
pub check_claims-lookup :
    (uid : String) (requested : List String) (m : Map PreparedClaim) (k : String)
    (c : PreparedClaim)
    → check_claims uid requested m ≡ ok tt
    → lookup k m ≡ some c
    → uid ≢ k
    → is_completed c.checkpoint_state ≡ true
    → overlaps requested (devices_of c.status) ≡ false
unfolding lookup
check_claims-lookup uid requested [] k c h found other done = cc
check_claims-lookup uid requested ((j, b) ∷ m) k c h found other done =
    let p = first_claim uid requested j b m _ refl h in
    elim (found_value j k b c m _ refl found) [
      | inl (e, same) ↦
          subst (λ c. overlaps requested (devices_of c.status) ≡ false) same
            (p.1 (
              not_skipped uid j k _ other e
                (ap (λ c. is_completed c.checkpoint_state) same ∙ done)))
      | inr later ↦ check_claims-lookup uid requested m k c p.0 later other done
    ]

requested_overlaps :
    (uid : String) (requested : List String) (m : Map PreparedClaim) (k : String)
    (c : PreparedClaim)
    → check_requested uid requested m ≡ ok tt
    → lookup k m ≡ some c
    → uid ≢ k
    → is_completed c.checkpoint_state ≡ true
    → overlaps requested (devices_of c.status) ≡ false
unfolding overlaps
requested_overlaps uid [] m k c h found other done = refl
requested_overlaps uid (d ∷ ds) m k c h found other done =
    check_claims-lookup uid (d ∷ ds) m k c h found other done

allocated :
    (claim : ResourceClaim) (m : Map PreparedClaim) (a : Option Allocation)
    → claim.status.allocation ≡ a
    → validate_no_overlapping_prepared_devices m claim ≡ ok tt
    → check_requested claim.uid (devices_of claim.status) m ≡ ok tt
unfolding validate_no_overlapping_prepared_devices requested_non_admin_devices
allocated claim m none e h = cc (rw e at h)
allocated claim m (some a) e h = rw e (rw e at h)

-- A claim that passes the test shares no device that is not for admin access with another claim that
-- is prepared to the end.
pub validate_no_overlapping_prepared_devices-Exclusive :
    (claim : ResourceClaim) (m : Map PreparedClaim) (k : String) (c : PreparedClaim)
    → validate_no_overlapping_prepared_devices m claim ≡ ok tt
    → lookup k m ≡ some c
    → claim.uid ≢ k
    → is_completed c.checkpoint_state ≡ true
    → Exclusive claim.status c.status
validate_no_overlapping_prepared_devices-Exclusive claim m k c h found other done x there =
    overlaps-contains (devices_of claim.status) (devices_of c.status) x
      (requested_overlaps claim.uid (devices_of claim.status) m k c (allocated claim m _ refl h)
        found other done)
      there
