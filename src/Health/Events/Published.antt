-- ===== src/Health/Events/Published.antt =====
-- What is published after a notification of the health monitor.
use k8s_dra_driver.Common.{
  ok_inj, Bool, true, false, ◌&&◌, ◌||◌, Option, none, some, List, [], ◌∷◌, String, ◌==◌, eq_iff,
  contains, if◌then◌else◌, Map, lookup, insert, lookup-insert, Outcome, ok, err, panic, and_then,
  and_then-eq-ok, ◌≡◌, ◌⊎◌, inl, inr, refl, ap, sym, ◌∙◌,
}
use k8s_dra_driver.Devices.{unhealthy}
use k8s_dra_driver.Devices.Allocatable.{AllocatableDevice, device_type}
use k8s_dra_driver.State.Siblings.{update_device_health_status}
use k8s_dra_driver.State.Siblings.Health.{keeps_health, update_device_health_status-Updates}
use k8s_dra_driver.Health.Events.{
  Advertised, health_of, healthy_devices, mark_unhealthy, publish, on_health, device_health_event,
}

and_false : (b : Bool) → (b && false) ≡ false
and_false true = refl
and_false false = refl

abbrev pub is_true : Outcome Bool → Bool
is_true (ok b) = b
is_true (err e) = false
is_true panic = false

-- Whether the device behind a pointer is healthy.
abbrev pub is_well : Map AllocatableDevice → String → Bool
is_well heap k = is_true (health_of (lookup k heap))

contains_round :
    (heap : Map AllocatableDevice) (j k : String) (ks l : List String) (h t : Bool)
    → (j == k) ≡ t
    → is_well heap j ≡ h
    → contains k l ≡ (contains k ks && is_well heap k)
    → contains k (if h then j ∷ l else l) ≡ ((t || contains k ks) && is_well heap k)
unfolding contains
contains_round heap j k ks l true true e w ih =
    ap (λ b. b || contains k l) e ∙ sym (ap (is_well heap) (sym ((eq_iff j k).0 e)) ∙ w)
contains_round heap j k ks l true false e w ih = ap (λ b. b || contains k l) e ∙ ih
contains_round heap j k ks l false true e w ih =
    let bad : is_well heap k ≡ false = ap (is_well heap) (sym ((eq_iff j k).0 e)) ∙ w in
    ih ∙ ap (λ b. contains k ks && b) bad ∙ and_false (contains k ks) ∙ sym bad
contains_round heap j k ks l false false e w ih = ih

contains-healthy_devices :
    (heap : Map AllocatableDevice) (ks l : List String) (k : String)
    → healthy_devices heap ks ≡ ok l
    → contains k l ≡ (contains k ks && is_well heap k)
unfolding healthy_devices contains lookup
contains-healthy_devices heap [] l k e = ap (contains k) (sym (ok_inj [] l e))
contains-healthy_devices heap (j ∷ ks) l k e =
    let (h, f, e) = and_then-eq-ok (health_of (lookup j heap)) _ e in
    let (l', g, e) = and_then-eq-ok (healthy_devices heap ks) _ e in
    ap (contains k) (sym (ok_inj (if h then j ∷ l' else l') l e))
    ∙ contains_round heap j k ks l' h (j == k) refl (ap is_true f)
        (contains-healthy_devices heap ks l' k g)

-- Either nothing was published, or the devices were that are healthy now and still allocatable.
abbrev Publishes : Advertised → Outcome (Unit {0}) × Advertised → Type 0
Publishes s p =
    (p.1.published ≡ s.published)
    ⊎ ((l : List String) × (p.1.published ≡ l ∷ s.published)
        × ((k : String) → contains k l ≡ (contains k p.1.allocatable && is_well p.1.heap k)))

publish-Publishes :
    (heap : Map AllocatableDevice) (s : Advertised) (r : Outcome (List String))
    → healthy_devices heap s.allocatable ≡ r
    → Publishes s (publish heap s r)
publish-Publishes heap s (ok l) e =
    inr (l, refl, λ k. contains-healthy_devices heap s.allocatable l k e)
publish-Publishes heap s (err x) e = inl refl
publish-Publishes heap s panic e = inl refl

on_health-Publishes :
    (k : String) (s : Advertised) (r : Outcome Bool) → Publishes s (on_health k s r)
on_health-Publishes k s (ok true) =
    publish-Publishes (mark_unhealthy k (lookup k s.heap) s.heap) s _ refl
on_health-Publishes k s (ok false) = inl refl
on_health-Publishes k s (err x) = inl refl
on_health-Publishes k s panic = inl refl

-- A notification publishes at most one new set of resources: exactly the allocatable devices that are
-- healthy after it.
pub device_health_event-Publishes :
    (k : String) (s : Advertised)
    → let p = device_health_event k s in
      (p.1.published ≡ s.published)
      ⊎ ((l : List String) × (p.1.published ≡ l ∷ s.published)
          × ((j : String) → contains j l ≡ (contains j p.1.allocatable && is_well p.1.heap j)))
unfolding device_health_event
device_health_event-Publishes k s = on_health-Publishes k s (health_of (lookup k s.heap))

heap-publish :
    (heap : Map AllocatableDevice) (s : Advertised) (r : Outcome (List String))
    → (publish heap s r).1.heap ≡ heap
heap-publish heap s (ok l) = refl
heap-publish heap s (err x) = refl
heap-publish heap s panic = refl

false_after :
    (r : Outcome String) (h : Outcome Bool) → h ≡ ok false → is_true (and_then r (λ _. h)) ≡ false
false_after (ok u) h e = ap is_true e
false_after (err x) h e = refl
false_after panic h e = refl

marked_lem :
    (k : String) (d : AllocatableDevice) (heap : Map AllocatableDevice)
    (o : Option AllocatableDevice)
    → o ≡ some d
    → keeps_health (device_type d) ≡ true
    → is_well (mark_unhealthy k o heap) k ≡ false
unfolding lookup insert
marked_lem k d heap none e h = cc
marked_lem k d heap (some d') e h =
    let same : d' ≡ d = cc in
    let found : lookup k (insert k (update_device_health_status unhealthy d') heap)
        ≡ some (update_device_health_status unhealthy d') =
      lookup-insert k k _ heap
      ∙ ap (λ b. if b then some (update_device_health_status unhealthy d') else lookup k heap)
          ((eq_iff k k).1 refl) in
    ap (λ o. is_true (health_of o))
      (found ∙ ap (λ d. some (update_device_health_status unhealthy d)) same)
    ∙ false_after _ _ ((update_device_health_status-Updates unhealthy d).2 h)

on_health-unwell :
    (k : String) (d : AllocatableDevice) (s : Advertised) (r : Outcome Bool)
    → health_of (lookup k s.heap) ≡ r
    → lookup k s.heap ≡ some d
    → keeps_health (device_type d) ≡ true
    → is_well (on_health k s r).1.heap k ≡ false
on_health-unwell k d s (ok true) e f h =
    let heap = mark_unhealthy k (lookup k s.heap) s.heap in
    ap (λ m. is_well m k) (heap-publish heap s (healthy_devices heap s.allocatable))
    ∙ marked_lem k d s.heap (lookup k s.heap) f h
on_health-unwell k d s (ok false) e f h = ap is_true e
on_health-unwell k d s (err x) e f h = ap is_true e
on_health-unwell k d s panic e f h = ap is_true e

-- After a notification for a full GPU or a static MIG device this device is not healthy, so that what
-- is published then leaves it out.
pub device_health_event-unwell :
    (k : String) (d : AllocatableDevice) (s : Advertised)
    → lookup k s.heap ≡ some d
    → keeps_health (device_type d) ≡ true
    → is_well (device_health_event k s).1.heap k ≡ false
unfolding device_health_event
device_health_event-unwell k d s f h = on_health-unwell k d s (health_of (lookup k s.heap)) refl f h
