-- ===== src/Health/Monitor/Sent.antt =====
-- Every notification that the health monitor sends is for a device with a placement.
use k8s_dra_driver.Common.{
  ℕ, not, Option, none, some, List, [], ◌∷◌, String, ◌==◌, eqb, if_cases, Map, lookup, insert,
  delete, ◌≡◌, refl,
}
use k8s_dra_driver.Health.{
  IdMap, find, put, remove, or_empty, DevicePlacementMap, add_device, get_ci, get_gi, get,
}
use k8s_dra_driver.Health.Xids.{is_skipped}
use k8s_dra_driver.Health.Monitor.{
  XidEvent, WaitReply, timed_out, gpu_is_lost, other_error, event, HealthMonitor,
  mark_all_devices_unhealthy, of_uuid, on_event, on_reply, Channel, channel_of,
}
use k8s_dra_driver.Health.Monitor.Notices.{
  All, Everywhere, Fits, lookup-All, find-All, mark_gpus-Fits,
}

delete-All : {V : Type 0} (Q : V → Type 0) (k : String) (m : Map V) → All Q m → All Q (delete k m)
unfolding delete
delete-All Q k [] a = tt
delete-All Q k ((j, v) ∷ m) a =
    if_cases (j == k) (delete k m) ((j, v) ∷ delete k m) (All Q) (λ e. delete-All Q k m a.1)
      (λ e. (a.0, delete-All Q k m a.1))

remove-All : {V : Type 0} (Q : V → Type 0) (i : ℕ) (m : IdMap V) → All Q m → All Q (remove i m)
unfolding remove
remove-All Q i [] a = tt
remove-All Q i ((j, v) ∷ m) a =
    if_cases (eqb j i) (remove i m) ((j, v) ∷ remove i m) (All Q) (λ e. remove-All Q i m a.1)
      (λ e. (a.0, remove-All Q i m a.1))

put-All :
    {V : Type 0} (Q : V → Type 0) (i : ℕ) (v : V) (m : IdMap V) → Q v → All Q m → All Q (put i v m)
unfolding put
put-All Q i v m q a = (q, remove-All Q i m a)

looked :
    {V : Type 0} (Q : V → Type 0) (o : Option (List (ℕ × V)))
    → ((m : IdMap V) → o ≡ some m → All Q m)
    → All Q (or_empty o)
looked Q none h = tt
looked Q (some m) h = h m refl

module _ (P : String → Type 0) where
  abbrev Cis : IdMap String → Type 0
  Cis cis = All P cis

  abbrev Gis : IdMap (IdMap String) → Type 0
  Gis gis = All Cis gis

  pub add_device-All :
      (p : DevicePlacementMap) (uuid : String) (gi ci : ℕ) (name : String)
      → Everywhere P p
      → P name
      → Everywhere P (add_device p uuid gi ci name)
  unfolding add_device insert
  add_device-All p uuid gi ci name a n =
      let gis = or_empty (lookup uuid p) in
      let old : Gis gis = looked Cis (lookup uuid p) (λ m e. lookup-All Gis uuid p m a e) in
      (
        put-All Cis gi (put ci name (or_empty (find gi gis))) gis
            (put-All P ci name (or_empty (find gi gis)) n
              (looked P (find gi gis) (λ m e. find-All Cis gi gis m old e)))
            old,
        delete-All Gis uuid p a,
      )

  get_ci-P :
      (ci : ℕ) (o : Option (IdMap String)) (dev : String)
      → ((m : IdMap String) → o ≡ some m → All P m)
      → get_ci ci o ≡ some dev
      → P dev
  get_ci-P ci none dev h e = cc
  get_ci-P ci (some m) dev h e = find-All P ci m dev (h m refl) e

  get_gi-P :
      (gi ci : ℕ) (o : Option (IdMap (IdMap String))) (dev : String)
      → ((m : IdMap (IdMap String)) → o ≡ some m → Gis m)
      → get_gi gi ci o ≡ some dev
      → P dev
  get_gi-P gi ci none dev h e = cc
  get_gi-P gi ci (some m) dev h e =
      get_ci-P ci (find gi m) dev (λ c f. find-All Cis gi m c (h m refl) f) e

  get-P :
      (p : DevicePlacementMap) (uuid : String) (gi ci : ℕ) (dev : String)
      → Everywhere P p
      → get p uuid gi ci ≡ some dev
      → P dev
  unfolding get
  get-P p uuid gi ci dev a e =
      get_gi-P gi ci (lookup uuid p) dev (λ m f. lookup-All Gis uuid p m a f) e

  -- The channel and the notification that waits.
  abbrev pub Sends : ℕ → Channel → Type 0
  Sends n c = Fits P n c.queue × ((dev : String) → c.sending ≡ some dev → P dev)

  module _ (m : HealthMonitor) (a : Everywhere P m.device_by_placement) where
    idle-Sends : (q : List String) → Fits P m.buffer q → Sends m.buffer (channel_of (q, none))
    idle-Sends q h = (h, λ dev e. cc)

    all-Sends :
        (q : List String)
        → Fits P m.buffer q
        → Sends m.buffer (channel_of (mark_all_devices_unhealthy m q, none))
    unfolding mark_all_devices_unhealthy
    all-Sends q h = (mark_gpus-Fits P m m.device_by_placement q a h, λ dev e. cc)

    of_uuid-Sends :
        (e : XidEvent) (uuid : Option String) (q : List String)
        → Fits P m.buffer q
        → Sends m.buffer (channel_of (of_uuid m e uuid q))
    of_uuid-Sends e none q h = all-Sends q h
    of_uuid-Sends e (some uuid) q h =
        (h, λ dev f. get-P m.device_by_placement uuid e.gi e.ci dev a f)

    pub on_reply-Sends :
        (r : WaitReply) (q : List String)
        → Fits P m.buffer q
        → Sends m.buffer (channel_of (on_reply m r q))
    unfolding on_reply on_event
    on_reply-Sends timed_out q h = idle-Sends q h
    on_reply-Sends gpu_is_lost q h = all-Sends q h
    on_reply-Sends other_error q h = idle-Sends q h
    on_reply-Sends (event e) q h =
        if_cases (not e.is_critical) (q, none) _ (λ o. Sends m.buffer (channel_of o))
          (λ _. idle-Sends q h)
          (λ _.
            if_cases (is_skipped e.xid m.skipped_xids) (q, none) _
              (λ o. Sends m.buffer (channel_of o)) (λ _. idle-Sends q h)
              (λ _. of_uuid-Sends e e.uuid q h))
