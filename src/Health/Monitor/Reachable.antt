-- ===== src/Health/Monitor/Reachable.antt =====
-- The notifications of the health monitor in every state that it reaches.
use k8s_dra_driver.Common.{
  ℕ, ◌≤◌, Bool, true, false, ◌&&◌, ◌||◌, Option, none, some, is_some, List, [], ◌∷◌, String, ◌==◌,
  eq_iff, ◌≡◌, refl, subst, arith,
}
use k8s_dra_driver.Devices.Allocatable.{AllocatableDevices, device_view}
use k8s_dra_driver.Health.{
  DevicePlacementMap, view_placement, add_at, add_devices, get_device_placement_map,
}
use k8s_dra_driver.Health.Monitor.{
  count, len, HealthMonitor, new_nvml_device_health_monitor, register_events_for_devices, Channel,
  Step, wait, send, receive, Reaches, stays, step, registered_channel,
}
use k8s_dra_driver.Health.Monitor.Notices.{Each, Everywhere, Fits, pushed, register_gpus-Fits}
use k8s_dra_driver.Health.Monitor.Sent.{Sends, add_device-All, on_reply-Sends}

-- Whether a device of that name has a placement.
unfoldable pub has_placement : AllocatableDevices → String → Bool
unfolding device_view
has_placement [] name = false
has_placement ((k, d) ∷ ds) name =
    (k == name && is_some (view_placement (device_view d))) || has_placement ds name

abbrev pub HasPlacement : AllocatableDevices → String → Type 0
HasPlacement devices name = has_placement devices name ≡ true

add_at-Everywhere :
    (P : String → Type 0) (p : DevicePlacementMap) (o : Option (String × ℕ × ℕ)) (name : String)
    → Everywhere P p
    → (is_some o ≡ true → P name)
    → Everywhere P (add_at p o name)
add_at-Everywhere P p none name a h = a
add_at-Everywhere P p (some (uuid, gi, ci)) name a h = add_device-All P p uuid gi ci name a (h refl)

add_devices-Everywhere :
    (P : String → Type 0) (ds : AllocatableDevices) (p : DevicePlacementMap)
    → Everywhere P p
    → ((name : String) → HasPlacement ds name → P name)
    → Everywhere P (add_devices ds p)
unfolding add_devices has_placement
add_devices-Everywhere P [] p a h = a
add_devices-Everywhere P ((k, d) ∷ ds) p a h =
    add_devices-Everywhere P ds (add_at p (view_placement (device_view d)) k)
      (add_at-Everywhere P p (view_placement (device_view d)) k a
        (λ e. h k (ground (arith, e, eq_iff k k))))
      (λ name e. h name (ground (arith, e)))

module _ (P : String → Type 0) (m : HealthMonitor) (a : Everywhere P m.device_by_placement) where
  receive-Each :
      (dev : String) (q q' : List String) → q' ≡ dev ∷ q → Fits P m.buffer q' → Fits P m.buffer q
  unfolding count
  receive-Each dev q q' e h = let (one, n) = subst (Fits P m.buffer) e h in (one.1, ground arith)

  Step-Sends : (c c' : Channel) → Step m c c' → Sends P m.buffer c → Sends P m.buffer c'
  Step-Sends c c' (wait r e) h = on_reply-Sends P m a r c.queue h.0
  Step-Sends c c' (send dev e room) h =
      (pushed P m.buffer dev c.queue (h.1 dev e) h.0 room, λ dev f. cc)
  Step-Sends c c' (receive dev q e) h = (receive-Each dev q c.queue e h.0, h.1)

  Reaches-Sends : (c c' : Channel) → Reaches m c c' → Sends P m.buffer c → Sends P m.buffer c'
  Reaches-Sends c c' stays h = h
  Reaches-Sends c c' (step r s) h = Step-Sends _ c' s (Reaches-Sends c _ r h)

  registered-Sends :
      (registered : String → Bool) → Sends P m.buffer (registered_channel m registered)
  unfolding register_events_for_devices count
  registered-Sends registered =
      (register_gpus-Fits P m registered m.device_by_placement [] a (tt, ground arith), λ dev e. cc)

-- In every state that the monitor of a set of devices reaches, its channel holds at most as many
-- notifications as there are devices, and each of them, and the one that waits to be sent, names a
-- device of the set that has a placement: a full GPU or a static MIG device with a UUID.
pub Reaches-Notices :
    (devices : AllocatableDevices) (additional_xids : String) (registered : String → Bool)
    (c : Channel)
    → let m = new_nvml_device_health_monitor devices additional_xids in
      Reaches m (registered_channel m registered) c
      → (count c.queue ≤ len devices)
        × Each (HasPlacement devices) c.queue
        × ((dev : String) → c.sending ≡ some dev → HasPlacement devices dev)
unfolding get_device_placement_map
Reaches-Notices devices additional_xids registered c r =
    let m = new_nvml_device_health_monitor devices additional_xids in
    let a : Everywhere (HasPlacement devices) m.device_by_placement =
      add_devices-Everywhere (HasPlacement devices) devices [] tt (λ name h. h) in
    let sends =
      Reaches-Sends (HasPlacement devices) m a (registered_channel m registered) c r
        (registered-Sends (HasPlacement devices) m a registered) in
    (sends.0.1, sends.0.0, sends.1)
