-- ===== src/Health/Monitor.antt =====
-- `registerEventsForDevices`, `run` and `markAllDevicesUnhealthy` of device_health.go: the goroutine
-- that turns events of NVML into notifications on a buffered channel. The events that NVML gives are
-- a parameter: the sequence of steps carries them.
pub mod Notices
pub mod Sent
pub mod Reachable
use k8s_dra_driver.Common.{
  ℕ, zero, suc, ◌+◌, Bool, true, false, not, Option, none, some, List, [], ◌∷◌, ◌++◌, String, ltb,
  if◌then◌else◌, Map, ◌≡◌,
}
use k8s_dra_driver.Devices.Allocatable.{AllocatableDevices}
use k8s_dra_driver.Health.{IdMap, DevicePlacementMap, get, get_device_placement_map}
use k8s_dra_driver.Health.Xids.{is_skipped, xids_to_skip}

-- An event; `uuid` is what `GetUUID` gives for its device, `is_critical` says whether its type is
-- EventTypeXidCriticalError.
pub record XidEvent : Type 0 where
  pub is_critical : Bool
  pub xid : ℕ
  pub gi : ℕ
  pub ci : ℕ
  pub uuid : Option String

-- What `Wait` returns.
pub data WaitReply : Type 0 where
  timed_out gpu_is_lost other_error : WaitReply
  event : XidEvent → WaitReply

unfoldable pub count : List String → ℕ
count [] = 0
count (x ∷ xs) = suc (count xs)

-- What does not change: the map, the XIDs to skip, and the capacity of the channel.
pub record HealthMonitor : Type 0 where
  pub device_by_placement : DevicePlacementMap
  pub skipped_xids : List ℕ
  pub buffer : ℕ

unfoldable pub len : AllocatableDevices → ℕ
len [] = 0
len (x ∷ xs) = suc (len xs)

-- newNvmlDeviceHealthMonitor, once NVML is initialised
abbrev pub new_nvml_device_health_monitor : AllocatableDevices → String → HealthMonitor
new_nvml_device_health_monitor allocatable additional_xids = record {
  device_by_placement = get_device_placement_map allocatable;
  skipped_xids = xids_to_skip additional_xids;
  buffer = len allocatable;
}

module _ (m : HealthMonitor) where
  open m use {device_by_placement, skipped_xids, buffer}

  -- The send that does not block: a notification is dropped where the channel is full.
  abbrev pub offer : String → List String → List String
  offer dev queue = if ltb (count queue) buffer then queue ++ dev ∷ [] else queue

  unfoldable pub mark_cis : IdMap String → List String → List String
  unfolding count
  mark_cis [] queue = queue
  mark_cis ((ci, dev) ∷ cis) queue = mark_cis cis (offer dev queue)

  -- (m *nvmlDeviceHealthMonitor) markAllMigDevicesUnhealthy
  unfoldable pub mark_all_mig_devices_unhealthy : IdMap (IdMap String) → List String → List String
  unfolding mark_cis
  mark_all_mig_devices_unhealthy [] queue = queue
  mark_all_mig_devices_unhealthy ((gi, cis) ∷ gis) queue =
      mark_all_mig_devices_unhealthy gis (mark_cis cis queue)

  unfoldable pub mark_gpus : DevicePlacementMap → List String → List String
  unfolding mark_all_mig_devices_unhealthy
  mark_gpus [] queue = queue
  mark_gpus ((uuid, gis) ∷ p) queue = mark_gpus p (mark_all_mig_devices_unhealthy gis queue)

  -- (m *nvmlDeviceHealthMonitor) markAllDevicesUnhealthy
  unfoldable pub mark_all_devices_unhealthy : List String → List String
  unfolding mark_gpus
  mark_all_devices_unhealthy queue = mark_gpus device_by_placement queue

  -- The loop of `registerEventsForDevices`: `registered` says of a GPU whether its handle is found and
  -- its events are registered.
  unfoldable pub register_gpus : (String → Bool) → DevicePlacementMap → List String → List String
  unfolding mark_all_mig_devices_unhealthy
  register_gpus registered [] queue = queue
  register_gpus registered ((uuid, gis) ∷ p) queue =
      register_gpus registered p
        (if registered uuid then queue else mark_all_mig_devices_unhealthy gis queue)

  unfoldable pub register_events_for_devices : (String → Bool) → List String → List String
  unfolding register_gpus
  register_events_for_devices registered queue = register_gpus registered device_by_placement queue

  -- What an event leads to: the channel, and the device whose notification waits to be sent.
  abbrev pub of_uuid : XidEvent → Option String → List String → List String × Option String
  of_uuid e none queue = (mark_all_devices_unhealthy queue, none)
  of_uuid e (some uuid) queue = (queue, get device_by_placement uuid e.gi e.ci)

  unfoldable pub on_event : XidEvent → List String → List String × Option String
  unfolding mark_all_devices_unhealthy get is_skipped
  on_event e queue =
      if not e.is_critical
      then (queue, none)
      else if is_skipped e.xid skipped_xids
      then (queue, none)
      else of_uuid e e.uuid queue

  -- One round of the loop of `run`.
  unfoldable pub on_reply : WaitReply → List String → List String × Option String
  unfolding on_event mark_all_devices_unhealthy
  on_reply timed_out queue = (queue, none)
  on_reply gpu_is_lost queue = (mark_all_devices_unhealthy queue, none)
  on_reply other_error queue = (queue, none)
  on_reply (event e) queue = on_event e queue

-- `sending` is the notification that blocks the goroutine until the channel has room.
pub record Channel : Type 0 where
  pub queue : List String
  pub sending : Option String

abbrev pub channel_of : List String × Option String → Channel
channel_of (q, s) = record { queue = q; sending = s }

-- The steps of the goroutine, and `receive`, that of the driver.
pub data Step (m : HealthMonitor) (c : Channel) : Channel → Type 0 where
  wait : (r : WaitReply) → c.sending ≡ none → Step m c (channel_of (on_reply m r c.queue))
  send :
      (dev : String)
      → c.sending ≡ some dev
      → ltb (count c.queue) m.buffer ≡ true
      → Step m c (record { queue = c.queue ++ dev ∷ []; sending = none })
  receive : (dev : String) (q : List String) → c.queue ≡ dev ∷ q → Step m c (record c { queue = q })

pub data Reaches (m : HealthMonitor) : Channel → Channel → Type 0 where
  stays : {c : Channel} → Reaches m c c
  step : {c c' c'' : Channel} → Reaches m c c' → Step m c' c'' → Reaches m c c''

-- The channel when `run` starts.
abbrev pub registered_channel : HealthMonitor → (String → Bool) → Channel
registered_channel m registered = record {
  queue = register_events_for_devices m registered [];
  sending = none;
}
