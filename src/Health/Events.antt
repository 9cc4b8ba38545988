-- ===== src/Health/Events.antt =====
-- `deviceHealthEvents` of driver.go: what the driver does with a notification. The description of a
-- device (`GetDevice`) is left to the publication, whose error is only logged.
pub mod Published
use k8s_dra_driver.Common.{
  Bool, true, false, Option, none, some, List, [], ◌∷◌, String, if◌then◌else◌, Map, lookup, insert,
  Outcome, ok, err, panic, and_then, Exec,
}
use k8s_dra_driver.Devices.{unhealthy}
use k8s_dra_driver.Devices.Allocatable.{AllocatableDevice, device_uuid, is_healthy}
use k8s_dra_driver.State.Siblings.{update_device_health_status}

-- `heap` holds the devices under their pointers, `allocatable` the pointers in the map of the
-- DeviceState in the order of one loop, `published` the resources that `PublishResources` was called
-- with, the last first.
pub record Advertised : Type 0 where
  pub heap : Map AllocatableDevice
  pub allocatable : List String
  pub published : List (List String)

abbrev pub health_of : Option AllocatableDevice → Outcome Bool
health_of none = panic
health_of (some d) = and_then (device_uuid d) (λ _. is_healthy d)

-- The loop over the allocatable devices.
unfoldable pub healthy_devices : Map AllocatableDevice → List String → Outcome (List String)
unfolding lookup device_uuid is_healthy
healthy_devices heap [] = ok []
healthy_devices heap (k ∷ ks) =
    let rest = healthy_devices heap ks in
    and_then (health_of (lookup k heap)) (λ h. and_then rest (λ l. ok (if h then k ∷ l else l)))

abbrev pub mark_unhealthy :
    String → Option AllocatableDevice → Map AllocatableDevice → Map AllocatableDevice
mark_unhealthy k none heap = heap
mark_unhealthy k (some d) heap = insert k (update_device_health_status unhealthy d) heap

abbrev pub publish :
    Map AllocatableDevice → Advertised → Outcome (List String) → Outcome (Unit {0}) × Advertised
publish heap s (ok l) = (ok tt, record s { heap = heap; published = l ∷ s.published })
publish heap s (err e) = (err e, record s { heap = heap })
publish heap s panic = (panic, record s { heap = heap })

abbrev pub on_health : String → Advertised → Outcome Bool → Outcome (Unit {0}) × Advertised
on_health k s (ok false) = (ok tt, s)
on_health k s (ok true) =
    let heap = mark_unhealthy k (lookup k s.heap) s.heap in
    publish heap s (healthy_devices heap s.allocatable)
on_health k s (err e) = (err e, s)
on_health k s panic = (panic, s)

-- (d *driver) deviceHealthEvents, one notification
unfoldable pub device_health_event : String → Exec Advertised (Unit {0})
unfolding lookup insert update_device_health_status healthy_devices device_uuid is_healthy
device_health_event k s = on_health k s (health_of (lookup k s.heap))
