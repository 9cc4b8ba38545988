-- ===== src/Checkpoint/Idempotent.antt =====
-- What was read back once stays as it is when it is written and read back again.
use k8s_dra_driver.Common.{Option, none, some, [], ◌∷◌, Map, map_values, ◌≡◌, refl, ap, ap₂}
use k8s_dra_driver.Devices.Prepared.{
  PreparedDevice, PreparedDeviceList, PreparedDevices, PreparedDeviceGroup,
}
use k8s_dra_driver.Checkpoint.{
  Checkpoint, CheckpointV1, CheckpointV2, PreparedClaim, PreparedClaimV1,
}
use k8s_dra_driver.Checkpoint.Persist.{
  persist, persist_v1, persist_v2, persist_claim, persist_claim_v1, persist_map, persist_groups,
  persist_list, persist_device, persist_gpu_info, persist_vfio_info, on_pointer, persist_hami,
  persist_gpu, persist_vfio,
}

on_pointer-on_pointer :
    {A : Type 0} (f : A → A) (o : Option A)
    → ((a : A) → f (f a) ≡ f a)
    → on_pointer f (on_pointer f o) ≡ on_pointer f o
on_pointer-on_pointer f none h = refl
on_pointer-on_pointer f (some a) h = ap some (h a)

device_again : (d : PreparedDevice) → persist_device (persist_device d) ≡ persist_device d
unfolding persist_device persist_gpu_info persist_vfio_info
device_again d i = record {
  hami_gpu = on_pointer-on_pointer persist_hami d.hami_gpu (λ a. refl) i;
  gpu = on_pointer-on_pointer persist_gpu d.gpu (λ a. refl) i;
  mig = d.mig;
  vfio = on_pointer-on_pointer persist_vfio d.vfio (λ a. refl) i;
}

list_again : (l : PreparedDeviceList) → persist_list (persist_list l) ≡ persist_list l
unfolding persist_list
list_again [] = refl
list_again (d ∷ l) = ap₂ ◌∷◌ (device_again d) (list_again l)

group : PreparedDeviceGroup → PreparedDeviceList → PreparedDeviceGroup
group g l = record { devices = l; config_state = record g.config_state { container_edits = none } }

pub groups_again : (d : PreparedDevices) → persist_groups (persist_groups d) ≡ persist_groups d
unfolding persist_groups group
groups_again [] = refl
groups_again (g ∷ gs) = ap₂ ◌∷◌ (ap (λ l. group g l) (list_again g.devices)) (groups_again gs)

claim_again : (c : PreparedClaim) → persist_claim (persist_claim c) ≡ persist_claim c
unfolding persist_claim
claim_again c i = record c { prepared_devices = groups_again c.prepared_devices i }

claim_v1_again : (c : PreparedClaimV1) → persist_claim_v1 (persist_claim_v1 c) ≡ persist_claim_v1 c
unfolding persist_claim_v1
claim_v1_again c i = record c { prepared_devices = groups_again c.prepared_devices i }

values_again :
    {V : Type 0} (f : V → V) (m : Map V)
    → ((v : V) → f (f v) ≡ f v)
    → map_values f (map_values f m) ≡ map_values f m
unfolding map_values
values_again f [] h i = []
values_again f ((k, v) ∷ m) h i = (k, h v i) ∷ values_again f m h i

map_again :
    {V : Type 0} (f : V → V) (m : Option (Map V))
    → ((v : V) → f (f v) ≡ f v)
    → persist_map f (persist_map f m) ≡ persist_map f m
unfolding map_values
map_again f none h i = none
map_again f (some []) h i = none
map_again f (some ((k, v) ∷ m)) h i = some ((k, h v i) ∷ values_again f m h i)

pub v2_again : (v : CheckpointV2) → persist_v2 (persist_v2 v) ≡ persist_v2 v
unfolding persist_v2
v2_again v i = record v {
  prepared_claims = map_again persist_claim v.prepared_claims claim_again i;
}

v1_again : (v : CheckpointV1) → persist_v1 (persist_v1 v) ≡ persist_v1 v
unfolding persist_v1
v1_again v i = record v {
  prepared_claims = map_again persist_claim_v1 v.prepared_claims claim_v1_again i;
}

-- Writing and reading back a checkpoint that was read back changes nothing.
pub persist-persist : (c : Checkpoint) → persist (persist c) ≡ persist c
unfolding persist
persist-persist c i = record {
  checksum = c.checksum;
  v1 = on_pointer-on_pointer persist_v1 c.v1 v1_again i;
  v2 = on_pointer-on_pointer persist_v2 c.v2 v2_again i;
}
