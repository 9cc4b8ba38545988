-- ===== src/Examples/Hami.antt =====
-- The properties of the HAMi-Core manager at concrete inputs.
use k8s_dra_driver.Common.{
  true, none, some, List, [], ◌∷◌, String, Map, lookup, insert, lookup-insert, ok_inj, some_inj, ap,
  sym, ◌∙◌, eq_iff, arith, ok, is_ok, pure, ◌≡◌, ◌⊎◌, refl, if◌then◌else◌,
}
use k8s_dra_driver.Kube.{Pod, Consumer, Quantity, AllocationResult, Allocation, ResourceClaim}
use k8s_dra_driver.HamiCore.Pods.{PodSource, PodClient, resolve_claim_to_pod}
use k8s_dra_driver.HamiCore.Pods.Laws.{Resolved, resolve_claim_to_pod-Resolved}
use k8s_dra_driver.HamiCore.Labelled.{IsClient, IsSource}
use k8s_dra_driver.HamiCore.Disk.{Disk, directory, not_a_directory, regular}
use k8s_dra_driver.HamiCore.Edits.{
  HamiNode, get_cdi_container_edits, get_consumable_capacity_map, capacity_at,
}
use k8s_dra_driver.HamiCore.Edits.Limits.{consumed, get_consumable_capacity_map-consumed}
use k8s_dra_driver.HamiCore.Edits.Preparation.{
  Touches, get_cdi_container_edits-Touches, unprepare_cache-get_cdi_container_edits,
}
use k8s_dra_driver.HamiCore.Release.{unprepare_cache}
use k8s_dra_driver.HamiCore.Release.Ownership.{at, owns}
use k8s_dra_driver.HamiCore.Release.Cache.{unprepare_cache-Spares, unprepare_cache-Clears}

abbrev pod : Pod
pod = record {
  name = "p1";
  namespace = "ns";
  uid = "pod1";
  resource_version = "1";
  node_name = "node1";
  labels = [];
  resource_claims =
      record { name = "gpu"; resource_claim_name = some "c1"; resource_claim_template_name = none }
      ∷ [];
  resource_claim_statuses = [];
  containers = record { name = "main"; claims = "gpu" ∷ [] } ∷ [];
  init_containers = [];
}

abbrev quantity : Quantity
quantity = record { as_int64 = none }

abbrev result : AllocationResult
result = record {
  request = "r";
  driver = "d";
  pool = "node1";
  device = "hami-gpu-0";
  admin_access = none;
  consumed_capacity = ("cores", quantity) ∷ [];
}

abbrev allocation : Allocation
allocation = record { results = result ∷ []; config = [] }

abbrev pod_claim : ResourceClaim
pod_claim = record {
  uid = "u1";
  name = "c1";
  namespace = "ns";
  status = record {
    allocation = some allocation;
    reserved_for = record { resource = "pods"; name = "p1"; uid = "pod1" } ∷ [];
  };
}

-- A client whose state is nothing and that knows the one pod.
abbrev source : PodSource (Unit {0})
source = record {
  lister = some (λ a ns name. ok pod);
  client = some (record { get = λ ns name. pure pod; patch_label = λ p l v. pure tt });
  retry_on_conflict = λ m. m;
}

abbrev disk : Disk
disk = record {
  containers = some (
      ("pod0_main", directory ((".claim-u1", regular) ∷ []))
      ∷ ("pod2_main", directory (("u2.cache", regular) ∷ []))
      ∷ ("readme", not_a_directory)
      ∷ []);
  legacy = ("u1", directory []) ∷ [];
  replies = [];
}

abbrev node : HamiNode (Unit {0})
node = record { client_state = tt; disk = disk }

unprepare_cache-Spares_example : at "pod2_main" (unprepare_cache "u1" disk).1 ≡ at "pod2_main" disk
unfolding lookup
unprepare_cache-Spares_example = unprepare_cache-Spares "u1" "pod2_main" disk refl

unprepare_cache-Clears_example :
    ((k : String)
      → at k (unprepare_cache "u1" disk).1 ≡ (if owns "u1" (at k disk) then none else at k disk))
    × (lookup "u1" (unprepare_cache "u1" disk).1.legacy ≡ none)
unfolding unprepare_cache lookup
unprepare_cache-Clears_example = unprepare_cache-Clears "u1" disk refl

-- A client whose state is the labels of the one pod.
abbrev live_pod : String → String → Map String → Pod
live_pod ns name labels = record pod { namespace = ns; name = name; labels = labels }

abbrev labelling_client : PodClient (Map String)
labelling_client = record {
  get = λ ns name s. (ok (live_pod ns name s), s);
  patch_label = λ p l v s. (ok tt, insert l v s);
}

abbrev labelling_source : PodSource (Map String)
labelling_source = record {
  lister = some (λ a ns name. ok (live_pod ns name a));
  client = some labelling_client;
  retry_on_conflict = λ m. m;
}

labelling_client-IsClient : IsClient labelling_client
labelling_client-IsClient = record {
  stored = λ ns name s. some (live_pod ns name s);
  got = λ ns name p s s' e.
      let same_pod : live_pod ns name s ≡ p = ok_inj _ p (ap (λ q. q.0) e) in
      (
        ap (λ p. p.namespace) (sym same_pod),
        ap (λ p. p.name) (sym same_pod),
        ap (λ q. some (live_pod ns name q.1)) (sym e) ∙ ap some same_pod,
      );
  patched = λ p l v s s' there e.
      let same_pod : live_pod p.namespace p.name s ≡ p = some_inj _ p there in
      (
        live_pod p.namespace p.name s',
        refl,
        ap (λ p. p.uid) same_pod,
        ap (λ p. p.node_name) same_pod,
        ap (λ q. lookup l q.1) (sym e) ∙ lookup-own l v s,
      );
}
  where
    lookup-own : (l v : String) (s : Map String) → lookup l (insert l v s) ≡ some v
    lookup-own l v s = lookup-insert l l v s ∙ ground (arith, eq_iff l l)

labelling_source-IsSource : IsSource labelling_source labelling_client
labelling_source-IsSource = record {
  has_client = refl;
  is_client = labelling_client-IsClient;
  retried = λ Q m h. h;
}

abbrev labelling_node : HamiNode (Map String)
labelling_node = record { client_state = []; disk = disk }

get_cdi_container_edits-Touches_example :
    (at "pod1_main"
        (get_cdi_container_edits labelling_source "node1" "/usr/local" pod_claim []
          labelling_node).1.disk
      ≡ at "pod1_main" disk)
    ⊎ ((target : Pod × String) × (a : Map String) × (resolve_claim_to_pod labelling_source "node1"
            pod_claim []
          ≡ (ok target, a))
        × Touches labelling_source labelling_client labelling_source-IsSource "node1" "/usr/local"
            pod_claim [] "pod1_main" target a)
get_cdi_container_edits-Touches_example =
    get_cdi_container_edits-Touches labelling_source labelling_client labelling_source-IsSource
      "node1" "/usr/local" pod_claim [] "pod1_main" labelling_node

unprepare_cache-get_cdi_container_edits_example :
    let p = get_cdi_container_edits source "node1" "/usr/local" pod_claim [] node in
    (owns "u1" (at "pod1_main" p.1.disk) ≡ true)
    × (is_ok (unprepare_cache "u1" p.1.disk).0 ≡ true
        → at "pod1_main" (unprepare_cache "u1" p.1.disk).1 ≡ none)
unfolding get_cdi_container_edits resolve_claim_to_pod
unprepare_cache-get_cdi_container_edits_example =
    unprepare_cache-get_cdi_container_edits source "node1" "/usr/local" pod_claim [] (pod, "main")
      node refl refl

resolve_claim_to_pod-Resolved_example :
    (consumer : Consumer) × (rest : List Consumer) × (pod_claim.status.reserved_for
      ≡ consumer ∷ rest)
    × (consumer.resource ≡ "pods")
    × Resolved "node1" pod_claim consumer (pod, "main")
unfolding resolve_claim_to_pod
resolve_claim_to_pod-Resolved_example =
    resolve_claim_to_pod-Resolved source "node1" pod_claim tt tt (pod, "main") refl

get_consumable_capacity_map-consumed_example :
    (m : Map (Map Quantity)) × (get_consumable_capacity_map pod_claim ≡ ok m)
    × (lookup "cores" (capacity_at "hami-gpu-0" m) ≡ consumed "hami-gpu-0" "cores" (result ∷ []))
unfolding lookup
get_consumable_capacity_map-consumed_example =
    get_consumable_capacity_map-consumed pod_claim allocation "hami-gpu-0" "cores" refl
      ((refl, tt), tt)
