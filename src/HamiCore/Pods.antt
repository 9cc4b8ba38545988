-- ===== src/HamiCore/Pods.antt =====
-- `resolveClaimToPod` of hami_core.go and what it calls. The cache of the informer and the client of
-- the API server are parameters.
pub mod Laws
use k8s_dra_driver.Common.{
  Bool, true, false, not, ◌||◌, Option, none, some, List, [], ◌∷◌, String, ◌==◌, if◌then◌else◌,
  contains, Outcome, ok, err, panic, Fault, not_found, failure, and_then, Exec, ◌>>=◌, ◌>>◌, pure,
  raise, lift,
}
use k8s_dra_driver.Kube.{Pod, PodClaim, PodClaimStatus, Container, Consumer, ResourceClaim}

-- *name == s, for a pointer that is not nil.
abbrev pub points_to : Option String → String → Bool
points_to none s = false
points_to (some t) s = t == s

-- The inner loop of `podClaimAliasForResourceClaim`.
unfoldable pub has_status : String → String → List PodClaimStatus → Bool
has_status name claim_name [] = false
has_status name claim_name (s ∷ ss) =
    let rest = has_status name claim_name ss in
    if s.name == name
    then if points_to s.resource_claim_name claim_name then true else rest
    else rest

abbrev pub references : List PodClaimStatus → String → PodClaim → Bool
references statuses claim_name c =
    if points_to c.resource_claim_name claim_name
    then true
    else elim c.resource_claim_template_name [
      | none ↦ false
      | some _ ↦ has_status c.name claim_name statuses
    ]

unfoldable pub find_alias : List PodClaimStatus → String → List PodClaim → Outcome String
unfolding has_status
find_alias statuses claim_name [] = err (failure "pod does not reference ResourceClaim")
find_alias statuses claim_name (c ∷ cs) =
    let rest = find_alias statuses claim_name cs in
    if references statuses claim_name c then ok c.name else rest

unfoldable pub pod_claim_alias_for_resource_claim : Pod → String → Outcome String
unfolding find_alias
pod_claim_alias_for_resource_claim pod claim_name =
    find_alias pod.resource_claim_statuses claim_name pod.resource_claims

unfoldable pub container_name_for_pod_claim_alias : List Container → String → String
unfolding contains
container_name_for_pod_claim_alias [] claim_alias = ""
container_name_for_pod_claim_alias (c ∷ cs) claim_alias =
    if contains claim_alias c.claims
    then c.name
    else container_name_for_pod_claim_alias cs claim_alias

-- The calls on Pods of the client of the API server; a namespace comes before a name. `patch_label`
-- sends the merge patch with the pod's UID and resource version that sets one label.
pub record PodClient (A : Type 0) : Type 0 where
  pub get : String → String → Exec A Pod
  pub patch_label : Pod → String → String → Exec A (Unit {0})

-- `lister` reads the cache of the informer; both are nil where the manager has no client.
-- `retry_on_conflict` is `retry.RetryOnConflict` with its default backoff.
pub record PodSource (A : Type 0) : Type 0 where
  pub lister : Option (A → String → String → Outcome Pod)
  pub client : Option (PodClient A)
  pub retry_on_conflict : Exec A (Unit {0}) → Exec A (Unit {0})

-- The regular containers come before the init containers.
abbrev pub container_for : Pod → String → String
container_for pod claim_alias =
    let regular = container_name_for_pod_claim_alias pod.containers claim_alias in
    if regular == ""
    then container_name_for_pod_claim_alias pod.init_containers claim_alias
    else regular

-- What follows once the alias is known.
abbrev pub named_container : Pod → String → Outcome (Pod × String)
named_container pod claim_alias =
    let name = container_for pod claim_alias in
    if name == ""
    then err (failure "no container in pod references PodResourceClaim")
    else ok (pod, name)

-- The tests on the pod that was found.
unfoldable pub check_pod : String → ResourceClaim → Consumer → Pod → Outcome (Pod × String)
unfolding pod_claim_alias_for_resource_claim container_name_for_pod_claim_alias
check_pod node claim consumer pod =
    if not (pod.uid == consumer.uid)
    then err (failure "pod UID does not match claim consumer UID")
    else if node == "" || not (pod.node_name == node)
    then err (failure "pod is assigned to another node")
    else and_then (pod_claim_alias_for_resource_claim pod claim.name) (named_container pod)

module _ {A : Type 0} (source : PodSource A) (node : String) where
  open source use {lister, client}

  -- The live lookup, where the cache knows no such pod.
  abbrev pub fall_back : Option (PodClient A) → String → String → Outcome Pod → Exec A Pod
  fall_back (some c) ns name (err (not_found m)) = c.get ns name
  fall_back none ns name (err (not_found m)) = lift (err (not_found m))
  fall_back o ns name (err (failure m)) = lift (err (failure m))
  fall_back o ns name (ok pod) = pure pod
  fall_back o ns name panic = lift panic

  abbrev pub resolve_consumer :
      (A → String → String → Outcome Pod) → ResourceClaim → List Consumer → Exec A (Pod × String)
  resolve_consumer cached claim [] = raise "claim has no ReservedFor entries"
  resolve_consumer cached claim (c ∷ _) =
      if not (c.resource == "pods")
      then raise "claim reservedFor[0] is not a Pod"
      else ((λ a. fall_back client claim.namespace c.name (cached a claim.namespace c.name) a)
          >>= λ pod. lift (check_pod node claim c pod))

  abbrev pub resolve_with :
      ResourceClaim → Option (A → String → String → Outcome Pod) → Exec A (Pod × String)
  resolve_with claim none = raise "pod lister not initialized"
  resolve_with claim (some cached) = resolve_consumer cached claim claim.status.reserved_for

  -- (m *HAMiCoreManager) resolveClaimToPod
  unfoldable pub resolve_claim_to_pod : ResourceClaim → Exec A (Pod × String)
  unfolding check_pod
  resolve_claim_to_pod claim = resolve_with claim lister
