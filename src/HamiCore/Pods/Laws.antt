-- ===== src/HamiCore/Pods/Laws.antt =====
-- What `resolveClaimToPod` promises of the pod and the container that it returns.
use k8s_dra_driver.Common.{
  ok_inj, Bool, true, false, not, ◌||◌, Option, none, some, List, [], ◌∷◌, ◌++◌, String, ◌==◌,
  eq_iff, if◌then◌else◌, contains, Outcome, ok, err, panic, failure, and_then-eq-ok, Exec, next,
  raise, ◌>>=◌, lift, ◌≡◌, ◌≢◌, refl, ap, sym, subst, inl, inr, ◌⊎◌, arith,
}
use k8s_dra_driver.Kube.{Pod, PodClaim, PodClaimStatus, Container, Consumer, ResourceClaim}
use k8s_dra_driver.HamiCore.Pods.{
  PodSource, references, find_alias, container_name_for_pod_claim_alias, container_for,
  named_container, check_pod, fall_back, resolve_consumer, resolve_with, resolve_claim_to_pod,
  pod_claim_alias_for_resource_claim,
}

-- An element of a list that has a property.
pub data Any {A : Type 0} (P : A → Type 0) : List A → Type 0 where
  here : {x : A} {xs : List A} → P x → Any P (x ∷ xs)
  there : {x : A} {xs : List A} → Any P xs → Any P (x ∷ xs)

Any-left : {A : Type 0} {P : A → Type 0} (xs ys : List A) → Any P xs → Any P (xs ++ ys)
Any-left [] ys a = elim a [ ]
Any-left (x ∷ xs) ys (here p) = here p
Any-left (x ∷ xs) ys (there a) = there (Any-left xs ys a)

Any-right : {A : Type 0} {P : A → Type 0} (xs ys : List A) → Any P ys → Any P (xs ++ ys)
Any-right [] ys a = a
Any-right (x ∷ xs) ys a = there (Any-right xs ys a)

-- A test that guards a result.
guarded :
    {A : Type 0} (b : Bool) (x y : A) {z : A}
    → (if b then x else y) ≡ z
    → (b ≡ true × x ≡ z) ⊎ (b ≡ false × y ≡ z)
guarded true x y e = inl (refl, e)
guarded false x y e = inr (refl, e)

-- A claim of the pod that stands for the ResourceClaim, under an alias.
abbrev pub IsAlias : List PodClaimStatus → String → String → PodClaim → Type 0
IsAlias statuses claim_name alias_name c =
    (references statuses claim_name c ≡ true) × (c.name ≡ alias_name)

-- A container of a name that asks for a claim.
abbrev pub Asks : String → String → Container → Type 0
Asks alias_name name c = (contains alias_name c.claims ≡ true) × (c.name ≡ name)

find_alias-IsAlias :
    (statuses : List PodClaimStatus) (claim_name alias_name : String) (cs : List PodClaim)
    → find_alias statuses claim_name cs ≡ ok alias_name
    → Any (IsAlias statuses claim_name alias_name) cs
unfolding find_alias
find_alias-IsAlias statuses claim_name alias_name [] h = cc
find_alias-IsAlias statuses claim_name alias_name (c ∷ cs) h =
    elim (guarded (references statuses claim_name c) (ok c.name) (find_alias statuses claim_name cs)
      h) [
        | inl (q, e) ↦ here (q, ok_inj c.name alias_name e)
        | inr (q, e) ↦ there (find_alias-IsAlias statuses claim_name alias_name cs e)
      ]

container-Asks :
    (cs : List Container) (alias_name name : String)
    → container_name_for_pod_claim_alias cs alias_name ≡ name
    → name ≢ ""
    → Any (Asks alias_name name) cs
unfolding container_name_for_pod_claim_alias
container-Asks [] alias_name name e n = elim (n (sym e)) [ ]
container-Asks (c ∷ cs) alias_name name e n =
    elim (guarded (contains alias_name c.claims) c.name
      (container_name_for_pod_claim_alias cs alias_name) e) [
        | inl (q, e) ↦ here (q, e)
        | inr (q, e) ↦ there (container-Asks cs alias_name name e n)
      ]

container_for-Asks :
    (pod : Pod) (alias_name name : String)
    → container_for pod alias_name ≡ name
    → name ≢ ""
    → Any (Asks alias_name name) (pod.containers ++ pod.init_containers)
container_for-Asks pod alias_name name e n =
    let regular = container_name_for_pod_claim_alias pod.containers alias_name in
    elim (guarded (regular == "")
      (container_name_for_pod_claim_alias pod.init_containers alias_name) regular e) [
        | inl (q, e) ↦
            Any-right pod.containers _ (container-Asks pod.init_containers alias_name name e n)
        | inr (q, e) ↦ Any-left pod.containers _ (container-Asks pod.containers alias_name name e n)
      ]

-- A chain that succeeds: its first call does, and so does the rest.
next-ok :
    {S A B : Type 0} (p : Outcome A × S) (f : A → Exec S B) (b : B) (s' : S)
    → next p f ≡ (ok b, s')
    → (a : A) × (s : S) × (f a s ≡ (ok b, s'))
next-ok (ok a, s) f b s' e = (a, s, e)
next-ok (err x, s) f b s' e = cc
next-ok (panic, s) f b s' e = cc

guarded_call :
    {S A : Type 0} (b : Bool) (m n : Exec S A) (s : S) {z : Outcome A × S}
    → (if b then m else n) s ≡ z
    → (b ≡ true × m s ≡ z) ⊎ (b ≡ false × n s ≡ z)
guarded_call true m n s e = inl (refl, e)
guarded_call false m n s e = inr (refl, e)

-- The pod is the consumer's, on this node; one of its claims stands for the ResourceClaim, and the
-- container asks for it.
abbrev pub Resolved : String → ResourceClaim → Consumer → Pod × String → Type 0
Resolved node claim consumer (pod, name) =
    (pod.uid ≡ consumer.uid)
    × (pod.node_name ≡ node)
    × ((alias_name : String) × Any (IsAlias pod.resource_claim_statuses claim.name alias_name)
          pod.resource_claims
        × Any (Asks alias_name name) (pod.containers ++ pod.init_containers))

named_container-Resolved :
    (node : String) (claim : ResourceClaim) (consumer : Consumer) (pod : Pod) (alias_name : String)
    (target : Pod × String)
    → pod.uid ≡ consumer.uid
    → pod.node_name ≡ node
    → find_alias pod.resource_claim_statuses claim.name pod.resource_claims ≡ ok alias_name
    → named_container pod alias_name ≡ ok target
    → Resolved node claim consumer target
named_container-Resolved node claim consumer pod alias_name target u w found e =
    elim (guarded (container_for pod alias_name == "")
      (err (failure "no container in pod references PodResourceClaim"))
      (ok (pod, container_for pod alias_name)) e) [
        | inl (q, e) ↦ cc
        | inr (q, e) ↦ subst (Resolved node claim consumer) (ok_inj _ target e) (
          u,
          w,
          (
            alias_name,
            find_alias-IsAlias pod.resource_claim_statuses claim.name alias_name pod.resource_claims
                found,
            container_for-Asks pod alias_name _ refl
                (λ n. cc (q, (eq_iff (container_for pod alias_name) "").1 n)),
          ),
        )
      ]

equal_of : (a b : String) → not (a == b) ≡ false → a ≡ b
equal_of a b e = ground (arith, eq_iff a b)

equal_second : (a b c : String) → (a == "" || not (b == c)) ≡ false → b ≡ c
equal_second a b c e = ground (arith, eq_iff b c)

check_pod-Resolved :
    (node : String) (claim : ResourceClaim) (consumer : Consumer) (pod : Pod)
    (target : Pod × String)
    → check_pod node claim consumer pod ≡ ok target
    → Resolved node claim consumer target
unfolding check_pod pod_claim_alias_for_resource_claim
check_pod-Resolved node claim consumer pod target e =
    elim (guarded (not (pod.uid == consumer.uid)) _ _ e) [
      | inl (q, e) ↦ cc
      | inr (q, e) ↦ elim (guarded (node == "" || not (pod.node_name == node)) _ _ e) [
        | inl (r, e) ↦ cc
        | inr (r, e) ↦
            let (alias_name, found, e) = and_then-eq-ok _ (named_container pod) e in
            named_container-Resolved node claim consumer pod alias_name target
              (equal_of pod.uid consumer.uid q) (equal_second node pod.node_name node r) found e
      ]
    ]

module _ {A : Type 0} (source : PodSource A) (node : String) where
  consumer-Resolved :
      (cached : A → String → String → Outcome Pod) (claim : ResourceClaim)
      (consumers : List Consumer) (a a' : A) (target : Pod × String)
      → resolve_consumer source node cached claim consumers a ≡ (ok target, a')
      → (consumer : Consumer) × (rest : List Consumer) × (consumers ≡ consumer ∷ rest)
        × (consumer.resource ≡ "pods")
        × Resolved node claim consumer target
  consumer-Resolved cached claim [] a a' target e = cc
  consumer-Resolved cached claim (c ∷ cs) a a' target e =
      let found : Exec A Pod = λ a.
        fall_back source node source.client claim.namespace c.name (cached a claim.namespace c.name)
          a in
      elim (guarded_call (not (c.resource == "pods")) (raise "claim reservedFor[0] is not a Pod")
        (found >>= λ pod. lift (check_pod node claim c pod)) a e) [
          | inl (q, e) ↦ cc
          | inr (q, e) ↦
              let (pod, s, e) =
                next-ok (found a) (λ pod. lift (check_pod node claim c pod)) target a' e in
              (
                c,
                cs,
                refl,
                equal_of c.resource "pods" q,
                check_pod-Resolved node claim c pod target (ap (λ p. p.0) e),
              )
        ]

  resolved :
      (o : Option (A → String → String → Outcome Pod)) (claim : ResourceClaim) (a a' : A)
      (target : Pod × String)
      → resolve_with source node claim o a ≡ (ok target, a')
      → (consumer : Consumer) × (rest : List Consumer) × (claim.status.reserved_for
          ≡ consumer ∷ rest)
        × (consumer.resource ≡ "pods")
        × Resolved node claim consumer target
  resolved none claim a a' target e = cc
  resolved (some cached) claim a a' target e =
      consumer-Resolved cached claim claim.status.reserved_for a a' target e

  -- What `resolveClaimToPod` returns, it returns for the first consumer of the claim, which is a pod:
  -- the returned pod has the UID of that consumer and stands on this node, one of its claims
  -- refers to the ResourceClaim, by name or through its status, and the returned container, regular
  -- or init, asks for that claim.
  pub resolve_claim_to_pod-Resolved :
      (claim : ResourceClaim) (a a' : A) (target : Pod × String)
      → resolve_claim_to_pod source node claim a ≡ (ok target, a')
      → (consumer : Consumer) × (rest : List Consumer) × (claim.status.reserved_for
          ≡ consumer ∷ rest)
        × (consumer.resource ≡ "pods")
        × Resolved node claim consumer target
  unfolding resolve_claim_to_pod
  resolve_claim_to_pod-Resolved claim a a' target e = resolved source.lister claim a a' target e
