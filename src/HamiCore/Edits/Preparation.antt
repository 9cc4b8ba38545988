-- ===== src/HamiCore/Edits/Preparation.antt =====
-- `GetCDIContainerEdits` and a later `Unprepare` of the same claim, as they act on vgpu/containers.
use k8s_dra_driver.Common.{
  true, false, Bool-cases, none, String, ◌==◌, eq_iff, Outcome, ok, is_ok, Exec, ◌>>=◌, lift,
  Ensures, chain-Ensures, chain-cases, if◌then◌else◌, ◌≡◌, ◌≢◌, refl, ap, sym, ◌∙◌, subst, ◌⊎◌, inl,
  inr,
}
use k8s_dra_driver.Kube.{Pod, ResourceClaim}
use k8s_dra_driver.Devices.Allocatable.{AllocatableDevices}
use k8s_dra_driver.HamiCore.Pods.{PodSource, PodClient, resolve_claim_to_pod}
use k8s_dra_driver.HamiCore.Labels.{ensure_pod_monitor_label}
use k8s_dra_driver.HamiCore.Labelled.{IsSource, Labelled, ensure-Labelled}
use k8s_dra_driver.HamiCore.Edits.{
  HamiNode, on_client, on_disk, cache_name, make_cache, env_steps, edits_for,
  get_cdi_container_edits, get_consumable_capacity_map, devices_env,
}
use k8s_dra_driver.HamiCore.Edits.Cache.{Holds, make_cache-Holds, make_cache-Confined}
use k8s_dra_driver.HamiCore.Release.{unprepare_cache}
use k8s_dra_driver.HamiCore.Release.Ownership.{at, owns}
use k8s_dra_driver.HamiCore.Release.Cache.{unprepare_cache-Clears}

-- A call that changes no state.
abbrev Pure : {S A : Type 0} → Exec S A → Type 0
Pure {S} m = (s : S) → (m s).1 ≡ s

lift-Pure :
    {S A B : Type 0} (r : Outcome A) (f : A → Exec S B)
    → ((a : A) → Pure (f a))
    → Pure (lift r >>= f)
lift-Pure r f h s =
    chain-cases (lift r) f (λ p. p.1 ≡ s) s (λ a s' e. h a s' ∙ ap (λ p. p.1) (sym e))
      (λ r s' b e b'. sym e)

before-Pure :
    {S A B : Type 0} (Q : S → Type 0) (m : Exec S A) (f : A → Exec S B)
    → Ensures Q m
    → ((a : A) → Pure (f a))
    → Ensures Q (m >>= f)
before-Pure Q m f hm hf s =
    chain-cases m f (λ p. is_ok p.0 ≡ true → Q p.1) s
      (λ a s' e b. subst Q (sym (hf a s')) (subst (λ p. is_ok p.0 ≡ true → Q p.1) e (hm s) refl))
      (λ r s' b e b' c. cc)

before-same :
    {S A B X : Type 0} (g : S → X) (m : Exec S A) (f : A → Exec S B) (s : S)
    → g (m s).1 ≡ g s
    → ((a : A) → Pure (f a))
    → g ((m >>= f) s).1 ≡ g s
before-same g m f s hm hf =
    chain-cases m f (λ p. g p.1 ≡ g s) s (λ a s' e. ap g (hf a s') ∙ ap (λ p. g p.1) (sym e) ∙ hm)
      (λ r s' b e b'. ap g (sym e) ∙ hm)

differ : (j k : String) → (j == k) ≡ false → j ≢ k
differ j k q n = cc (q, (eq_iff j k).1 n)

same_target : (t u : Pod × String) → ok t ≡ ok u → t ≡ u
same_target t u e = cc

-- What may change an entry: the labelling of the pod returns no error and the entry is that of the
-- pod's container.
abbrev Reached : {A : Type 0} → PodSource A → String → A → String → Pod × String → Type 0
Reached source node a k target =
    (is_ok (ensure_pod_monitor_label source node target.0 a).0 ≡ true) × (cache_name target ≡ k)

module _ {A : Type 0} (source : PodSource A) (node host_hook_path : String) (claim : ResourceClaim)
    (devices : AllocatableDevices) where
  env_steps-Pure :
      (target : Pod × String) → Pure (env_steps source node host_hook_path claim devices target)
  env_steps-Pure target =
      lift-Pure (get_consumable_capacity_map claim) _
        λ caps. lift-Pure (devices_env caps 0 devices) _ λ env s. refl

  edits_for-Holds :
      (target : Pod × String)
      → Ensures
          (λ s. Holds (cache_name target) claim.uid s.disk)
          (edits_for source node host_hook_path claim devices target)
  unfolding edits_for
  edits_for-Holds target =
      chain-Ensures (λ s. Holds (cache_name target) claim.uid s.disk)
        (on_client (ensure_pod_monitor_label source node target.0)) _
        (λ _.
          before-Pure (λ s. Holds (cache_name target) claim.uid s.disk)
            (on_disk (make_cache (cache_name target) claim.uid)) _
            (λ s b. make_cache-Holds (cache_name target) claim.uid s.disk b)
            (λ _. env_steps-Pure target))

  edits_for-Reached :
      (target : Pod × String) (k : String) (s : HamiNode A)
      → (at k (edits_for source node host_hook_path claim devices target s).1.disk ≡ at k s.disk)
        ⊎ Reached source node s.client_state k target
  unfolding edits_for
  edits_for-Reached target k s =
      chain-cases (on_client (ensure_pod_monitor_label source node target.0)) _
        (λ p. (at k p.1.disk ≡ at k s.disk) ⊎ Reached source node s.client_state k target) s
        (λ a s' e. elim (Bool-cases (cache_name target == k)) [
          | inl q ↦ inr (ap (λ p. is_ok p.0) e, (eq_iff (cache_name target) k).0 q)
          | inr q ↦ inl (
              before-same (λ s. at k s.disk) (on_disk (make_cache (cache_name target) claim.uid)) _
                s'
                (make_cache-Confined (cache_name target) claim.uid s'.disk k
                  (differ (cache_name target) k q))
                (λ _. env_steps-Pure target)
              ∙ ap (λ p. at k p.1.disk) (sym e))
        ])
        (λ r s' b e b'. inl (ap (λ s. at k s.disk) (sym e)))

  edits-Reached :
      (k : String) (s : HamiNode A)
      → (at k (get_cdi_container_edits source node host_hook_path claim devices s).1.disk
          ≡ at k s.disk)
        ⊎ ((target : Pod × String) × (a : A) × (resolve_claim_to_pod source node claim
                s.client_state
              ≡ (ok target, a))
            × Reached source node a k target)
  unfolding get_cdi_container_edits
  edits-Reached k s =
      chain-cases (on_client (resolve_claim_to_pod source node claim)) _
        (λ p.
          (at k p.1.disk ≡ at k s.disk)
          ⊎ ((target : Pod × String) × (a : A) × (resolve_claim_to_pod source node claim
                  s.client_state
                ≡ (ok target, a))
              × Reached source node a k target))
        s
        (λ target s' e. elim (edits_for-Reached target k s') [
          | inl same ↦ inl (same ∙ ap (λ p. at k p.1.disk) (sym e))
          | inr reached ↦
              inr (target, s'.client_state, ap (λ p. (p.0, p.1.client_state)) e, reached)
        ])
        (λ r s' b e b'. inl (ap (λ s. at k s.disk) (sym e)))

  edits-Holds :
      (target : Pod × String) (s : HamiNode A)
      → (resolve_claim_to_pod source node claim s.client_state).0 ≡ ok target
      → is_ok (get_cdi_container_edits source node host_hook_path claim devices s).0 ≡ true
      → Holds
          (cache_name target)
          claim.uid
          (get_cdi_container_edits source node host_hook_path claim devices s).1.disk
  unfolding get_cdi_container_edits
  edits-Holds target s resolved =
      chain-cases (on_client (resolve_claim_to_pod source node claim)) _
        (λ p. is_ok p.0 ≡ true → Holds (cache_name target) claim.uid p.1.disk) s
        (λ t s' e b.
          subst
            (λ u.
              Holds (cache_name u) claim.uid
                (edits_for source node host_hook_path claim devices t s').1.disk)
            (same_target t target (ap (λ p. p.0) (sym e) ∙ resolved)) (edits_for-Holds t s' b))
        (λ r s' b e b' c. cc)

  -- Preparation, then release: where `GetCDIContainerEdits` returns no error for a claim that resolves
  -- to a pod and a container, the directory of that container is the claim's own, and an `Unprepare`
  -- of the claim that returns no error removes it.
  pub unprepare_cache-get_cdi_container_edits :
      (target : Pod × String) (s : HamiNode A)
      → (resolve_claim_to_pod source node claim s.client_state).0 ≡ ok target
      → let p = get_cdi_container_edits source node host_hook_path claim devices s in
        is_ok p.0 ≡ true
        → (owns claim.uid (at (cache_name target) p.1.disk) ≡ true)
          × (is_ok (unprepare_cache claim.uid p.1.disk).0 ≡ true
              → at (cache_name target) (unprepare_cache claim.uid p.1.disk).1 ≡ none)
  unprepare_cache-get_cdi_container_edits target s resolved b =
      let owned = edits-Holds target s resolved b in
      (
        owned,
        λ c.
            (unprepare_cache-Clears claim.uid _ c).0 (cache_name target)
            ∙ ap
                (λ t.
                  if t
                  then none
                  else at (cache_name target)
                      (get_cdi_container_edits source node host_hook_path claim devices s).1.disk)
                owned,
      )

module _ {A : Type 0} (source : PodSource A) (c : PodClient A) (laws : IsSource source c)
    (node host_hook_path : String) (claim : ResourceClaim) (devices : AllocatableDevices) where
  -- The labelling that precedes a change of the entry of a container, from a state of the API server:
  -- it returns no error, and the API server then has the pod with its label.
  abbrev pub Touches : String → Pod × String → A → Type 0
  Touches k target a =
      let p = ensure_pod_monitor_label source node target.0 a in
      (is_ok p.0 ≡ true) × Labelled source c laws node target.0 p.1 × (cache_name target ≡ k)

  -- An entry of vgpu/containers changes only if the claim has been resolved to a pod and a container,
  -- the entry is the one named after them, and the labelling of this pod has returned no error: the
  -- API server then has a pod of this name, with the UID of the pod that the claim resolved to, on
  -- this node, whose label for the monitor is the name of the node. When the resolution or the
  -- labelling fails no entry changes, and no call touches the entry of another container.
  pub get_cdi_container_edits-Touches :
      (k : String) (s : HamiNode A)
      → (at k (get_cdi_container_edits source node host_hook_path claim devices s).1.disk
          ≡ at k s.disk)
        ⊎ ((target : Pod × String) × (a : A) × (resolve_claim_to_pod source node claim
                s.client_state
              ≡ (ok target, a))
            × Touches k target a)
  get_cdi_container_edits-Touches k s =
      elim (edits-Reached source node host_hook_path claim devices k s) [
        | inl same ↦ inl same
        | inr (target, a, e, (b, name)) ↦
            inr (target, a, e, (b, ensure-Labelled source c laws node target.0 a b, name))
      ]
