-- ===== src/HamiCore/Labelled.antt =====
-- What `ensurePodMonitorLabel` leaves on the API server when it returns no error.
use k8s_dra_driver.Common.{
  true, false, not, if_cases, Option, none, some, String, ◌==◌, eq_iff, lookup, Outcome, ok, err,
  panic, is_ok, Exec, raise, pure, Ensures, chain-cases, ◌≡◌, refl, ap, sym, ◌∙◌, arith,
}
use k8s_dra_driver.Kube.{Pod}
use k8s_dra_driver.HamiCore.Pods.{PodSource, PodClient}
use k8s_dra_driver.HamiCore.Labels.{
  hami_monitor_node_label, label_of, put_label, attempt, ensure_pod_monitor_label,
}

-- What the API server does. `stored` is the pod that it has under a namespace and a name: the pod that
-- a `Get` returns is the one that is stored, under the names that were asked for; a merge patch that
-- sets a label of a stored pod and is accepted sets it and keeps the UID, the node and the names.
pub record IsClient {A : Type 0} (c : PodClient A) : Type 0 where
  pub stored : String → String → A → Option Pod
  pub got :
      (namespace name : String) (pod : Pod) (a a' : A)
      → c.get namespace name a ≡ (ok pod, a')
      → (pod.namespace ≡ namespace) × (pod.name ≡ name) × (stored namespace name a' ≡ some pod)
  pub patched :
      (pod : Pod) (label value : String) (a a' : A)
      → stored pod.namespace pod.name a ≡ some pod
      → c.patch_label pod label value a ≡ (ok tt, a')
      → (q : Pod) × (stored pod.namespace pod.name a' ≡ some q)
        × (q.uid ≡ pod.uid)
        × (q.node_name ≡ pod.node_name)
        × (lookup label q.labels ≡ some value)

-- Of a source with this client: what each call that returns no error ensures, a call that is retried
-- on conflicts ensures.
pub record IsSource {A : Type 0} (source : PodSource A) (c : PodClient A) : Type 1 where
  pub has_client : source.client ≡ some c
  pub is_client : IsClient c
  pub retried :
      (Q : A → Type 0) (m : Exec A (Unit {0}))
      → Ensures Q m
      → Ensures Q (source.retry_on_conflict m)

module _ {A : Type 0} (source : PodSource A) (c : PodClient A) (laws : IsSource source c)
    (node : String) where
  open laws use {has_client, is_client, retried}

  -- The API server has the pod, with its UID, on this node and with the label for the monitor.
  abbrev pub Labelled : Pod → A → Type 0
  Labelled pod a =
      (live : Pod) × (is_client.stored pod.namespace pod.name a ≡ some live)
      × (live.uid ≡ pod.uid)
      × (live.node_name ≡ node)
      × (lookup hami_monitor_node_label live.labels ≡ some node)

  label_of-some :
      (live : Pod)
      → (label_of live.labels == "") ≡ false
      → label_of live.labels ≡ node
      → lookup hami_monitor_node_label live.labels ≡ some node
  label_of-some live e f = present (lookup hami_monitor_node_label live.labels) refl
    where
      present : (o : Option String) → lookup hami_monitor_node_label live.labels ≡ o → o ≡ some node
      present none g = cc (ap (λ o. (elim o [ none ↦ "" | some v ↦ v ]) == "") g, e)
      present (some v) g = ap some (sym (ap (λ o. elim o [ none ↦ "" | some v ↦ v ]) g) ∙ f)

  -- The state of the API server is that of the pod which is being labelled.
  abbrev Stored : Pod → Pod → A → Type 0
  Stored pod live a =
      (live.namespace ≡ pod.namespace)
      × (live.name ≡ pod.name)
      × (is_client.stored pod.namespace pod.name a ≡ some live)

  patch-Labelled :
      (pod live : Pod) (a : A) (p : Outcome (Unit {0}) × A)
      → Stored pod live a
      → live.uid ≡ pod.uid
      → live.node_name ≡ node
      → c.patch_label live hami_monitor_node_label node a ≡ p
      → is_ok p.0 ≡ true
      → Labelled pod p.1
  patch-Labelled pod live a (ok tt, a') (ns, name, there) u n e b =
      let at_names : is_client.stored live.namespace live.name a ≡ some live =
        ap (λ k. is_client.stored k live.name a) ns
        ∙ ap (λ k. is_client.stored pod.namespace k a) name
        ∙ there in
      let (q, s, u', n', v) = is_client.patched live hami_monitor_node_label node a a' at_names e in
      (
        q,
        ap (λ k. is_client.stored pod.namespace k a') (sym name)
            ∙ ap (λ k. is_client.stored k live.name a') (sym ns)
            ∙ s,
        u' ∙ u,
        n' ∙ n,
        v,
      )
  patch-Labelled pod live a (err x, a') t u n e b = cc
  patch-Labelled pod live a (panic, a') t u n e b = cc

  put_label-Labelled :
      (pod live : Pod) (a : A)
      → Stored pod live a
      → is_ok (put_label source node c pod live a).0 ≡ true
      → Labelled pod (put_label source node c pod live a).1
  put_label-Labelled pod live a stored =
      if_cases {A = Exec A (Unit {0})} (not (live.uid == pod.uid)) (raise "pod UID changed") _
        (λ m. is_ok (m a).0 ≡ true → Labelled pod (m a).1) (λ q b. cc)
        (λ u.
          if_cases {A = Exec A (Unit {0})} (not (live.node_name == node))
            (raise "pod is assigned to another node") _
            (λ m. is_ok (m a).0 ≡ true → Labelled pod (m a).1) (λ q b. cc)
            (λ n.
              let same_uid : live.uid ≡ pod.uid = ground (arith, eq_iff live.uid pod.uid) in
              let same_node : live.node_name ≡ node = ground (arith, eq_iff live.node_name node) in
              if_cases {A = Exec A (Unit {0})} (label_of live.labels == "")
                (c.patch_label live hami_monitor_node_label node) _
                (λ m. is_ok (m a).0 ≡ true → Labelled pod (m a).1)
                (λ q. patch-Labelled pod live a _ stored same_uid same_node refl)
                (λ e.
                  if_cases {A = Exec A (Unit {0})} (not (label_of live.labels == node))
                    (raise "conflicting label") (pure tt)
                    (λ m. is_ok (m a).0 ≡ true → Labelled pod (m a).1) (λ q b. cc)
                    (λ f b.
                      let same : label_of live.labels ≡ node =
                        ground (arith, eq_iff (label_of live.labels) node) in
                      (live, stored.2, same_uid, same_node, label_of-some live e same)))))

  attempt-Labelled : (pod : Pod) → Ensures (Labelled pod) (attempt source node c pod)
  unfolding attempt
  attempt-Labelled pod a =
      chain-cases (c.get pod.namespace pod.name) (put_label source node c pod)
        (λ p. is_ok p.0 ≡ true → Labelled pod p.1) a
        (λ live a' e.
          put_label-Labelled pod live a' (is_client.got pod.namespace pod.name live a a' e))
        (λ r a' b e b' c. cc)

  pub ensure-Labelled :
      (pod : Pod) → Ensures (Labelled pod) (ensure_pod_monitor_label source node pod)
  unfolding ensure_pod_monitor_label
  ensure-Labelled pod a = rw has_client (
      if_cases {A = Exec A (Unit {0})} (node == "")
        (raise "pod client and node name are required for vGPUmonitor labeling")
        (source.retry_on_conflict (attempt source node c pod))
        (λ m. is_ok (m a).0 ≡ true → Labelled pod (m a).1) (λ q b. cc)
        (λ q. retried (Labelled pod) (attempt source node c pod) (attempt-Labelled pod) a))
