-- ===== src/HamiCore/Labels.antt =====
-- `ensurePodMonitorLabel` of hami_core.go.
use k8s_dra_driver.Common.{
  not, none, some, String, ◌==◌, if◌then◌else◌, Map, lookup, Exec, ◌>>=◌, pure, raise,
}
use k8s_dra_driver.Kube.{Pod}
use k8s_dra_driver.HamiCore.Pods.{PodSource, PodClient}

abbrev pub hami_monitor_node_label : String
hami_monitor_node_label = "hami.io/vgpu-node"

-- A label that is not there reads as "".
abbrev pub label_of : Map String → String
label_of labels = elim (lookup hami_monitor_node_label labels) [ none ↦ "" | some v ↦ v ]

module _ {A : Type 0} (source : PodSource A) (node : String) where
  abbrev pub put_label : PodClient A → Pod → Pod → Exec A (Unit {0})
  put_label c pod live =
      if not (live.uid == pod.uid)
      then raise "pod UID changed"
      else if not (live.node_name == node)
      then raise "pod is assigned to another node"
      else if label_of live.labels == ""
      then c.patch_label live hami_monitor_node_label node
      else if not (label_of live.labels == node)
      then raise "conflicting label"
      else pure tt

  -- One call of the function that is retried.
  unfoldable pub attempt : PodClient A → Pod → Exec A (Unit {0})
  unfolding lookup
  attempt c pod = c.get pod.namespace pod.name >>= λ live. put_label c pod live

  -- (m *HAMiCoreManager) ensurePodMonitorLabel
  unfoldable pub ensure_pod_monitor_label : Pod → Exec A (Unit {0})
  unfolding attempt
  ensure_pod_monitor_label pod = elim source.client [
    | none ↦ raise "pod client and node name are required for vGPUmonitor labeling"
    | some c ↦
        if node == ""
        then raise "pod client and node name are required for vGPUmonitor labeling"
        else source.retry_on_conflict (attempt c pod)
  ]
