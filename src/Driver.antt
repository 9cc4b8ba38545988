-- ===== src/Driver.antt =====
-- cmd/hami-kubelet-plugin/driver.go: the calls that the kubelet makes of the plugin, under the
-- prepare/unprepare lock. The lock and the publication of ResourceSlice objects, which calls the API
-- server, are a parameter.
pub mod Batches
pub mod Results
pub mod Stale
use k8s_dra_driver.Common.{
  List, [], ◌∷◌, if◌then◌else◌, Map, insert, Outcome, ok, err, panic, Exec, ◌>>=◌, ◌>>◌, pure,
  deferred,
}
use k8s_dra_driver.Kube.{ClaimRef, ResourceClaim, KubeletDevice}
use k8s_dra_driver.FeatureGates.{Gates}
use k8s_dra_driver.Devices.Allocatable.{AllocatableDevices}
use k8s_dra_driver.Store.{CheckpointFile}
use k8s_dra_driver.State.{ConfigApi, Managers, DeviceState, on_host}
use k8s_dra_driver.State.Claims.{prepare, unprepare}

-- `acquire` and `release` are those of `pulock`; `publish_resources` is given the devices.
pub record DriverParts (H : Type 0) : Type 0 where
  pub acquire : Exec H (Unit {0})
  pub release : H → H
  pub publish_resources : AllocatableDevices → Exec H (Unit {0})

-- A call whose error is the result for its claim. A panic ends the loop.
abbrev noted : {S A : Type 0} → Outcome A × S → Outcome (Outcome A) × S
noted (ok a, s) = (ok (ok a), s)
noted (err e, s) = (ok (err e), s)
noted (panic, s) = (panic, s)

module _ {D C T M H : Type 0} (file : CheckpointFile D) (api : ConfigApi C T M)
    (managers : Managers H T M) (g : Gates) (parts : DriverParts H) where
  open parts use {acquire, release, publish_resources}

  abbrev State : Type 0
  State = DeviceState D H

  abbrev unlock : State → State
  unlock s = record s { host = release s.host }

  -- Behind PassthroughSupport the ResourceSlices change with the devices.
  abbrev publish : Exec State (Unit {0})
  publish =
      if g.passthrough_support then (λ s. on_host (publish_resources s.allocatable) s) else pure tt

  unfoldable prepare_locked : ResourceClaim → Exec State (List KubeletDevice)
  unfolding prepare
  prepare_locked claim = prepare file api managers g claim >>= λ devices. publish >> pure devices

  -- (d *driver) nodePrepareResource
  unfoldable pub node_prepare_resource : ResourceClaim → Exec State (List KubeletDevice)
  unfolding prepare_locked
  node_prepare_resource claim = on_host acquire >> deferred unlock (prepare_locked claim)

  unfoldable unprepare_locked : ClaimRef → Exec State (Unit {0})
  unfolding unprepare
  unprepare_locked ref = unprepare file api managers g ref >> publish

  -- (d *driver) nodeUnprepareResource
  unfoldable pub node_unprepare_resource : ClaimRef → Exec State (Unit {0})
  unfolding unprepare_locked
  node_unprepare_resource ref = on_host acquire >> deferred unlock (unprepare_locked ref)

  -- The loop of `PrepareResourceClaims`, with the results so far.
  unfoldable pub prepare_each :
      List ResourceClaim
      → Map (Outcome (List KubeletDevice))
      → Exec State (Map (Outcome (List KubeletDevice)))
  unfolding node_prepare_resource insert
  prepare_each [] results = pure results
  prepare_each (c ∷ cs) results =
      (λ s. noted (node_prepare_resource c s)) >>= λ r. prepare_each cs (insert c.uid r results)

  -- (d *driver) PrepareResourceClaims
  unfoldable pub prepare_resource_claims :
      List ResourceClaim → Exec State (Map (Outcome (List KubeletDevice)))
  unfolding prepare_each
  prepare_resource_claims cs = prepare_each cs []

  -- The loop of `UnprepareResourceClaims`.
  unfoldable pub unprepare_each :
      List ClaimRef → Map (Outcome (Unit {0})) → Exec State (Map (Outcome (Unit {0})))
  unfolding node_unprepare_resource insert
  unprepare_each [] results = pure results
  unprepare_each (c ∷ cs) results =
      (λ s. noted (node_unprepare_resource c s)) >>= λ r. unprepare_each cs (insert c.uid r results)

  -- (d *driver) UnprepareResourceClaims
  unfoldable pub unprepare_resource_claims : List ClaimRef → Exec State (Map (Outcome (Unit {0})))
  unfolding unprepare_each
  unprepare_resource_claims cs = unprepare_each cs []
