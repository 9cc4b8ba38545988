-- ===== src/State/Claims/Reachable.antt =====
-- No sequence of calls of `Prepare` and `Unprepare` prepares a device for two claims.
use k8s_dra_driver.Common.{
  true, false, some, List, String, Outcome, ok, err, panic, ◌≡◌, ◌⊎◌, inl, inr, refl, ap, sym, ◌∙◌,
  subst, lookup,
}
use k8s_dra_driver.Kube.{ResourceClaim, ClaimRef, KubeletDevice}
use k8s_dra_driver.Devices.Allocatable.{AllocatableDevices}
use k8s_dra_driver.FeatureGates.{Gates}
use k8s_dra_driver.Checkpoint.{
  CheckpointState, unset, prepare_started, prepare_completed, other, PreparedClaim, is_completed,
  is_started,
}
use k8s_dra_driver.Store.{CheckpointFile}
use k8s_dra_driver.Store.Laws.{IsFile}
use k8s_dra_driver.Store.Updates.{entry, stored_claims, of_file}
use k8s_dra_driver.State.{ConfigApi, Managers, DeviceState}
use k8s_dra_driver.State.Overlap.Laws.{
  Exclusive, validate_no_overlapping_prepared_devices-Exclusive,
}
use k8s_dra_driver.State.Claims.{prepare, unprepare}
use k8s_dra_driver.State.Claims.Outcomes.{Spares, Left, HasStarted, Origin, IsValid}
use k8s_dra_driver.State.Claims.Entries.{prepare-Post}
use k8s_dra_driver.State.Claims.Removal.{Gone, unprepare-Gone}
use k8s_dra_driver.State.Claims.Exclusive.{
  IsExclusive, OwnExclusive, IsExclusive-own, own_same, own_absent, spared,
}

started_lem : (s : CheckpointState) → is_started s ≡ true → is_completed s ≡ false
started_lem unset h = refl
started_lem prepare_started h = refl
started_lem prepare_completed h = cc
started_lem (other x) h = refl

module _ {D : Type 0} (file : CheckpointFile D) where
  -- The claim was tested and its entry has its status.
  own_fresh :
      (g : Gates) (claim : ResourceClaim) (d d' : D) (v : PreparedClaim)
      → g.hami_core_support ≡ false
      → Spares file claim.uid d d'
      → IsValid file g claim d
      → entry file d' claim.uid ≡ some v
      → v.status ≡ claim.status
      → OwnExclusive file claim.uid d'
  own_fresh g claim d d' v off h valid e st k b c n (pb, done) pc =
      let same : some v ≡ some b = sym e ∙ pb in
      let same' : b ≡ v = cc in
      let status : b.status ≡ claim.status = ap (λ b. b.status) same' ∙ st in
      let (old, done') = spared file claim.uid k d d' c h n pc in
      subst (λ x. Exclusive x c.status) (sym status)
        (validate_no_overlapping_prepared_devices-Exclusive claim (stored_claims file d) k c
          (valid off) old n done')

  own_failed :
      (uid : String) (d d' : D)
      → Spares file uid d d'
      → IsExclusive file d
      → (file.load d' ≡ file.load d) ⊎ HasStarted file d' uid
      → OwnExclusive file uid d'
  own_failed uid d d' h old (inl same) =
      own_same file uid d d' h (ap (λ r. lookup uid (of_file r)) same) old
  own_failed uid d d' h old (inr (c, e, started)) = own_absent file uid d' (λ b pb.
      let same : some c ≡ some b = sym e ∙ pb in
      let same' : c ≡ b = cc in
      started_lem b.checkpoint_state
        (ap (λ c. is_started c.checkpoint_state) (sym same') ∙ started))

  own_prepared :
      (g : Gates) (claim : ResourceClaim) (d d' : D) (r : Outcome (List KubeletDevice))
      → g.hami_core_support ≡ false
      → Spares file claim.uid d d'
      → Left file claim.uid d d' r
      → Origin file g claim d d' r
      → IsExclusive file d
      → OwnExclusive file claim.uid d'
  own_prepared g claim d d' (ok devices) off h left (inl same) old =
      own_same file claim.uid d d' h same old
  own_prepared g claim d d' (ok devices) off h left (inr (valid, v, e, st)) old =
      own_fresh g claim d d' v off h valid e st
  own_prepared g claim d d' (err x) off h left origin old = own_failed claim.uid d d' h old left
  own_prepared g claim d d' panic off h left origin old = own_failed claim.uid d d' h old left

  own_removed :
      (uid : String) (d d' : D) (r : Outcome (Unit {0}))
      → Spares file uid d d'
      → IsExclusive file d
      → Gone file uid d d' r
      → OwnExclusive file uid d'
  own_removed uid d d' (ok _) h old gone = own_absent file uid d' (λ b e. cc (sym e ∙ gone))
  own_removed uid d d' (err x) h old gone =
      own_same file uid d d' h (ap (λ r. lookup uid (of_file r)) gone) old
  own_removed uid d d' panic h old gone =
      own_same file uid d d' h (ap (λ r. lookup uid (of_file r)) gone) old

module _ {D C T M H : Type 0} (file : CheckpointFile D) (laws : IsFile file) (api : ConfigApi C T M)
    (managers : Managers H T M) (g : Gates) where
  -- Without HAMiCoreSupport, preparing a claim, with whatever result, keeps the devices of the
  -- prepared claims exclusive.
  pub prepare-IsExclusive :
      (claim : ResourceClaim) (s : DeviceState D H)
      → g.hami_core_support ≡ false
      → IsExclusive file s.store
      → IsExclusive file (prepare file api managers g claim s).1.store
  prepare-IsExclusive claim s off old =
      let d' = (prepare file api managers g claim s).1.store in
      let (spares, left, origin) = prepare-Post file laws api managers g claim s in
      IsExclusive-own file claim.uid s.store d' spares
        (own_prepared file g claim s.store d' (prepare file api managers g claim s).0 off spares
          left origin old)
        old

  unprepare-IsExclusive :
      (ref : ClaimRef) (s : DeviceState D H)
      → IsExclusive file s.store
      → IsExclusive file (unprepare file api managers g ref s).1.store
  unprepare-IsExclusive ref s old =
      let d' = (unprepare file api managers g ref s).1.store in
      let (spares, gone) = unprepare-Gone file laws api managers g ref s in
      IsExclusive-own file ref.uid s.store d' spares
        (own_removed file ref.uid s.store d' (unprepare file api managers g ref s).0 spares old
          gone)
        old

-- The states that calls of the kubelet lead to, whatever the calls return; between two calls the
-- rest of the node may change.
pub data Reaches {D C T M H : Type 0} (file : CheckpointFile D) (api : ConfigApi C T M)
    (managers : Managers H T M) (g : Gates) (start : DeviceState D H)
    : DeviceState D H → Type 0 where
  start_here : Reaches file api managers g start start
  prepared :
      (claim : ResourceClaim) (s : DeviceState D H)
      → Reaches file api managers g start s
      → Reaches file api managers g start (prepare file api managers g claim s).1
  unprepared :
      (ref : ClaimRef) (s : DeviceState D H)
      → Reaches file api managers g start s
      → Reaches file api managers g start (unprepare file api managers g ref s).1
  elsewhere :
      (m : AllocatableDevices) (h : H) (s : DeviceState D H)
      → Reaches file api managers g start s
      → Reaches file api managers g start (record s { allocatable = m; host = h })

-- Without HAMiCoreSupport, from a state where the prepared claims are exclusive, every sequence of
-- calls of Prepare and Unprepare leads to one where they are.
pub Reaches-IsExclusive :
    {D C T M H : Type 0} (file : CheckpointFile D) (laws : IsFile file) (api : ConfigApi C T M)
    (managers : Managers H T M) (g : Gates) (start s : DeviceState D H)
    → g.hami_core_support ≡ false
    → IsExclusive file start.store
    → Reaches file api managers g start s
    → IsExclusive file s.store
Reaches-IsExclusive file laws api managers g start s off old start_here = old
Reaches-IsExclusive file laws api managers g start s off old (prepared claim t r) =
    prepare-IsExclusive file laws api managers g claim t off
      (Reaches-IsExclusive file laws api managers g start t off old r)
Reaches-IsExclusive file laws api managers g start s off old (unprepared ref t r) =
    unprepare-IsExclusive file laws api managers g ref t
      (Reaches-IsExclusive file laws api managers g start t off old r)
Reaches-IsExclusive file laws api managers g start s off old (elsewhere m h t r) =
    Reaches-IsExclusive file laws api managers g start t off old r
