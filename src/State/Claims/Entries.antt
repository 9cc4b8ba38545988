-- ===== src/State/Claims/Entries.antt =====
-- What `Prepare` leaves in the checkpoint file.
use k8s_dra_driver.Common.{
  Bool, true, false, Option, none, some, List, if◌then◌else◌, Map, lookup, insert, Outcome, ok, err,
  panic, ◌>>◌, pure, is_ok, chain-cases, ◌≡◌, inl, inr, refl, ap, sym, ◌∙◌, subst, arith,
}
use k8s_dra_driver.Kube.{ResourceClaim, KubeletDevice}
use k8s_dra_driver.FeatureGates.{Gates}
use k8s_dra_driver.Devices.Prepared.{PreparedDevices, get_devices}
use k8s_dra_driver.Checkpoint.{PreparedClaim, claims, update_claims, is_completed}
use k8s_dra_driver.Checkpoint.Persist.{persist_claim}
use k8s_dra_driver.Checkpoint.RoundTrip.{get_devices-persist_groups}
use k8s_dra_driver.Store.{CheckpointFile, update_checkpoint}
use k8s_dra_driver.Store.Laws.{IsFile}
use k8s_dra_driver.Store.Updates.{entry, stored_claims}
use k8s_dra_driver.State.{ConfigApi, Managers, DeviceState, on_store, on_host}
use k8s_dra_driver.State.Overlap.{validate_no_overlapping_prepared_devices}
use k8s_dra_driver.State.Preparing.{prepare_devices}
use k8s_dra_driver.State.Claims.{
  prepare, resume, prepare_new, prepare_and_record, started_claim, completed_claim, completed_entry,
  drop_siblings, check_claim,
}
use k8s_dra_driver.State.Claims.Traces.{read-cases, insert-cases}
use k8s_dra_driver.State.Claims.Outcomes.{
  Spares, HasStarted, Left, IsValid, Post, Origin-failed, Left-failed, same_entry, Recorded-other,
  Recorded-own, trans,
}
use k8s_dra_driver.State.Keeping.{Keeps, kept-cases}

only_completed :
    (c c' : PreparedClaim) (b : Bool)
    → is_completed c'.checkpoint_state ≡ b
    → (if b then some c' else none) ≡ some c
    → (some c' ≡ some c) × (is_completed c.checkpoint_state ≡ true)
only_completed c c' true e h =
    let same : c' ≡ c = cc in (h, ap (λ c. is_completed c.checkpoint_state) (sym same) ∙ e)
only_completed c c' false e h = cc

pub completed_entry_lem :
    (o : Option PreparedClaim) (c : PreparedClaim)
    → completed_entry o ≡ some c
    → (o ≡ some c) × (is_completed c.checkpoint_state ≡ true)
completed_entry_lem none c h = cc
completed_entry_lem (some c') c h = only_completed c c' _ refl h

module _ {D C T M H : Type 0} (file : CheckpointFile D) (laws : IsFile file) (api : ConfigApi C T M)
    (managers : Managers H T M) (g : Gates) (claim : ResourceClaim) where
  drop-Keeps : (devices : PreparedDevices) → Keeps (drop_siblings file api managers g devices)
  drop-Keeps devices s = ground arith

  -- The last step of `Prepare`.
  last :
      (devices : PreparedDevices) (d : D) (s : DeviceState D H)
      → Spares file claim.uid d s.store
      → HasStarted file s.store claim.uid
      → IsValid file g claim d
      → Post file g claim d (
          (on_store (
                update_checkpoint file
                  (update_claims (insert claim.uid (completed_claim claim devices))))
              >> pure (get_devices devices))
            s)
  unfolding persist_claim
  last devices d s spares (c, e, b) valid =
      insert-cases file laws claim.uid (completed_claim claim devices)
        (λ _. pure (get_devices devices)) (Post file g claim d) s
        (λ s' new. (
          trans file claim.uid d s.store s'.store spares (Recorded-other file claim.uid _ _ _ new),
          (
            persist_claim (completed_claim claim devices),
            Recorded-own file claim.uid _ _ _ new,
            refl,
            get_devices-persist_groups devices,
          ),
          inr (
            valid,
            persist_claim (completed_claim claim devices),
            Recorded-own file claim.uid _ _ _ new,
            refl,
          ),
        ))
        (λ r s' bad old. (
          λ k n. same_entry file s.store s'.store k old ∙ spares k n,
          Left-failed file claim.uid d s'.store r bad
              (inr (c, same_entry file s.store s'.store claim.uid old ∙ e, b)),
          Origin-failed file g claim d s'.store r bad,
        ))

  -- A call that fails where the claim is recorded as started.
  stop :
      (d : D) (s s' : DeviceState D H) (r : Outcome (List KubeletDevice))
      → Spares file claim.uid d s.store
      → HasStarted file s.store claim.uid
      → is_ok r ≡ false
      → s'.store ≡ s.store
      → Post file g claim d (r, s')
  stop d s s' r spares (c, e, b) bad same = (
    λ k n. ap (λ d. entry file d k) same ∙ spares k n,
    Left-failed file claim.uid d s'.store r bad
        (inr (c, ap (λ d. entry file d claim.uid) same ∙ e, b)),
    Origin-failed file g claim d s'.store r bad,
  )

  -- From a state in which the claim is recorded as started.
  finish :
      (d : D) (s : DeviceState D H)
      → Spares file claim.uid d s.store
      → HasStarted file s.store claim.uid
      → IsValid file g claim d
      → Post file g claim d (prepare_and_record file api managers g claim s)
  unfolding prepare_and_record
  finish d s spares started valid =
      kept-cases (λ s. on_host (prepare_devices api managers g s.allocatable claim) s) _
        (Post file g claim d) s (λ s. refl)
        (λ devices s1 e1.
          kept-cases (drop_siblings file api managers g devices) _ (Post file g claim d) s1
            (drop-Keeps devices)
            (λ _ s2 e2.
              kept-cases (on_host (managers.create_claim_spec_file claim.uid devices)) _
                (Post file g claim d) s2 (λ s. refl)
                (λ _ s3 e3.
                  let same : s3.store ≡ s.store = e3 ∙ e2 ∙ e1 in
                  last devices d s3 (subst (λ x. Spares file claim.uid d x) (sym same) spares)
                    (subst (λ x. HasStarted file x claim.uid) (sym same) started) valid)
                (λ r s3 bad e3. stop d s s3 r spares started bad (e3 ∙ e2 ∙ e1)))
            (λ r s2 bad e2. stop d s s2 r spares started bad (e2 ∙ e1)))
        (λ r s1 bad e1. stop d s s1 r spares started bad e1)

  -- A call that fails where the file is as it was.
  unchanged :
      (d : D) (s' : DeviceState D H) (r : Outcome (List KubeletDevice))
      → is_ok r ≡ false
      → file.load s'.store ≡ file.load d
      → Post file g claim d (r, s')
  unchanged d s' r bad same = (
    λ k n. same_entry file d s'.store k same,
    Left-failed file claim.uid d s'.store r bad (inl same),
    Origin-failed file g claim d s'.store r bad,
  )

  -- From a state in which the file is as it was.
  begin :
      (d : D) (s : DeviceState D H)
      → file.load s.store ≡ file.load d
      → IsValid file g claim d
      → Post file g claim d (
          (on_store
                (update_checkpoint file (update_claims (insert claim.uid (started_claim claim))))
              >> prepare_and_record file api managers g claim)
            s)
  unfolding persist_claim
  begin d s same valid =
      insert-cases file laws claim.uid (started_claim claim) _ (Post file g claim d) s
        (λ s' new.
          finish d s'
            (λ k n.
              Recorded-other file claim.uid (started_claim claim) s.store s'.store new k n
              ∙ same_entry file d s.store k same)
            (
              persist_claim (started_claim claim),
              Recorded-own file claim.uid (started_claim claim) s.store s'.store new,
              refl,
            )
            valid)
        (λ r s' bad old. unchanged d s' r bad (old ∙ same))

  checked :
      (m : Map PreparedClaim) (h : H) (r : Outcome (Unit {0}))
      → validate_no_overlapping_prepared_devices m claim ≡ r
      → (check_claim file api managers g claim m h).0 ≡ ok tt
      → g.hami_core_support ≡ false
      → validate_no_overlapping_prepared_devices m claim ≡ ok tt
  unfolding check_claim
  checked m h (ok _) e done off = e
  checked m h (err x) e done off = cc (rw (off, e) at done)
  checked m h panic e done off = cc (rw (off, e) at done)

  renew :
      (m : Map PreparedClaim) (d : D) (s : DeviceState D H)
      → m ≡ stored_claims file d
      → file.load s.store ≡ file.load d
      → Post file g claim d (prepare_new file api managers g claim m s)
  unfolding prepare_new
  renew m d s read same =
      chain-cases (on_host (check_claim file api managers g claim m)) _ (Post file g claim d) s
        (λ a s1 e. begin d s1 (ap (λ p. file.load p.1.store) (sym e) ∙ same) (λ off.
          subst (λ m. validate_no_overlapping_prepared_devices m claim ≡ ok tt) read
            (checked m s.host _ refl (ap (λ p. p.0) e) off)))
        (λ r s1 bad e b. unchanged d s1 r bad (ap (λ s. file.load s.store) (sym e) ∙ same))

  resume-Post :
      (m : Map PreparedClaim) (d : D) (s : DeviceState D H) (o : Option PreparedClaim)
      → completed_entry (lookup claim.uid m) ≡ o
      → m ≡ stored_claims file d
      → file.load s.store ≡ file.load d
      → Post file g claim d (resume file api managers g claim m o s)
  unfolding resume
  resume-Post m d s (some c) e read same =
      let (e', b) = completed_entry_lem (lookup claim.uid m) c e in
      (
        λ k n. same_entry file d s.store k same,
        (
          c,
          same_entry file d s.store claim.uid same ∙ ap (λ m. lookup claim.uid m) (sym read) ∙ e',
          b,
          refl,
        ),
        inl (same_entry file d s.store claim.uid same),
      )
  resume-Post m d s none e read same = renew m d s read same

  pub prepare-Post :
      (s : DeviceState D H) → Post file g claim s.store (prepare file api managers g claim s)
  unfolding prepare
  prepare-Post s =
      read-cases file laws
        (λ cp.
          resume file api managers g claim (claims cp)
            (completed_entry (lookup claim.uid (claims cp))))
        (Post file g claim s.store) s
        (λ cp s' same read. resume-Post (claims cp) s.store s' _ refl read same)
        (λ r s' bad old. unchanged s.store s' r bad old)

  -- Preparing a claim leaves the entries of all other claims in the checkpoint file as they are. If
  -- it succeeds, the claim stands there as prepared to the end, with the devices that are returned;
  -- if it fails, the file is as it was or the claim stands there as started.
  pub prepare-Left :
      (s : DeviceState D H)
      → Spares file claim.uid s.store (prepare file api managers g claim s).1.store
        × Left file claim.uid s.store
            (prepare file api managers g claim s).1.store
            (prepare file api managers g claim s).0
  prepare-Left s = ((prepare-Post s).0, (prepare-Post s).1)
