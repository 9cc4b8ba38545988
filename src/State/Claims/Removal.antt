-- ===== src/State/Claims/Removal.antt =====
-- What `Unprepare` leaves in the checkpoint file.
use k8s_dra_driver.Common.{
  Option, none, some, String, eq_iff, Map, lookup, Outcome, ok, err, panic, ignore_error, ◌≡◌, ◌≢◌,
  inl, inr, refl, ap, sym, ◌∙◌, subst, arith,
}
use k8s_dra_driver.Kube.{ClaimRef}
use k8s_dra_driver.FeatureGates.{Gates}
use k8s_dra_driver.Devices.Prepared.{PreparedDevices, get_devices}
use k8s_dra_driver.Checkpoint.{
  CheckpointState, PreparedClaim, claims, unset, prepare_started, prepare_completed, other,
}
use k8s_dra_driver.Store.{CheckpointFile, delete_claim_from_checkpoint}
use k8s_dra_driver.Store.Laws.{IsFile}
use k8s_dra_driver.Store.Updates.{entry, delete_claim_from_checkpoint-entry, of_file}
use k8s_dra_driver.State.{ConfigApi, Managers, DeviceState, on_host, on_store}
use k8s_dra_driver.State.Siblings.Kept.{discover_all_siblings-Keeps}
use k8s_dra_driver.State.Claims.{
  unprepare, unprepare_entry, unprepare_found, unprepare_state, restore_siblings,
}
use k8s_dra_driver.State.Claims.Traces.{read-cases, not_ok}
use k8s_dra_driver.State.Keeping.{Keeps, kept-cases}
use k8s_dra_driver.State.Claims.Outcomes.{Spares}

module _ {D : Type 0} (file : CheckpointFile D) where
  -- A call that succeeds leaves no entry of the claim, and one that fails leaves the file as it was.
  abbrev pub Gone : String → D → D → Outcome (Unit {0}) → Type 0
  Gone uid d d' (ok _) = entry file d' uid ≡ none
  Gone uid d d' (err e) = file.load d' ≡ file.load d
  Gone uid d d' panic = file.load d' ≡ file.load d

module _ {D C T M H : Type 0} (file : CheckpointFile D) (laws : IsFile file) (api : ConfigApi C T M)
    (managers : Managers H T M) (g : Gates) (ref : ClaimRef) where
  state-Keeps :
      (st : CheckpointState) (c : PreparedClaim) (m : Map PreparedClaim)
      → Keeps (unprepare_state file api managers g st ref.uid c m)
  state-Keeps prepare_started c m s = refl
  state-Keeps prepare_completed c m s = refl
  state-Keeps unset c m s = refl
  state-Keeps (other x) c m s = refl

  restore-Keeps : (devices : PreparedDevices) → Keeps (restore_siblings file api managers g devices)
  restore-Keeps devices s =
      ground (arith, discover_all_siblings-Keeps {D = D} managers (get_devices devices) s)

  abbrev Post : D → Outcome (Unit {0}) × DeviceState D H → Type 0
  Post d p = Spares file ref.uid d p.1.store × Gone file ref.uid d p.1.store p.0

  failed :
      (d : D) (s' : DeviceState D H) (r : Outcome (Unit {0}))
      → r ≢ ok tt
      → file.load s'.store ≡ file.load d
      → Post d (r, s')
  failed d s' (ok x) bad same = elim (bad refl) [ ]
  failed d s' (err e) bad same = (λ k n. ap (λ r. lookup k (of_file r)) same, same)
  failed d s' panic bad same = (λ k n. ap (λ r. lookup k (of_file r)) same, same)

  delete :
      (d : D) (s : DeviceState D H)
      → file.load s.store ≡ file.load d
      → Post d (on_store (delete_claim_from_checkpoint file ref.uid) s)
  delete d s same = elim (delete_claim_from_checkpoint-entry file laws ref.uid s.store) [
    | inl (done, new) ↦ (
      λ k n. new k ∙ ground (arith, eq_iff ref.uid k) ∙ ap (λ r. lookup k (of_file r)) same,
      subst (λ r. Gone file ref.uid d (delete_claim_from_checkpoint file ref.uid s.store).1 r)
          (sym done) (new ref.uid ∙ ground (arith, eq_iff ref.uid ref.uid)),
    )
    | inr (bad, old) ↦
        failed d (on_store (delete_claim_from_checkpoint file ref.uid) s).1 _ bad (old ∙ same)
  ]

  clean :
      (uid : String) → Keeps (ignore_error (on_host {D = D} (managers.delete_claim_spec_file uid)))
  clean uid s = refl

  remove :
      (c : PreparedClaim) (m : Map PreparedClaim) (d : D) (s : DeviceState D H)
      → file.load s.store ≡ file.load d
      → Post d (unprepare_found file api managers g ref.uid c m s)
  unfolding unprepare_found
  remove c m d s same =
      kept-cases (unprepare_state file api managers g c.checkpoint_state ref.uid c m) _ (Post d) s
        (state-Keeps c.checkpoint_state c m)
        (λ _ s1 e1.
          kept-cases (restore_siblings file api managers g c.prepared_devices) _ (Post d) s1
            (restore-Keeps c.prepared_devices)
            (λ _ s2 e2.
              kept-cases (ignore_error (on_host (managers.delete_claim_spec_file ref.uid))) _
                (Post d) s2 (clean ref.uid)
                (λ _ s3 e3. delete d s3 (ap (λ d. file.load d) (e3 ∙ e2 ∙ e1) ∙ same))
                (λ r s3 bad e3.
                  failed d s3 r (not_ok r tt bad) (ap (λ d. file.load d) (e3 ∙ e2 ∙ e1) ∙ same)))
            (λ r s2 bad e2.
              failed d s2 r (not_ok r tt bad) (ap (λ d. file.load d) (e2 ∙ e1) ∙ same)))
        (λ r s1 bad e1. failed d s1 r (not_ok r tt bad) (ap (λ d. file.load d) e1 ∙ same))

  entry-Gone :
      (m : Map PreparedClaim) (d : D) (s : DeviceState D H) (o : Option PreparedClaim)
      → o ≡ entry file d ref.uid
      → file.load s.store ≡ file.load d
      → Post d (unprepare_entry file api managers g ref.uid m o s)
  unfolding unprepare_entry
  entry-Gone m d s none e same = (
    λ k n. ap (λ r. lookup k (of_file r)) same,
    ap (λ r. lookup ref.uid (of_file r)) same ∙ sym e,
  )
  entry-Gone m d s (some c) e same = remove c m d s same

  -- Unpreparing a claim leaves the entries of all other claims in the checkpoint file as they are.
  -- If it succeeds, the claim has no entry any more, whether it had one or not; if it fails, the file
  -- is as it was.
  pub unprepare-Gone :
      (s : DeviceState D H)
      → Spares file ref.uid s.store (unprepare file api managers g ref s).1.store
        × Gone file ref.uid s.store
            (unprepare file api managers g ref s).1.store
            (unprepare file api managers g ref s).0
  unfolding unprepare
  unprepare-Gone s =
      read-cases file laws
        (λ cp. unprepare_entry file api managers g ref.uid (claims cp) (lookup ref.uid (claims cp)))
        (Post s.store) s
        (λ cp s' same read.
          entry-Gone (claims cp) s.store s' _ (ap (λ m. lookup ref.uid m) read) same)
        (λ r s' bad old. failed s.store s' r (not_ok r tt bad) old)
