-- ===== src/Store/Updates.antt =====
-- What the operations on the checkpoint file do to the claims that stand in it.
use k8s_dra_driver.Common.{
  Option, none, some, [], String, ◌==◌, if◌then◌else◌, Map, lookup, insert, delete, map_values,
  map_option, lookup-map_values, lookup-insert, lookup-delete, ◌≡◌, ◌≢◌, ◌⊎◌, inl, inr, refl, ap,
  sym, ◌∙◌, arith, Outcome, ok, err, panic,
}
use k8s_dra_driver.Checkpoint.{Checkpoint, PreparedClaim, to_latest_version, claims, update_claims}
use k8s_dra_driver.Checkpoint.Versions.{changed, update_claims-latest}
use k8s_dra_driver.Checkpoint.Persist.{persist, persist_claim}
use k8s_dra_driver.Checkpoint.RoundTrip.{written, claims-persist-written, claims-persist}
use k8s_dra_driver.Store.{CheckpointFile, update_checkpoint, delete_claim_from_checkpoint}
use k8s_dra_driver.Store.Laws.{IsFile}
use k8s_dra_driver.Store.Writes.{Written, update_checkpoint-Written}

abbrev pub of_file : Outcome Checkpoint → Map PreparedClaim
of_file (ok c) = claims (to_latest_version c)
of_file (err _) = []
of_file panic = []

module _ {D : Type 0} (file : CheckpointFile D) where
  -- The claims in the file; none if it cannot be read.
  abbrev pub stored_claims : D → Map PreparedClaim
  stored_claims d = of_file (file.load d)

  -- The entry of one claim in the file.
  abbrev pub entry : D → String → Option PreparedClaim
  entry d uid = lookup uid (stored_claims d)

  -- Either the call succeeded and the claims in the file are changed by `f`, or it did not and the
  -- file is as it was.
  abbrev pub Updated : (Map PreparedClaim → Map PreparedClaim) → D → Outcome (Unit {0}) × D → Type 0
  Updated f d p =
      ((p.0 ≡ ok tt) × (stored_claims p.1 ≡ map_values persist_claim (f (stored_claims d))))
      ⊎ ((p.0 ≢ ok tt) × (file.load p.1 ≡ file.load d))

module _ {D : Type 0} (file : CheckpointFile D) (laws : IsFile file) where
  open file use {load}

  updated :
      (f : Map PreparedClaim → Map PreparedClaim) (d : D) (p : Outcome (Unit {0}) × D)
      → Written file (update_claims f) d p
      → Updated file f d p
  updated f d p (inl (done, c, cp, c1, c2, read, h, new)) =
      let same : ok cp ≡ ok (changed f c) = sym h ∙ (update_claims-latest f c).0 in
      let e : cp ≡ changed f c = cc in
      inl (
        done,
        ap of_file new
            ∙ ap (λ r. claims (to_latest_version (persist (written c1 c2 r)))) e
            ∙ claims-persist-written c1 c2 (changed f c)
            ∙ ap (λ r. map_values persist_claim (claims r)) (update_claims-latest f c).2
            ∙ ap (λ r. map_values persist_claim r) (update_claims-latest f c).1
            ∙ sym (ap (λ r. map_values persist_claim (f (of_file r))) read),
      )
  updated f d p (inr old) = inr old

  pub update_checkpoint-Updated :
      (f : Map PreparedClaim → Map PreparedClaim) (d : D)
      → Updated file f d (update_checkpoint file (update_claims f) d)
  update_checkpoint-Updated f d =
      updated f d _ (update_checkpoint-Written file laws (update_claims f) d)

  stored_persist :
      (d : D) (r : Outcome Checkpoint)
      → load d ≡ r
      → map_values persist_claim (of_file r) ≡ of_file r
  unfolding map_values
  stored_persist d (ok c) e =
      sym (claims-persist c) ∙ ap (λ c. claims (to_latest_version c)) (laws.persist-load d c e)
  stored_persist d (err x) e = refl
  stored_persist d panic e = refl

  -- An entry that stands in the file was read back from JSON.
  pub entry_persist :
      (d : D) (k : String) → map_option persist_claim (entry file d k) ≡ entry file d k
  entry_persist d k =
      sym (lookup-map_values persist_claim k (stored_claims file d))
      ∙ ap (λ m. lookup k m) (stored_persist d _ refl)

  inserted :
      (uid k : String) (v : PreparedClaim) (d : D)
      → lookup k (map_values persist_claim (insert uid v (stored_claims file d)))
        ≡ (if uid == k then some (persist_claim v) else entry file d k)
  inserted uid k v d = rw (lookup-map_values, lookup-insert) (ground (arith, entry_persist d k))

  deleted :
      (uid k : String) (d : D)
      → lookup k (map_values persist_claim (delete uid (stored_claims file d)))
        ≡ (if uid == k then none else entry file d k)
  deleted uid k d = rw (lookup-map_values, lookup-delete) (ground (arith, entry_persist d k))

  -- Recording a claim in the checkpoint file either succeeds, and then the entry of that claim is
  -- what was recorded, less what is not exported, and every other entry is as before; or it does
  -- not, and the file is as it was.
  pub update_checkpoint-insert :
      (uid : String) (v : PreparedClaim) (d : D)
      → let p = update_checkpoint file (update_claims (insert uid v)) d in
        ((p.0 ≡ ok tt)
          × ((k : String)
              → entry file p.1 k ≡ (if uid == k then some (persist_claim v) else entry file d k)))
        ⊎ ((p.0 ≢ ok tt) × (file.load p.1 ≡ file.load d))
  update_checkpoint-insert uid v d = elim (update_checkpoint-Updated (insert uid v) d) [
    | inl (done, new) ↦ inl (done, λ k. ap (λ m. lookup k m) new ∙ inserted uid k v d)
    | inr old ↦ inr old
  ]

  -- Deleting a claim from the checkpoint file either succeeds, and then that claim has no entry and
  -- every other entry is as before; or it does not, and the file is as it was.
  pub delete_claim_from_checkpoint-entry :
      (uid : String) (d : D)
      → let p = delete_claim_from_checkpoint file uid d in
        ((p.0 ≡ ok tt)
          × ((k : String) → entry file p.1 k ≡ (if uid == k then none else entry file d k)))
        ⊎ ((p.0 ≢ ok tt) × (file.load p.1 ≡ file.load d))
  unfolding delete_claim_from_checkpoint
  delete_claim_from_checkpoint-entry uid d = elim (update_checkpoint-Updated (delete uid) d) [
    | inl (done, new) ↦ inl (done, λ k. ap (λ m. lookup k m) new ∙ deleted uid k d)
    | inr old ↦ inr old
  ]
