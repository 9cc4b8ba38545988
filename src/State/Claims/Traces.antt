-- ===== src/State/Claims/Traces.antt =====
-- What the steps of `Prepare` and `Unprepare` do to the checkpoint file, and how a chain of steps is
-- followed: a call of a manager leaves the file as it is.
use k8s_dra_driver.Common.{
  false, some, String, ◌==◌, if◌then◌else◌, insert, Outcome, ok, err, panic, Exec, ◌>>=◌, is_ok,
  chain-cases, ◌≡◌, ◌≢◌, ◌⊎◌, inl, inr, ap, sym, ◌∙◌, subst,
}
use k8s_dra_driver.Checkpoint.{Checkpoint, PreparedClaim, claims, update_claims}
use k8s_dra_driver.Checkpoint.Persist.{persist_claim}
use k8s_dra_driver.Store.{CheckpointFile, get_checkpoint, update_checkpoint}
use k8s_dra_driver.Store.Laws.{IsFile}
use k8s_dra_driver.Store.Reads.{Read, get_checkpoint-Read}
use k8s_dra_driver.Store.Updates.{entry, stored_claims, update_checkpoint-insert}
use k8s_dra_driver.State.{DeviceState, on_store}

pub not_ok : {A : Type 0} (r : Outcome A) (a : A) → is_ok r ≡ false → r ≢ ok a
not_ok (ok a') a b e = cc
not_ok (err x) a b e = cc
not_ok panic a b e = cc

module _ {D : Type 0} (file : CheckpointFile D) where
  reads : (d : D) (p : Outcome Checkpoint × D) → Read file d p → file.load p.1 ≡ file.load d
  reads d (ok cp, d') h = h.0
  reads d (err e, d') h = h
  reads d (panic, d') h = h

  -- What a record of a claim in the file makes of the other entries.
  abbrev pub Recorded : String → PreparedClaim → D → D → Type 0
  Recorded uid v d d' =
      (k : String) → entry file d' k ≡ (if uid == k then some (persist_claim v) else entry file d k)

module _ {D : Type 0} (file : CheckpointFile D) (laws : IsFile file) where
  pub read-cases :
      {H B : Type 0} (f : Checkpoint → Exec (DeviceState D H) B)
      (Q : Outcome B × DeviceState D H → Type 0) (s : DeviceState D H)
      → ((cp : Checkpoint) (s' : DeviceState D H)
          → file.load s'.store ≡ file.load s.store
          → claims cp ≡ stored_claims file s.store
          → Q (f cp s'))
      → ((r : Outcome B) (s' : DeviceState D H)
          → is_ok r ≡ false
          → file.load s'.store ≡ file.load s.store
          → Q (r, s'))
      → Q ((on_store (get_checkpoint file) >>= f) s)
  read-cases f Q s good bad =
      chain-cases (on_store (get_checkpoint file)) f Q s
        (λ cp s' e.
          let h : Read file s.store (ok cp, s'.store) =
            subst (λ p. Read file s.store (p.0, p.1.store)) e
              (get_checkpoint-Read file laws s.store) in
          good cp s' h.0 h.1)
        (λ r s' b e b'. bad r s' b (
          ap (λ s. file.load s.store) (sym e)
          ∙ reads file s.store _ (get_checkpoint-Read file laws s.store)))

  -- A change of the file that ends as `update_checkpoint-insert` says.
  changed-cases :
      {H B : Type 0} (m : Exec D (Unit {0})) (Done : D → Type 0)
      (f : Unit {0} → Exec (DeviceState D H) B) (Q : Outcome B × DeviceState D H → Type 0)
      (s : DeviceState D H)
      → (((m s.store).0 ≡ ok tt) × Done (m s.store).1)
        ⊎ (((m s.store).0 ≢ ok tt) × (file.load (m s.store).1 ≡ file.load s.store))
      → ((s' : DeviceState D H) → Done s'.store → Q (f tt s'))
      → ((r : Outcome B) (s' : DeviceState D H)
          → is_ok r ≡ false
          → file.load s'.store ≡ file.load s.store
          → Q (r, s'))
      → Q ((on_store m >>= f) s)
  changed-cases m Done f Q s (inl (done, new)) good bad =
      chain-cases (on_store m) f Q s (λ a s' e. good s' (subst (λ p. Done p.1.store) e new))
        (λ r s' b e b'. elim (not_ok _ tt b' done) [ ])
  changed-cases m Done f Q s (inr (failed, old)) good bad =
      chain-cases (on_store m) f Q s (λ a s' e. elim (failed (ap (λ p. p.0) e)) [ ])
        (λ r s' b e b'. bad r s' b (ap (λ s. file.load s.store) (sym e) ∙ old))

  pub insert-cases :
      {H B : Type 0} (uid : String) (v : PreparedClaim) (f : Unit {0} → Exec (DeviceState D H) B)
      (Q : Outcome B × DeviceState D H → Type 0) (s : DeviceState D H)
      → ((s' : DeviceState D H) → Recorded file uid v s.store s'.store → Q (f tt s'))
      → ((r : Outcome B) (s' : DeviceState D H)
          → is_ok r ≡ false
          → file.load s'.store ≡ file.load s.store
          → Q (r, s'))
      → Q ((on_store (update_checkpoint file (update_claims (insert uid v))) >>= f) s)
  insert-cases uid v f Q s good bad =
      changed-cases (update_checkpoint file (update_claims (insert uid v)))
        (Recorded file uid v s.store) f Q s (update_checkpoint-insert file laws uid v s.store) good
        bad
