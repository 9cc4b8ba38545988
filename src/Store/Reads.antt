-- ===== src/Store/Reads.antt =====
-- What `getCheckpoint` reads.
use k8s_dra_driver.Common.{◌≡◌, refl, ap, sym, ◌∙◌, Outcome, ok, err, panic}
use k8s_dra_driver.Checkpoint.{Checkpoint, claims}
use k8s_dra_driver.Store.{CheckpointFile, get_checkpoint}
use k8s_dra_driver.Store.Laws.{IsFile}
use k8s_dra_driver.Store.Updates.{stored_claims, of_file}

module _ {D : Type 0} (file : CheckpointFile D) where
  -- The file is as it was, and what was read are its claims.
  abbrev pub Read : D → Outcome Checkpoint × D → Type 0
  Read d (ok cp, d') = (file.load d' ≡ file.load d) × (claims cp ≡ stored_claims file d)
  Read d (err e, d') = file.load d' ≡ file.load d
  Read d (panic, d') = file.load d' ≡ file.load d

module _ {D : Type 0} (file : CheckpointFile D) (laws : IsFile file) where
  open file use {acquire, release, load}

  read :
      (d : D) (p : Outcome (Unit {0}) × D) (r : Outcome Checkpoint)
      → acquire d ≡ p
      → load p.1 ≡ r
      → Read file d (get_checkpoint file d)
  unfolding get_checkpoint
  read d (ok _, d') (ok c) e1 e2 =
      let same : load d' ≡ load d = sym (ap (λ p. load p.1) e1) ∙ laws.load-acquire d in
      rw (e1, e2) (laws.load-release d' ∙ same, ap of_file (sym e2 ∙ same))
  read d (ok _, d') (err x) e1 e2 =
      rw (e1, e2) (laws.load-release d' ∙ sym (ap (λ p. load p.1) e1) ∙ laws.load-acquire d)
  read d (ok _, d') panic e1 e2 =
      rw (e1, e2) (laws.load-release d' ∙ sym (ap (λ p. load p.1) e1) ∙ laws.load-acquire d)
  read d (err x, d') r e1 e2 = rw e1 (sym (ap (λ p. load p.1) e1) ∙ laws.load-acquire d)
  read d (panic, d') r e1 e2 = rw e1 (sym (ap (λ p. load p.1) e1) ∙ laws.load-acquire d)

  pub get_checkpoint-Read : (d : D) → Read file d (get_checkpoint file d)
  get_checkpoint-Read d = read d _ _ refl refl
