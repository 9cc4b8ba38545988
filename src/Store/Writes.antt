-- ===== src/Store/Writes.antt =====
-- What `updateCheckpoint` and `createCheckpoint` leave in the checkpoint file.
use k8s_dra_driver.Common.{
  ℕ, ◌≡◌, ◌≢◌, ◌⊎◌, inl, inr, refl, ap, sym, subst, ◌∙◌, Outcome, ok, err, panic, Exec, ◌>>=◌, lift,
  asks, deferred,
}
use k8s_dra_driver.Checkpoint.{Checkpoint, to_latest_version}
use k8s_dra_driver.Checkpoint.Persist.{persist}
use k8s_dra_driver.Checkpoint.RoundTrip.{written}
use k8s_dra_driver.Store.{CheckpointFile, create_checkpoint, update_checkpoint}
use k8s_dra_driver.Store.Laws.{IsFile}

module _ {D : Type 0} (file : CheckpointFile D) where
  open file use {acquire, release, load, create}

  -- Either the checkpoint was written, or the call failed and the file is as it was.
  abbrev pub Created : Checkpoint → D → Outcome (Unit {0}) × D → Type 0
  Created cp d p =
      ((p.0 ≡ ok tt) × (c1 : ℕ) × (c2 : ℕ) × (load p.1 ≡ ok (persist (written c1 c2 cp))))
      ⊎ ((p.0 ≢ ok tt) × (load p.1 ≡ load d))

  -- The same of a call that reads the checkpoint and changes it.
  abbrev pub Written : (Checkpoint → Outcome Checkpoint) → D → Outcome (Unit {0}) × D → Type 0
  Written mutate d p =
      ((p.0 ≡ ok tt)
        × (c : Checkpoint) × (cp : Checkpoint) × (c1 : ℕ) × (c2 : ℕ) × (load d ≡ ok c)
        × (mutate (to_latest_version c) ≡ ok cp)
        × (load p.1 ≡ ok (persist (written c1 c2 cp))))
      ⊎ ((p.0 ≢ ok tt) × (load p.1 ≡ load d))

module _ {D : Type 0} (file : CheckpointFile D) (laws : IsFile file) where
  open file use {acquire, release, load, create}

  write : (cp : Checkpoint) (d : D) → Created file cp d (deferred release (create cp) d)
  write cp d = elim (laws.create_outcome cp d) [
    | inl (done, c1, c2, new) ↦ inl (done, c1, c2, laws.load-release _ ∙ new)
    | inr (x, failed, old) ↦ inr (rw failed (cc), laws.load-release _ ∙ old)
  ]

  created :
      (cp : Checkpoint) (d : D) (p : Outcome (Unit {0}) × D)
      → acquire d ≡ p
      → Created file cp d (create_checkpoint file cp d)
  unfolding create_checkpoint
  created cp d (ok _, d') e = rw e (elim (write cp d') [
    | inl new ↦ inl new
    | inr (failed, old) ↦ inr (failed, old ∙ sym (ap (λ p. load p.1) e) ∙ laws.load-acquire d)
  ])
  created cp d (err x, d') e = rw e (inr (cc, sym (ap (λ p. load p.1) e) ∙ laws.load-acquire d))
  created cp d (panic, d') e = rw e (inr (cc, sym (ap (λ p. load p.1) e) ∙ laws.load-acquire d))

  pub create_checkpoint-Created :
      (cp : Checkpoint) (d : D) → Created file cp d (create_checkpoint file cp d)
  create_checkpoint-Created cp d = created cp d _ refl

  module _ (mutate : Checkpoint → Outcome Checkpoint) where
    body : Exec D (Unit {0})
    body = asks load >>= λ cp. lift (mutate (to_latest_version cp)) >>= λ cp'. create cp'

    -- What the body does once the checkpoint is read and changed.
    run :
        (d : D) (c : Checkpoint) (r : Outcome Checkpoint)
        → load d ≡ ok c
        → mutate (to_latest_version c) ≡ r
        → body d ≡ (lift r >>= λ cp'. create cp') d
    unfolding body
    run d c r e h = rw (e, h) refl

    changed :
        (d : D) (c : Checkpoint) (r : Outcome Checkpoint)
        → load d ≡ ok c
        → mutate (to_latest_version c) ≡ r
        → Written file mutate d (deferred release body d)
    changed d c (ok cp) e h =
        subst (λ p. Written file mutate d (p.0, release p.1)) (sym (run d c _ e h))
          (elim (write cp d) [
            | inl (done, c1, c2, new) ↦ inl (done, c, cp, c1, c2, e, h, new)
            | inr old ↦ inr old
          ])
    changed d c (err x) e h =
        subst (λ p. Written file mutate d (p.0, release p.1)) (sym (run d c _ e h))
          (inr (cc, laws.load-release d))
    changed d c panic e h =
        subst (λ p. Written file mutate d (p.0, release p.1)) (sym (run d c _ e h))
          (inr (cc, laws.load-release d))

    locked :
        (d : D) (r : Outcome Checkpoint)
        → load d ≡ r
        → Written file mutate d (deferred release body d)
    unfolding body
    locked d (ok c) e = changed d c _ e refl
    locked d (err x) e = inr (rw e (cc), rw e (laws.load-release d ∙ e))
    locked d panic e = inr (rw e (cc), rw e (laws.load-release d ∙ e))

    -- The lock may be refused; what it grants leaves the file as it is.
    from_lock :
        (d d' : D) (p : Outcome (Unit {0}) × D)
        → load d' ≡ load d
        → Written file mutate d' p
        → Written file mutate d p
    from_lock d d' p e (inl (done, c, cp, c1, c2, read, h, new)) =
        inl (done, c, cp, c1, c2, sym e ∙ read, h, new)
    from_lock d d' p e (inr (failed, old)) = inr (failed, old ∙ e)

    acquired :
        (d : D) (p : Outcome (Unit {0}) × D)
        → acquire d ≡ p
        → Written file mutate d (update_checkpoint file mutate d)
    unfolding update_checkpoint body
    acquired d (ok _, d') e =
        rw e
          (from_lock d d' _ (sym (ap (λ p. load p.1) e) ∙ laws.load-acquire d) (locked d' _ refl))
    acquired d (err x, d') e = rw e (inr (cc, sym (ap (λ p. load p.1) e) ∙ laws.load-acquire d))
    acquired d (panic, d') e = rw e (inr (cc, sym (ap (λ p. load p.1) e) ∙ laws.load-acquire d))

    -- Whatever is changed, the checkpoint file holds the changed checkpoint or is as it was.
    pub update_checkpoint-Written :
        (d : D) → Written file mutate d (update_checkpoint file mutate d)
    update_checkpoint-Written d = acquired d _ refl
