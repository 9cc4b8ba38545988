-- ===== src/Store/Boot.antt =====
-- What `initCheckpoint` leaves of the claims of an earlier run of the plugin.
use k8s_dra_driver.Common.{
  Bool, true, false, List, [], String, ◌==◌, eq_iff, if◌then◌else◌, ◌||◌, contains, Map, map_values,
  map_option, ◌≡◌, ◌⊎◌, inl, inr, refl, ap, sym, ◌∙◌, Outcome, ok, err, panic, Bool-cases,
}
use k8s_dra_driver.Checkpoint.{
  Checkpoint, CheckpointV2, PreparedClaim, to_latest_version, claims, get_node_boot_id,
}
use k8s_dra_driver.Checkpoint.Persist.{persist, persist_claim}
use k8s_dra_driver.Checkpoint.RoundTrip.{written, claims-persist, claims-persist-written}
use k8s_dra_driver.Store.{
  CheckpointFile, set_boot_id, renew, check_existing, get_checkpoint, create_checkpoint,
  update_checkpoint, init_checkpoint, checkpoint_file_basename, fresh,
}
use k8s_dra_driver.Store.Laws.{IsFile}
use k8s_dra_driver.Store.Writes.{update_checkpoint-Written, create_checkpoint-Created}

module _ {D : Type 0} (file : CheckpointFile D) where
  -- The file holds a checkpoint with this boot id and these claims.
  abbrev pub Holds : String → Map PreparedClaim → D → Type 0
  Holds id m d =
      (c : Checkpoint) × (file.load d ≡ ok c)
      × (get_node_boot_id (to_latest_version c) ≡ id)
      × (claims (to_latest_version c) ≡ m)

-- The claims that a start of the plugin under a boot id keeps of a checkpoint.
abbrev pub kept : String → Checkpoint → Map PreparedClaim
kept current c =
    let stored = get_node_boot_id (to_latest_version c) in
    if stored == current || stored == "" then claims (to_latest_version c) else []

module _ {D : Type 0} (file : CheckpointFile D) (laws : IsFile file) where
  open file use {load, acquire, release}

  fresh_written :
      (id : String) (d : D)
      → (create_checkpoint file (fresh id) d).0 ≡ ok tt
      → Holds file id [] (create_checkpoint file (fresh id) d).1
  unfolding to_latest_version persist get_node_boot_id map_values
  fresh_written id d h = elim (create_checkpoint-Created file laws (fresh id) d) [
    | inl (done, c1, c2, new) ↦ (persist (written c1 c2 (fresh id)), new, refl, refl)
    | inr (failed, old) ↦ elim (failed h) [ ]
  ]

  abbrev put_id : String → CheckpointV2 → CheckpointV2
  put_id id v2 = record v2 { node_boot_id = id }

  abbrev with_id : String → Checkpoint → Checkpoint
  with_id id c = record c { v2 = map_option (put_id id) c.v2 }

  -- Putting the boot id into a checkpoint that has none keeps its claims.
  id_written :
      (id : String) (d : D) (c : Checkpoint)
      → load d ≡ ok c
      → (update_checkpoint file (set_boot_id id) d).0 ≡ ok tt
      → Holds file id (claims (to_latest_version c)) (update_checkpoint file (set_boot_id id) d).1
  unfolding to_latest_version persist get_node_boot_id
  id_written id d c e h = elim (update_checkpoint-Written file laws (set_boot_id id) d) [
    | inl (done, c', cp, c1, c2, read, put, new) ↦
        let same : c' ≡ c = cc in
        let put' : ok cp ≡ ok (with_id id (to_latest_version c)) =
          sym put ∙ ap (λ c. set_boot_id id (to_latest_version c)) same in
        let e' : cp ≡ with_id id (to_latest_version c) = cc in
        (
          persist (written c1 c2 cp),
          new,
          ap (λ c. get_node_boot_id (to_latest_version (persist (written c1 c2 c)))) e',
          claims-persist-written c1 c2 cp
              ∙ ap (λ c. map_values persist_claim (claims (to_latest_version c))) e'
              ∙ sym (claims-persist c)
              ∙ ap (λ c. claims (to_latest_version c)) (laws.persist-load d c e),
        )
    | inr (failed, old) ↦ elim (failed h) [ ]
  ]

  -- The lock is held and let go; the file is as it was.
  read_lem :
      (d : D) (p : Outcome (Unit {0}) × D) (r : Outcome Checkpoint)
      → acquire d ≡ p
      → load p.1 ≡ r
      → (cp : Checkpoint) → (get_checkpoint file d).0 ≡ ok cp
      → (c : Checkpoint) × (load d ≡ ok c)
        × (cp ≡ to_latest_version c)
        × (load (get_checkpoint file d).1 ≡ load d)
  unfolding get_checkpoint
  read_lem d (ok _, d') (ok c) e1 e2 cp h =
      let g : get_checkpoint file d ≡ (ok (to_latest_version c), release d') = rw (e1, e2) refl in
      let same : load d' ≡ load d = sym (ap (λ p. load p.1) e1) ∙ laws.load-acquire d in
      (c, sym same ∙ e2, cc, ap (λ p. load p.1) g ∙ laws.load-release d' ∙ same)
  read_lem d (ok _, d') (err x) e1 e2 cp h = cc (rw (e1, e2) at h)
  read_lem d (ok _, d') panic e1 e2 cp h = cc (rw (e1, e2) at h)
  read_lem d (err x, d') r e1 e2 cp h = cc (rw e1 at h)
  read_lem d (panic, d') r e1 e2 cp h = cc (rw e1 at h)

  renewed :
      (current : String) (d : D) (c : Checkpoint) (b b' : Bool)
      → get_node_boot_id (to_latest_version c) == current ≡ b
      → get_node_boot_id (to_latest_version c) == "" ≡ b'
      → load d ≡ ok c
      → (renew file current (get_node_boot_id (to_latest_version c)) d).0 ≡ ok tt
      → Holds file current
          (kept current c)
          (renew file current (get_node_boot_id (to_latest_version c)) d).1
  unfolding renew
  renewed current d c true b' q q' e h =
      rw q (c, e, (eq_iff (get_node_boot_id (to_latest_version c)) current).0 q, refl)
  renewed current d c false true q q' e h = rw (q, q') (id_written current d c e (rw (q, q') at h))
  renewed current d c false false q q' e h = rw (q, q') (fresh_written current d (rw (q, q') at h))

  existing :
      (current : String) (d : D) (p : Outcome Checkpoint × D)
      → get_checkpoint file d ≡ p
      → (check_existing file current d).0 ≡ ok tt
      → (c : Checkpoint) × (load d ≡ ok c)
        × Holds file current (kept current c) (check_existing file current d).1
  unfolding check_existing
  existing current d (ok cp, d') q h =
      let (c, e, e1, e2) = read_lem d _ _ refl refl cp (ap (λ p. p.0) q) in
      let here : load d' ≡ ok c = sym (ap (λ p. load p.1) q) ∙ e2 ∙ e in
      (c, e, rw (q, e1) (renewed current d' c _ _ refl refl here (rw (q, e1) at h)))
  existing current d (err x, d') q h = cc (rw q at h)
  existing current d (panic, d') q h = cc (rw q at h)

  -- The claims that are left after a start: those of a checkpoint that is listed and of this boot
  -- or of a version that recorded no boot id, and otherwise none.
  abbrev pub Remains : String → D → List String → Map PreparedClaim → Type 0
  Remains current d listed m =
      ((contains checkpoint_file_basename listed ≡ true)
        × (c : Checkpoint) × (load d ≡ ok c)
        × (m ≡ kept current c))
      ⊎ ((contains checkpoint_file_basename listed ≡ false) × (m ≡ []))

  started :
      (current : String) (d : D) (r : Outcome (List String))
      (b : (l : List String)
        → (contains checkpoint_file_basename l ≡ true)
          ⊎ (contains checkpoint_file_basename l ≡ false))
      → file.names d ≡ r
      → (init_checkpoint file current d).0 ≡ ok tt
      → (listed : List String) × (file.names d ≡ ok listed)
        × (m : Map PreparedClaim) × Remains current d listed m
        × Holds file current m (init_checkpoint file current d).1
  unfolding init_checkpoint
  started current d (ok l) b e h = elim (b l) [
    | inl there ↦
        let (c, e', new) = existing current d _ refl (rw (e, there) at h) in
        (l, e, kept current c, inl (there, c, e', refl), rw (e, there) new)
    | inr absent ↦ (
      l,
      e,
      [],
      inr (absent, refl),
      rw (e, absent) (fresh_written current d (rw (e, absent) at h)),
    )
  ]
  started current d (err x) b e h = cc (rw e at h)
  started current d panic b e h = cc (rw e at h)

  -- A start of the plugin that succeeds leaves a checkpoint with the boot id of this boot. Its claims are those of the
  -- checkpoint that was listed, if that one is of this boot or has no boot id, and none otherwise.
  pub init_checkpoint-Remains :
      (current : String) (d : D)
      → (init_checkpoint file current d).0 ≡ ok tt
      → (listed : List String) × (file.names d ≡ ok listed)
        × (m : Map PreparedClaim) × Remains current d listed m
        × Holds file current m (init_checkpoint file current d).1
  init_checkpoint-Remains current d h =
      started current d _ (λ l. Bool-cases (contains checkpoint_file_basename l)) refl h
