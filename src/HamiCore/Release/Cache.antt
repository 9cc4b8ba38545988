-- ===== src/HamiCore/Release/Cache.antt =====
-- What a release of a claim leaves of vgpu/containers and of vgpu/claims.
use k8s_dra_driver.Common.{
  chain-same, true, false, not, Option, none, some, List, [], ◌∷◌, String, ◌<>◌, eq_iff,
  if◌then◌else◌, Map, lookup, insert, delete, lookup-delete, Outcome, is_ok, Exec, ◌>>=◌, ◌>>◌,
  pure, raise, chain-cases, if_cases, ◌≡◌, refl, ap, sym, ◌∙◌, subst, arith, Bool-cases, inl, inr,
}
use k8s_dra_driver.HamiCore.Disk.{
  Disk, Node, directory, not_a_directory, Reply, granted, refused, nodes, remove_all,
  remove_all_legacy, remove_legacy_reply, remove_reply, remove_from, next_reply, read_dir, lstat,
  consult, list_reply, listed,
}
use k8s_dra_driver.HamiCore.Names.{is_valid_uid}
use k8s_dra_driver.HamiCore.Edits.{hami_core_claim_marker_prefix}
use k8s_dra_driver.HamiCore.Release.{
  inspect, is_owned, release_entry, release_entries, after_listing, entries_of, unprepare_cache,
}
use k8s_dra_driver.HamiCore.Release.Ownership.{at, at-same, owns}
use k8s_dra_driver.HamiCore.Release.Rounds.{shows, release_entries-Swept}

-- An action that leaves vgpu/claims alone.
abbrev KeepsLegacy : {A : Type 0} → Exec Disk A → Type 0
KeepsLegacy m = (d : Disk) → (m d).1.legacy ≡ d.legacy

chain-KeepsLegacy :
    {A B : Type 0} (m : Exec Disk A) (f : A → Exec Disk B)
    → KeepsLegacy m
    → ((a : A) → KeepsLegacy (f a))
    → KeepsLegacy (m >>= f)
chain-KeepsLegacy m f km kf d = chain-same (λ d. d.legacy) m f d (km d) kf

inspect_lem :
    (name file : String) (d : Disk) (r : Reply) (rs : List Reply)
    → next_reply d.replies ≡ (r, rs)
    → (inspect name file d).1.legacy ≡ d.legacy
unfolding lstat
inspect_lem name file d granted rs e = rw e refl
inspect_lem name file d (refused f) rs e = rw e refl

remove_reply-KeepsLegacy : (name : String) (r : Reply) → KeepsLegacy (remove_reply name r)
remove_reply-KeepsLegacy name granted d = refl
remove_reply-KeepsLegacy name (refused f) d = refl

remove_from-KeepsLegacy : (name : String) (c : Option (Map Node)) → KeepsLegacy (remove_from name c)
remove_from-KeepsLegacy name none d = refl
remove_from-KeepsLegacy name (some m) d =
    chain-KeepsLegacy consult (λ r. remove_reply name r) (λ d. refl) (remove_reply-KeepsLegacy name)
      d

is_owned-KeepsLegacy : (uid name : String) → KeepsLegacy (is_owned uid name)
unfolding is_owned
is_owned-KeepsLegacy uid name =
    chain-KeepsLegacy (inspect name (hami_core_claim_marker_prefix <> uid))
      (λ marked. if marked then pure true else inspect name (uid <> ".cache"))
      (λ d. inspect_lem name _ d _ _ refl)
      (λ marked.
        if_cases marked (pure true) (inspect name (uid <> ".cache")) KeepsLegacy (λ e d. refl)
          (λ e d. inspect_lem name _ d _ _ refl))

release_entry-KeepsLegacy : (uid name : String) (n : Node) → KeepsLegacy (release_entry uid name n)
unfolding release_entry remove_all
release_entry-KeepsLegacy uid name not_a_directory d = refl
release_entry-KeepsLegacy uid name (directory files) d =
    chain-KeepsLegacy (is_owned uid name) (λ owned. if owned then remove_all name else pure tt)
      (is_owned-KeepsLegacy uid name)
      (λ owned.
        if_cases owned (remove_all name) (pure tt) KeepsLegacy
          (λ e d. remove_from-KeepsLegacy name d.containers d) (λ e d. refl))
      d

release_entries-KeepsLegacy : (uid : String) (m : Map Node) → KeepsLegacy (release_entries uid m)
unfolding release_entries
release_entries-KeepsLegacy uid [] d = refl
release_entries-KeepsLegacy uid ((name, n) ∷ m) d =
    chain-KeepsLegacy (release_entry uid name n) (λ _. release_entries uid m)
      (release_entry-KeepsLegacy uid name n) (λ _. release_entries-KeepsLegacy uid m) d

owned-shown : (uid k : String) (m : Map Node) → owns uid (lookup k m) ≡ true → shows k m ≡ true
unfolding lookup shows
owned-shown uid k [] h = cc
owned-shown uid k ((name, directory f) ∷ m) h = ground (arith, owned-shown uid k m)
owned-shown uid k ((name, not_a_directory) ∷ m) h = ground (arith, owned-shown uid k m)

-- What a release leaves of vgpu/containers.
abbrev Cleared : String → Disk → Outcome (Unit {0}) × Disk → Type 0
Cleared uid d p =
    ((k : String) → owns uid (at k d) ≡ false → at k p.1 ≡ at k d)
    × (is_ok p.0 ≡ true
        → ((k : String) → owns uid (at k d) ≡ true → at k p.1 ≡ none) × (p.1.legacy ≡ d.legacy))

entries-Cleared :
    (uid : String) (c : Option (Map Node)) (d : Disk)
    → d.containers ≡ c
    → Cleared uid d (entries_of uid (listed c) d)
unfolding lookup
entries-Cleared uid none d e = (λ k h. refl, λ b. (λ k h. ap (λ c. lookup k (nodes c)) e, refl))
entries-Cleared uid (some m) d e =
    let swept = release_entries-Swept uid m d in
    (
      swept.0,
      λ b. (
        λ k h.
            swept.1 b k
              (owned-shown uid k m (subst (λ c. owns uid (lookup k (nodes c)) ≡ true) e h)) h,
        release_entries-KeepsLegacy uid m d,
      ),
    )

listing-Cleared :
    (uid : String) (r : Reply) (d : Disk) → Cleared uid d (after_listing uid (list_reply r d))
listing-Cleared uid granted d = entries-Cleared uid d.containers d refl
listing-Cleared uid (refused f) d = (λ k h. refl, λ b. cc)

remove_legacy_lem :
    (uid : String) (r : Reply) (d : Disk)
    → ((remove_legacy_reply uid r d).1.containers ≡ d.containers)
      × (is_ok (remove_legacy_reply uid r d).0 ≡ true
          → lookup uid (remove_legacy_reply uid r d).1.legacy ≡ none)
unfolding delete lookup insert
remove_legacy_lem uid granted d =
    (refl, λ b. ground (arith, lookup-delete uid uid d.legacy, eq_iff uid uid))
remove_legacy_lem uid (refused f) d = (refl, λ b. cc)

remove_all_legacy_lem :
    (uid : String) (d : Disk)
    → ((remove_all_legacy uid d).1.containers ≡ d.containers)
      × (is_ok (remove_all_legacy uid d).0 ≡ true
          → lookup uid (remove_all_legacy uid d).1.legacy ≡ none)
unfolding remove_all_legacy
remove_all_legacy_lem uid d =
    let r = next_reply d.replies in remove_legacy_lem uid r.0 (record d { replies = r.1 })

-- What a release leaves of the disk.
abbrev Released : String → Disk → Outcome (Unit {0}) × Disk → Type 0
Released uid d p =
    ((k : String) → owns uid (at k d) ≡ false → at k p.1 ≡ at k d)
    × (is_ok p.0 ≡ true
        → ((k : String) → owns uid (at k d) ≡ true → at k p.1 ≡ none)
          × (lookup uid p.1.legacy ≡ none))

Released-next :
    (uid : String) (d d' : Disk) (p : Outcome (Unit {0}) × Disk)
    → d'.containers ≡ d.containers
    → lookup uid d'.legacy ≡ none
    → Cleared uid d' p
    → Released uid d p
Released-next uid d d' p same gone cleared = (
  λ k h. cleared.0 k (ap (owns uid) (at-same k d d' same) ∙ h) ∙ at-same k d d' same,
  λ b.
      let (now, legacy) = cleared.1 b in
      (λ k h. now k (ap (owns uid) (at-same k d d' same) ∙ h), ap (lookup uid) legacy ∙ gone),
)

release_valid :
    (uid : String) (d : Disk)
    → Released uid d ((remove_all_legacy uid >> (λ d. after_listing uid (read_dir d))) d)
unfolding read_dir
release_valid uid d =
    let legacy = remove_all_legacy_lem uid d in
    chain-cases (remove_all_legacy uid) (λ _ d. after_listing uid (read_dir d)) (Released uid d) d
      (λ a d' e.
        Released-next uid d d' (after_listing uid (read_dir d'))
          (ap (λ p. p.1.containers) (sym e) ∙ legacy.0)
          (subst (λ p. is_ok p.0 ≡ true → lookup uid p.1.legacy ≡ none) e legacy.1 refl)
          (listing-Cleared uid (next_reply d'.replies).0
            (record d' { replies = (next_reply d'.replies).1 })))
      (λ r d' b e b'. (λ k h. at-same k d d' (ap (λ d. d.containers) (sym e) ∙ legacy.0), λ c. cc))

unprepare_cache-Released : (uid : String) (d : Disk) → Released uid d (unprepare_cache uid d)
unfolding unprepare_cache
unprepare_cache-Released uid d =
    if_cases (not (is_valid_uid uid)) (raise "invalid claim UID for cache cleanup")
      (remove_all_legacy uid >> (λ d. after_listing uid (read_dir d))) (λ m. Released uid d (m d))
      (λ e. (λ k h. refl, λ b. cc)) (λ e. release_valid uid d)

-- A release removes no directory of another claim: whatever it returns, an entry of vgpu/containers
-- that has neither the claim's marker nor, without a marker, the claim's cache file as a regular file
-- is the same afterwards.
pub unprepare_cache-Spares :
    (uid k : String) (d : Disk)
    → owns uid (at k d) ≡ false
    → at k (unprepare_cache uid d).1 ≡ at k d
unprepare_cache-Spares uid k d h = (unprepare_cache-Released uid d).0 k h

-- A release that returns no error leaves in vgpu/containers exactly the entries that the claim does
-- not own, and no legacy entry of the claim in vgpu/claims.
pub unprepare_cache-Clears :
    (uid : String) (d : Disk)
    → is_ok (unprepare_cache uid d).0 ≡ true
    → ((k : String) → at k (unprepare_cache uid d).1 ≡ (if owns uid (at k d) then none else at k d))
      × (lookup uid (unprepare_cache uid d).1.legacy ≡ none)
unprepare_cache-Clears uid d b =
    let (spared, done) = unprepare_cache-Released uid d in
    let (gone, legacy) = done b in
    (
      λ k. elim (Bool-cases (owns uid (at k d))) [
        | inl q ↦ rw q (gone k q)
        | inr q ↦ rw q (spared k q)
      ],
      legacy,
    )
