-- ===== src/HamiCore/Release/Rounds.antt =====
-- What one round of the loop over vgpu/containers, and the whole loop, may change.
use k8s_dra_driver.Common.{
  Bool, true, false, ◌&&◌, ◌||◌, Option, none, some, [], ◌∷◌, String, ◌==◌, eq_iff, if◌then◌else◌,
  Map, lookup, insert, delete, lookup-insert, lookup-delete, Outcome, ok, is_ok, pure, chain-cases,
  ◌≡◌, ◌≢◌, refl, ap, sym, ◌∙◌, subst, arith, Bool-cases, inl, inr,
}
use k8s_dra_driver.HamiCore.Disk.{
  Disk, Node, directory, not_a_directory, FileKind, Reply, granted, refused, nodes, remove_all,
  leave, remove_reply, remove_from, next_reply,
}
use k8s_dra_driver.HamiCore.Release.{is_owned, release_entry, release_entries}
use k8s_dra_driver.HamiCore.Release.Ownership.{at, at-same, owns, Found, is_owned-Found}

-- A removal touches no other entry, and one that succeeds leaves none.
abbrev pub Removed : String → Disk → Outcome (Unit {0}) × Disk → Type 0
Removed name d p =
    ((k : String) → name ≢ k → at k p.1 ≡ at k d) × (is_ok p.0 ≡ true → at name p.1 ≡ none)

pub leave-others :
    (f : Map FileKind → Map FileKind) (o : Option Node) (m : Map Node) (name k : String)
    → name ≢ k
    → lookup k (leave f o m name) ≡ lookup k m
unfolding lookup insert
leave-others f none m name k n = refl
leave-others f (some not_a_directory) m name k n = refl
leave-others f (some (directory files)) m name k n =
    ground (arith, lookup-insert name k (directory (f files)) m, eq_iff name k)

remove_reply-Removed :
    (name : String) (r : Reply) (d : Disk) → Removed name d (remove_reply name r d)
unfolding delete insert lookup
remove_reply-Removed name granted d = (
  λ k n. ground (arith, lookup-delete name k (nodes d.containers), eq_iff name k),
  λ b. ground (arith, lookup-delete name name (nodes d.containers), eq_iff name name),
)
remove_reply-Removed name (refused f) d =
    (λ k n. leave-others f _ (nodes d.containers) name k n, λ b. cc)

remove_from-Removed :
    (name : String) (c : Option (Map Node)) (d : Disk)
    → d.containers ≡ c
    → Removed name d (remove_from name c d)
unfolding lookup
remove_from-Removed name none d e = (λ k n. refl, λ b. ap (λ c. lookup name (nodes c)) e)
remove_from-Removed name (some m) d e =
    remove_reply-Removed name (next_reply d.replies).0
      (record d { replies = (next_reply d.replies).1 })

pub remove_all-Removed : (name : String) (d : Disk) → Removed name d (remove_all name d)
unfolding remove_all
remove_all-Removed name d = remove_from-Removed name d.containers d refl

abbrev pub is_directory : Node → Bool
is_directory (directory files) = true
is_directory not_a_directory = false

abbrev pub is_round : String → String → Node → Bool
is_round k name n = name == k && is_directory n

-- What one round may do: it spares what the claim does not own and every other entry.
abbrev Released : String → String → Node → Disk → Outcome (Unit {0}) × Disk → Type 0
Released uid name n d p =
    ((k : String) → owns uid (at k d) ≡ false → at k p.1 ≡ at k d)
    × ((k : String) → is_round k name n ≡ false → at k p.1 ≡ at k d)
    × (is_ok p.0 ≡ true
        → (k : String) → is_round k name n ≡ true
        → owns uid (at k d) ≡ true
        → at k p.1 ≡ none)

differ : (k name : String) (b : Bool) → (name == k && true) ≡ b → b ≡ false → name ≢ k
differ k name b h f = ground (arith, eq_iff name k)

agree : (k name : String) (b : Bool) → (name == k && b) ≡ true → name ≡ k
agree k name b h = ground (arith, eq_iff name k)

module _ (uid name : String) (d d' : Disk) (same : d'.containers ≡ d.containers) where
  release_found :
      (files : Map FileKind) (owned : Bool)
      → owned ≡ owns uid (at name d)
      → Released uid name (directory files) d ((if owned then remove_all name else pure tt) d')
  release_found files true found =
      let removed = remove_all-Removed name d' in
      (
        λ k h. removed.0 k (λ q. cc (found, h, q)) ∙ at-same k d d' same,
        λ k h. removed.0 k (differ k name _ h refl) ∙ at-same k d d' same,
        λ b k x y. ap (λ k. at k (remove_all name d').1) (sym (agree k name true x)) ∙ removed.1 b,
      )
  release_found files false found = (
    λ k h. at-same k d d' same,
    λ k h. at-same k d d' same,
    λ b k x y. cc (found, agree k name true x, y),
  )

release_entry-Released :
    (uid name : String) (n : Node) (d : Disk) → Released uid name n d (release_entry uid name n d)
unfolding release_entry
release_entry-Released uid name not_a_directory d =
    (λ k h. refl, λ k h. refl, λ b k x y. ground arith)
release_entry-Released uid name (directory files) d =
    let found = is_owned-Found uid name d in
    chain-cases (is_owned uid name) (λ owned. if owned then remove_all name else pure tt)
      (Released uid name (directory files) d) d
      (λ owned d' e.
        release_found uid name d d' (ap (λ p. p.1.containers) (sym e) ∙ found.0) files owned
          (subst (λ p. Found uid (at name d) p.0) e found.1))
      (λ r d' b e b'.
        let same = ap (λ d. d.containers) (sym e) ∙ found.0 in
        (λ k h. at-same k d d' same, λ k h. at-same k d d' same, λ c k x y. cc))

-- Whether a listing shows a directory under a name.
unfoldable pub shows : String → Map Node → Bool
shows k [] = false
shows k ((name, n) ∷ m) = is_round k name n || shows k m

abbrev pub Swept : String → Map Node → Disk → Outcome (Unit {0}) × Disk → Type 0
Swept uid m d p =
    ((k : String) → owns uid (at k d) ≡ false → at k p.1 ≡ at k d)
    × (is_ok p.0 ≡ true
        → (k : String) → shows k m ≡ true
        → owns uid (at k d) ≡ true
        → at k p.1 ≡ none)

pub none-unowned : (uid : String) (o : Option Node) → o ≡ none → owns uid o ≡ false
none-unowned uid none e = refl
none-unowned uid (some n) e = cc

Swept-next :
    (uid name : String) (n : Node) (m : Map Node) (d d' : Disk) (p : Outcome (Unit {0}) × Disk)
    → Released uid name n d (ok tt, d')
    → Swept uid m d' p
    → Swept uid ((name, n) ∷ m) d p
unfolding shows
Swept-next uid name n m d d' p one rest = (
  λ k h. let same = one.0 k h in rest.0 k (ap (owns uid) same ∙ h) ∙ same,
  λ b k shown h. elim (Bool-cases (is_round k name n)) [
    | inl q ↦ let gone = one.2 refl k q h in rest.0 k (none-unowned uid _ gone) ∙ gone
    | inr q ↦
        rest.1 b k (subst (λ t. (t || shows k m) ≡ true) q shown) (ap (owns uid) (one.1 k q) ∙ h)
  ],
)

pub release_entries-Swept :
    (uid : String) (m : Map Node) (d : Disk) → Swept uid m d (release_entries uid m d)
unfolding release_entries shows
release_entries-Swept uid [] d = (λ k h. refl, λ b k x y. cc)
release_entries-Swept uid ((name, n) ∷ m) d =
    let one = release_entry-Released uid name n d in
    chain-cases (release_entry uid name n) (λ _. release_entries uid m)
      (Swept uid ((name, n) ∷ m) d) d
      (λ a d' e.
        Swept-next uid name n m d d' (release_entries uid m d')
          (subst (Released uid name n d) e one) (release_entries-Swept uid m d'))
      (λ r d' b e b'. (λ k h. ap (at k) (sym e) ∙ one.0 k h, λ c k x y. cc))
