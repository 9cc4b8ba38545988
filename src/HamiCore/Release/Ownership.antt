-- ===== src/HamiCore/Release/Ownership.antt =====
-- Which directories `Unprepare` removes.
use k8s_dra_driver.Common.{
  Bool, true, false, Option, none, some, List, [], ◌∷◌, String, ◌<>◌, if◌then◌else◌, lookup,
  Outcome, ok, err, panic, is_ok, pure, chain-cases, ◌≡◌, refl, ap, sym, ◌∙◌, subst,
}
use k8s_dra_driver.HamiCore.Disk.{
  Disk, Node, FileKind, regular, irregular, Reply, granted, refused, nodes, lstat, file_at,
}
use k8s_dra_driver.HamiCore.Edits.{hami_core_claim_marker_prefix}
use k8s_dra_driver.HamiCore.Release.{inspect, is_owned}

-- The entry of vgpu/containers with a name.
abbrev pub at : String → Disk → Option Node
at name d = lookup name (nodes d.containers)

abbrev pub is_regular : Option FileKind → Bool
is_regular (some regular) = true
is_regular _ = false

-- A claim owns a directory that has its marker or, without a marker, its cache file, as a regular
-- file.
abbrev pub owns_by : Option FileKind → Option FileKind → Bool
owns_by (some k) cache = is_regular (some k)
owns_by none cache = is_regular cache

abbrev pub owns : String → Option Node → Bool
owns uid o =
    owns_by (file_at (hami_core_claim_marker_prefix <> uid) o) (file_at (uid <> ".cache") o)

reply_lem :
    (name file : String) (d : Disk) (rs : List Reply)
    → d.replies ≡ rs
    → ((inspect name file d).1.containers ≡ d.containers)
unfolding lstat
reply_lem name file d [] e = rw e refl
reply_lem name file d (granted ∷ rs) e = rw e refl
reply_lem name file d (refused f ∷ rs) e = rw e refl

-- What is seen of a file that is there or not.
abbrev Seen : Option FileKind → Outcome Bool → Type 0
Seen o (ok b) = b ≡ is_regular o × (b ≡ false → o ≡ none)
Seen o (err e) = Unit
Seen o panic = Unit

seen_lem :
    (name file : String) (d : Disk) (rs : List Reply) (o : Option FileKind)
    → d.replies ≡ rs
    → file_at file (at name d) ≡ o
    → Seen o (inspect name file d).0
unfolding lstat
seen_lem name file d [] (some regular) e e' = rw (e, e') (refl, λ q. cc)
seen_lem name file d [] (some irregular) e e' = rw (e, e') tt
seen_lem name file d [] none e e' = rw (e, e') (refl, λ q. refl)
seen_lem name file d (granted ∷ rs) (some regular) e e' = rw (e, e') (refl, λ q. cc)
seen_lem name file d (granted ∷ rs) (some irregular) e e' = rw (e, e') tt
seen_lem name file d (granted ∷ rs) none e e' = rw (e, e') (refl, λ q. refl)
seen_lem name file d (refused f ∷ rs) o e e' = rw e tt

pub at-same : (name : String) (d d' : Disk) → d'.containers ≡ d.containers → at name d' ≡ at name d
at-same name d d' e = ap (λ c. lookup name (nodes c)) e

-- What `is_owned` finds is what stands on the disk.
abbrev pub Found : String → Option Node → Outcome Bool → Type 0
Found uid o (ok b) = b ≡ owns uid o
Found uid o (err e) = Unit
Found uid o panic = Unit

found_failed : (uid : String) (o : Option Node) (r : Outcome Bool) → is_ok r ≡ false → Found uid o r
found_failed uid o (ok b) e = cc
found_failed uid o (err x) e = tt
found_failed uid o panic e = tt

owns_marked : (o c : Option FileKind) → true ≡ is_regular o → true ≡ owns_by o c
owns_marked none c e = cc
owns_marked (some k) c e = e

found_cache :
    (uid : String) (o : Option Node) (r : Outcome Bool)
    → file_at (hami_core_claim_marker_prefix <> uid) o ≡ none
    → Seen (file_at (uid <> ".cache") o) r
    → Found uid o r
found_cache uid o (ok b) e seen = rw e (seen.0)
found_cache uid o (err x) e seen = tt
found_cache uid o panic e seen = tt

second :
    (uid name : String) (d d' : Disk) (marked : Bool)
    → d'.containers ≡ d.containers
    → Seen (file_at (hami_core_claim_marker_prefix <> uid) (at name d)) (ok marked)
    → let p = (if marked then pure true else inspect name (uid <> ".cache")) d' in
      (p.1.containers ≡ d.containers) × Found uid (at name d) p.0
second uid name d d' true same seen = (same, owns_marked _ _ seen.0)
second uid name d d' false same seen = (
  reply_lem name (uid <> ".cache") d' _ refl ∙ same,
  found_cache uid (at name d) _ (seen.1 refl) (
      subst (λ o. Seen (file_at (uid <> ".cache") o) (inspect name (uid <> ".cache") d').0)
        (at-same name d d' same) (seen_lem name (uid <> ".cache") d' _ _ refl refl)),
)

pub is_owned-Found :
    (uid name : String) (d : Disk)
    → ((is_owned uid name d).1.containers ≡ d.containers)
      × Found uid (at name d) (is_owned uid name d).0
unfolding is_owned
is_owned-Found uid name d =
    let file = hami_core_claim_marker_prefix <> uid in
    chain-cases (inspect name file)
      (λ marked. if marked then pure true else inspect name (uid <> ".cache"))
      (λ p. (p.1.containers ≡ d.containers) × Found uid (at name d) p.0) d
      (λ marked d' e.
        second uid name d d' marked
          (ap (λ p. p.1.containers) (sym e) ∙ reply_lem name file d _ refl)
          (subst (λ p. Seen (file_at file (at name d)) p.0) e (seen_lem name file d _ _ refl refl)))
      (λ r d' b e b'. (
        ap (λ d. d.containers) (sym e) ∙ reply_lem name file d _ refl,
        found_failed uid (at name d) r b,
      ))
