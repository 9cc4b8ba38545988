-- ===== src/HamiCore/Edits/Cache.antt =====
-- What the preparation of a claim does to vgpu/containers.
use k8s_dra_driver.Common.{
  chain-same, true, Option, none, some, [], String, ◌<>◌, eq_iff, Map, lookup, insert,
  lookup-insert, Exec, ◌>>=◌, Ensures, chain-Ensures, ◌≡◌, ◌≢◌, refl, ap, ◌∙◌, arith,
}
use k8s_dra_driver.HamiCore.Disk.{
  Disk, Node, directory, not_a_directory, FileKind, regular, Reply, granted, refused, nodes,
  remove_all, mkdir_all, chmod, write_file, mkdir_reply, make_at, write_reply, write_at,
  plain_reply, next_reply, file_at,
}
use k8s_dra_driver.HamiCore.Edits.{hami_core_claim_marker_prefix, make_cache}
use k8s_dra_driver.HamiCore.Release.Ownership.{at, owns}
use k8s_dra_driver.HamiCore.Release.Rounds.{leave-others, remove_all-Removed}

-- An action that touches no entry but one.
abbrev pub Confined : {A : Type 0} → String → Exec Disk A → Type 0
Confined name m = (d : Disk) (k : String) → name ≢ k → at k (m d).1 ≡ at k d

chain-Confined :
    {A B : Type 0} (name : String) (m : Exec Disk A) (f : A → Exec Disk B)
    → Confined name m
    → ((a : A) → Confined name (f a))
    → Confined name (m >>= f)
chain-Confined name m f hm hf d k n = chain-same (at k) m f d (hm d k n) (λ a d'. hf a d' k n)

inserted :
    (name k : String) (n : Node) (m : Map Node) → name ≢ k → lookup k (insert name n m) ≡ lookup k m
inserted name k n m h = ground (arith, lookup-insert name k n m, eq_iff name k)

make_at-Confined : (name : String) (o : Option Node) → Confined name (make_at name o)
unfolding insert lookup
make_at-Confined name none d k n = inserted name k (directory []) (nodes d.containers) n
make_at-Confined name (some (directory files)) d k n = refl
make_at-Confined name (some not_a_directory) d k n = refl

mkdir_reply-Confined : (name : String) (r : Reply) → Confined name (mkdir_reply name r)
unfolding lookup
mkdir_reply-Confined name granted d k n =
    make_at-Confined name (lookup name (nodes d.containers)) d k n
mkdir_reply-Confined name (refused f) d k n = refl

plain_reply-Confined : (name : String) (r : Reply) → Confined name (plain_reply r)
plain_reply-Confined name granted d k n = refl
plain_reply-Confined name (refused f) d k n = refl

write_at-Confined : (name file : String) (o : Option Node) → Confined name (write_at name file o)
unfolding insert lookup
write_at-Confined name file (some (directory files)) d k n =
    inserted name k (directory (insert file regular files)) (nodes d.containers) n
write_at-Confined name file (some not_a_directory) d k n = refl
write_at-Confined name file none d k n = refl

write_reply-Confined : (name file : String) (r : Reply) → Confined name (write_reply name file r)
unfolding lookup insert
write_reply-Confined name file granted d k n =
    write_at-Confined name file (lookup name (nodes d.containers)) d k n
write_reply-Confined name file (refused f) d k n = leave-others f _ (nodes d.containers) name k n

pub make_cache-Confined : (name uid : String) → Confined name (make_cache name uid)
unfolding make_cache mkdir_all chmod write_file
make_cache-Confined name uid =
    chain-Confined name (remove_all name) _ (λ d k n. (remove_all-Removed name d).0 k n)
      λ _.
        chain-Confined name (mkdir_all name) _
          (λ d. mkdir_reply-Confined name (next_reply d.replies).0 _)
          λ _.
            chain-Confined name (chmod name) _
              (λ d. plain_reply-Confined name (next_reply d.replies).0 _)
              λ _ d.
                write_reply-Confined name (hami_core_claim_marker_prefix <> uid)
                  (next_reply d.replies).0 _

-- A file that is written into a directory is there, as a regular file.
abbrev pub Holds : String → String → Disk → Type 0
Holds name uid d = owns uid (at name d) ≡ true

found_lem :
    (file : String) (o : Option Node) (files : Map FileKind)
    → o ≡ some (directory (insert file regular files))
    → file_at file o ≡ some regular
unfolding lookup insert
found_lem file o files e = ap (file_at file) e ∙ ground (arith, eq_iff file file)

owned_lem :
    (uid : String) (o : Option Node)
    → file_at (hami_core_claim_marker_prefix <> uid) o ≡ some regular
    → owns uid o ≡ true
owned_lem uid o e = rw e refl

write_at-Holds :
    (name uid : String) (o : Option Node)
    → Ensures (Holds name uid) (write_at name (hami_core_claim_marker_prefix <> uid) o)
unfolding insert
write_at-Holds name uid (some (directory files)) d b =
    let file = hami_core_claim_marker_prefix <> uid in
    owned_lem uid _ (
      found_lem file _ files (
        ground (
          arith,
          lookup-insert name name (directory (insert file regular files)) (nodes d.containers),
          eq_iff name name,
        )))
write_at-Holds name uid (some not_a_directory) d b = cc
write_at-Holds name uid none d b = cc

write_reply-Holds :
    (name uid : String) (r : Reply)
    → Ensures (Holds name uid) (write_reply name (hami_core_claim_marker_prefix <> uid) r)
write_reply-Holds name uid granted d b = write_at-Holds name uid _ d b
write_reply-Holds name uid (refused f) d b = cc

pub make_cache-Holds : (name uid : String) → Ensures (Holds name uid) (make_cache name uid)
unfolding make_cache write_file
make_cache-Holds name uid = chain-Ensures (Holds name uid) (remove_all name) _ λ _.
    chain-Ensures (Holds name uid) (mkdir_all name) _ λ _.
      chain-Ensures (Holds name uid) (chmod name) _
        λ _ d. write_reply-Holds name uid (next_reply d.replies).0 _
