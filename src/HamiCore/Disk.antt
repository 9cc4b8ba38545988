-- ===== src/HamiCore/Disk.antt =====
-- The hook tree on the disk, as far as hami_core.go touches it: the directories under
-- vgpu/containers and vgpu/claims, and the calls of the `os` package that it makes there. Names of
-- pods, containers and claims hold no separator, so a path is its last component.
--
-- The operating system may refuse each call. `replies` says what it does with the calls to come: a
-- call that is refused fails, and a removal or a write that is refused may have changed the files of
-- its directory already. Where the list ends, every call is granted.
use k8s_dra_driver.Common.{
  Option, none, some, List, [], ◌∷◌, String, Map, lookup, insert, delete, Outcome, ok, err,
  not_found, failure, Exec, ◌>>=◌, pure, raise,
}

pub data FileKind : Type 0 where
  regular irregular : FileKind

-- An entry of vgpu/containers: a directory with its files, or something else.
pub data Node : Type 0 where
  directory : Map FileKind → Node
  not_a_directory : Node

pub data Reply : Type 0 where
  granted : Reply
  refused : (Map FileKind → Map FileKind) → Reply

-- `containers` is `none` where vgpu/containers does not exist; a listing is in the order of the list.
pub record Disk : Type 0 where
  pub containers : Option (Map Node)
  pub legacy : Map Node
  pub replies : List Reply

abbrev pub nodes : Option (Map Node) → Map Node
nodes none = []
nodes (some m) = m

-- The reply to the next call.
abbrev pub next_reply : List Reply → Reply × List Reply
next_reply [] = (granted, [])
next_reply (r ∷ rs) = (r, rs)

abbrev pub consult : Exec Disk Reply
consult d = let (r, rs) = next_reply d.replies in (ok r, record d { replies = rs })

-- What a removal that fails leaves of a directory.
abbrev pub leave : (Map FileKind → Map FileKind) → Option Node → Map Node → String → Map Node
leave f (some (directory files)) m name = insert name (directory (f files)) m
leave f (some not_a_directory) m name = m
leave f none m name = m

abbrev pub remove_reply : String → Reply → Exec Disk (Unit {0})
remove_reply name granted d =
    (ok tt, record d { containers = some (delete name (nodes d.containers)) })
remove_reply name (refused f) d = (
  err (failure "remove"),
  record d {
    containers = some (leave f (lookup name (nodes d.containers)) (nodes d.containers) name);
  },
)

abbrev pub remove_from : String → Option (Map Node) → Exec Disk (Unit {0})
remove_from name none d = (ok tt, d)
remove_from name (some m) d = (consult >>= λ r. remove_reply name r) d

-- os.RemoveAll of an entry of vgpu/containers; no entry is no error.
unfoldable pub remove_all : String → Exec Disk (Unit {0})
unfolding lookup insert delete
remove_all name d = remove_from name d.containers d

abbrev pub remove_legacy_reply : String → Reply → Exec Disk (Unit {0})
remove_legacy_reply name granted d = (ok tt, record d { legacy = delete name d.legacy })
remove_legacy_reply name (refused f) d =
    (err (failure "remove"), record d { legacy = leave f (lookup name d.legacy) d.legacy name })

-- os.RemoveAll of an entry of vgpu/claims.
unfoldable pub remove_all_legacy : String → Exec Disk (Unit {0})
unfolding delete lookup insert
remove_all_legacy name = consult >>= λ r. remove_legacy_reply name r

abbrev pub make_at : String → Option Node → Exec Disk (Unit {0})
make_at name none d =
    (ok tt, record d { containers = some (insert name (directory []) (nodes d.containers)) })
make_at name (some (directory files)) d = (ok tt, d)
make_at name (some not_a_directory) d = (err (failure "not a directory"), d)

abbrev pub mkdir_reply : String → Reply → Exec Disk (Unit {0})
mkdir_reply name granted d = make_at name (lookup name (nodes d.containers)) d
mkdir_reply name (refused f) d = (err (failure "mkdir"), d)

-- os.MkdirAll; what it makes above the directory when it fails is not seen by any other call.
unfoldable pub mkdir_all : String → Exec Disk (Unit {0})
unfolding lookup insert
mkdir_all name = consult >>= λ r. mkdir_reply name r

abbrev pub plain_reply : Reply → Exec Disk (Unit {0})
plain_reply granted = pure tt
plain_reply (refused f) = raise "chmod"

-- os.Chmod
unfoldable pub chmod : String → Exec Disk (Unit {0})
chmod name = consult >>= λ r. plain_reply r

abbrev pub write_at : String → String → Option Node → Exec Disk (Unit {0})
write_at name file (some (directory files)) d = (
  ok tt,
  record d {
    containers = some (insert name (directory (insert file regular files)) (nodes d.containers));
  },
)
write_at name file (some not_a_directory) d = (err (failure "not a directory"), d)
write_at name file none d = (err (not_found "no such directory"), d)

abbrev pub write_reply : String → String → Reply → Exec Disk (Unit {0})
write_reply name file granted d = write_at name file (lookup name (nodes d.containers)) d
write_reply name file (refused f) d = (
  err (failure "write"),
  record d {
    containers = some (leave f (lookup name (nodes d.containers)) (nodes d.containers) name);
  },
)

-- os.WriteFile of a file of a directory. The marker did not exist before, since the directory was
-- made for it.
unfoldable pub write_file : String → String → Exec Disk (Unit {0})
unfolding lookup insert
write_file name file = consult >>= λ r. write_reply name file r

abbrev pub listed : Option (Map Node) → Outcome (Map Node)
listed none = err (not_found "no such directory")
listed (some m) = ok m

abbrev pub list_reply : Reply → Exec Disk (Map Node)
list_reply granted d = (listed d.containers, d)
list_reply (refused f) d = (err (failure "readdir"), d)

-- os.ReadDir of vgpu/containers: the entries at that time.
unfoldable pub read_dir : Exec Disk (Map Node)
read_dir = consult >>= λ r. list_reply r

-- The file that a directory has under a name at this time.
abbrev pub file_at : String → Option Node → Option FileKind
file_at file (some (directory files)) = lookup file files
file_at file (some not_a_directory) = none
file_at file none = none

abbrev found_kind : Option FileKind → Outcome FileKind
found_kind none = err (not_found "no such file")
found_kind (some k) = ok k

abbrev lstat_reply : String → String → Reply → Exec Disk FileKind
lstat_reply name file granted d = (found_kind (file_at file (lookup name (nodes d.containers))), d)
lstat_reply name file (refused f) d = (err (failure "lstat"), d)

-- os.Lstat of a file of a directory
unfoldable pub lstat : String → String → Exec Disk FileKind
unfolding lookup
lstat name file = consult >>= λ r. lstat_reply name file r
