-- ===== src/HamiCore/Release.antt =====
-- `Unprepare` of hami_core.go: the removal of the cache of a claim.
pub mod Ownership
pub mod Rounds
pub mod Cache
use k8s_dra_driver.Common.{
  Bool, true, false, not, ◌&&◌, ◌||◌, Option, none, some, [], ◌∷◌, String, ◌<>◌, ◌==◌,
  if◌then◌else◌, Map, lookup, Outcome, ok, err, panic, Fault, not_found, failure, Exec, ◌>>=◌, ◌>>◌,
  pure, raise, lift,
}
use k8s_dra_driver.HamiCore.Disk.{
  Disk, Node, directory, not_a_directory, FileKind, regular, irregular, remove_all,
  remove_all_legacy, read_dir, lstat,
}
use k8s_dra_driver.HamiCore.Names.{is_valid_uid}
use k8s_dra_driver.HamiCore.Edits.{hami_core_claim_marker_prefix}

-- What one `os.Lstat` shows: the claim's file, no file, or an error.
abbrev judged : Outcome FileKind → Outcome Bool
judged (ok regular) = ok true
judged (ok irregular) = err (failure "claim ownership path is not a regular file")
judged (err (not_found m)) = ok false
judged (err (failure m)) = err (failure m)
judged panic = panic

abbrev inspect : String → String → Exec Disk Bool
inspect name file d = let (r, d') = lstat name file d in (judged r, d')

-- The loop over the marker and the cache file.
unfoldable pub is_owned : String → String → Exec Disk Bool
unfolding lstat
is_owned uid name = inspect name (hami_core_claim_marker_prefix <> uid) >>= λ marked.
    if marked then pure true else inspect name (uid <> ".cache")

-- One round of the loop over the entries.
unfoldable pub release_entry : String → String → Node → Exec Disk (Unit {0})
unfolding is_owned remove_all
release_entry uid name not_a_directory = pure tt
release_entry uid name (directory files) =
    is_owned uid name >>= λ owned. if owned then remove_all name else pure tt

unfoldable pub release_entries : String → Map Node → Exec Disk (Unit {0})
unfolding release_entry
release_entries uid [] = pure tt
release_entries uid ((name, n) ∷ m) =
    let rest = release_entries uid m in release_entry uid name n >> rest

-- A directory that is not there has no entries.
abbrev entries_of : String → Outcome (Map Node) → Exec Disk (Unit {0})
entries_of uid (ok m) = release_entries uid m
entries_of uid (err (not_found x)) = pure tt
entries_of uid (err (failure x)) = raise "failed to list containers path"
entries_of uid panic = lift panic

abbrev after_listing : String → Outcome (Map Node) × Disk → Outcome (Unit {0}) × Disk
after_listing uid (r, d) = entries_of uid r d

-- (m *HAMiCoreManager) Unprepare; the list of devices is not read.
unfoldable pub unprepare_cache : String → Exec Disk (Unit {0})
unfolding is_valid_uid remove_all_legacy read_dir release_entries
unprepare_cache uid =
    if not (is_valid_uid uid)
    then raise "invalid claim UID for cache cleanup"
    else (remove_all_legacy uid >> (λ d. after_listing uid (read_dir d)))
