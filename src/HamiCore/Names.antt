-- ===== src/HamiCore/Names.antt =====
-- The test of a claim's UID in `Unprepare` of hami_core.go.
use Prim.Native.Char.{code}
use Prim.Native.String.{String, [], ◌∷◌}
use k8s_dra_driver.Common.{Bool, false, not, ◌||◌, ◌==◌, eqb}

unfoldable pub has_slash : String → Bool
has_slash [] = false
has_slash (c ∷ s) = eqb (code c) b'/' || has_slash s

-- filepath.IsLocal(uid), filepath.Base(uid) == uid and uid != ".": a name that is not empty, holds no
-- separator and is neither "." nor "..".
unfoldable pub is_valid_uid : String → Bool
unfolding has_slash
is_valid_uid uid = not (uid == "" || uid == "." || uid == ".." || has_slash uid)
