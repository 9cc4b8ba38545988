-- ===== src/Health/Xids.antt =====
-- `getAdditionalXids` and `xidsToSkip` of device_health.go. A text is walked by its characters.
use Prim.Native.Char.{Char, code}
use Prim.Native.String.{String, [], ◌∷◌}
use k8s_dra_driver.Common.{
  ℕ, ◌+◌, ◌-◌, ◌*◌, ◌^◌, Bool, false, ◌&&◌, ◌||◌, Option, none, some, List, [], ◌∷◌, ◌++◌, ltb, leb,
  eqb, if◌then◌else◌, ◌==◌, ◌≡◌, refl,
}

-- unicode.IsSpace
abbrev is_space : ℕ → Bool
is_space c =
    leb 9 c && leb c 13
    || eqb c 32
    || eqb c 0x85
    || eqb c 0xA0
    || eqb c 0x1680
    || leb 0x2000 c && leb c 0x200A
    || eqb c 0x2028
    || eqb c 0x2029
    || eqb c 0x202F
    || eqb c 0x205F
    || eqb c 0x3000

trim_left : String → String
trim_left [] = []
trim_left (c ∷ s) = let rest = trim_left s in if is_space (code c) then rest else c ∷ s

-- strings.TrimSpace
trim_right : String → String
trim_right [] = []
trim_right (c ∷ s) = step c (trim_right s)
  where
    step : Char → String → String
    step c [] = if is_space (code c) then [] else c ∷ []
    step c (d ∷ t) = c ∷ d ∷ t

unfoldable pub trim_space : String → String
unfolding trim_left trim_right
trim_space s = trim_right (trim_left s)

-- strconv.ParseUint(s, 10, 64), on the value that has been read: only digits, and a value that fits.
unfoldable pub parse_digits : ℕ → String → Option ℕ
parse_digits n [] = some n
parse_digits n (c ∷ s) =
    let rest = parse_digits (10 * n + (code c - b'0')) s in
    if leb b'0' (code c) && leb (code c) b'9' then rest else none

abbrev fits : Option ℕ → Option ℕ
fits none = none
fits (some n) = if ltb n (2 ^ 64) then some n else none

unfoldable pub parse_uint : String → Option ℕ
unfolding parse_digits
parse_uint [] = none
parse_uint (c ∷ s) = fits (parse_digits 0 (c ∷ s))

-- One round of the loop: the number of a field, or nothing.
unfoldable pub xid_of : String → List ℕ
unfolding trim_space parse_uint
xid_of field = elim (parse_uint (trim_space field)) [ none ↦ [] | some n ↦ n ∷ [] ]

-- strings.Split(s, ","): the field that is being read, and the fields behind it.
split_from : String → String × List String
split_from [] = ([], [])
split_from (c ∷ s) =
    let (field, fields) = split_from s in
    if eqb (code c) b',' then ([], field ∷ fields) else (c ∷ field, fields)

split : String → List String
unfolding split_from
split s = let (field, fields) = split_from s in field ∷ fields

-- The loop of `getAdditionalXids`; a malformed field is left out.
xids_of : List String → List ℕ
unfolding xid_of
xids_of [] = []
xids_of (field ∷ fields) = xid_of field ++ xids_of fields

unfoldable pub get_additional_xids : String → List ℕ
unfolding split xids_of
get_additional_xids input = if input == "" then [] else xids_of (split input)

abbrev ignored_xids : List ℕ
ignored_xids = 13 ∷ 31 ∷ 43 ∷ 45 ∷ 68 ∷ 109 ∷ []

-- The keys of the map; all its values are true.
unfoldable pub xids_to_skip : String → List ℕ
unfolding get_additional_xids
xids_to_skip additional_xids = ignored_xids ++ get_additional_xids additional_xids

-- m.skippedXids[xid]
unfoldable pub is_skipped : ℕ → List ℕ → Bool
is_skipped xid [] = false
is_skipped xid (x ∷ xs) = eqb x xid || is_skipped xid xs

malformed : get_additional_xids " 7, x,18446744073709551616, 94" ≡ 7 ∷ 94 ∷ []
unfolding get_additional_xids split xids_of xid_of trim_space parse_uint parse_digits trim_left
    trim_right split_from
malformed = refl
