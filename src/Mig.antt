-- ===== src/Mig.antt =====
-- cmd/hami-kubelet-plugin/mig.go: canonical names of MIG devices, and their parser. A text is
-- walked by its characters. `strings.ToLower` is that of the ASCII letters, which are the only ones
-- that stand in a profile name.
mod Tests
use Prim.Native.Char.{Char, code}
use Prim.Native.String.{String, [], ◌∷◌}
use k8s_dra_driver.Common.{
  ℕ, zero, suc, ◌+◌, ◌-◌, ◌*◌, ◌^◌, Bool, true, false, not, ◌&&◌, ◌||◌, Option, none, some, ltb,
  leb, eqb, if◌then◌else◌, ◌<>◌, itoa,
}
use k8s_dra_driver.Devices.{MigSpec, MigDeviceInfo, MigSpecTuple, spec_tuple, mig_spec_tuple}

abbrev is_hyphen : Char → Bool
is_hyphen c = eqb (code c) b'-'

abbrev is_digit : Char → Bool
is_digit c = leb b'0' (code c) && leb (code c) b'9'

-- The character that stands in the second text where `c` stands in the first.
translate : String → String → Char → Char
translate [] _ c = c
translate (a ∷ froms) [] c = c
translate (a ∷ froms) (b ∷ tos) c = if eqb (code a) (code c) then b else translate froms tos c

to_lower : Char → Char
unfolding translate
to_lower = translate "ABCDEFGHIJKLMNOPQRSTUVWXYZ" "abcdefghijklmnopqrstuvwxyz"

-- The class [a-z0-9-.]
abbrev is_name_char : Char → Bool
is_name_char c =
    leb b'a' (code c) && leb (code c) b'z' || is_digit c || is_hyphen c || eqb (code c) b'.'

sanitize : String → String
unfolding to_lower
sanitize [] = []
sanitize (c ∷ s) = let d = to_lower c in (if is_name_char d then d else "-") ∷ sanitize s

trim_left : String → String
trim_left [] = []
trim_left (c ∷ s) = let rest = trim_left s in if is_hyphen c then rest else c ∷ s

-- The hyphens at the end are dropped.
trim_right : String → String
trim_right [] = []
trim_right (c ∷ s) = step c (trim_right s)
  where
    step : Char → String → String
    step c [] = if is_hyphen c then [] else c ∷ []
    step c (d ∷ t) = c ∷ d ∷ t

-- strings.TrimSuffix(s, ".")
trim_dot : String → String
trim_dot [] = []
trim_dot (c ∷ []) = if eqb (code c) b'.' then [] else c ∷ []
trim_dot (c ∷ d ∷ s) = c ∷ trim_dot (d ∷ s)

-- s[:n], or all of a shorter text
take_chars : ℕ → String → String
take_chars zero s = []
take_chars (suc n) [] = []
take_chars (suc n) (c ∷ s) = c ∷ take_chars n s

unfoldable pub to_rfc1123_compliant : String → String
unfolding sanitize trim_left trim_right trim_dot take_chars
to_rfc1123_compliant name = take_chars 253 (trim_dot (trim_right (trim_left (sanitize name))))

-- strings.ReplaceAll(s, ".", "")
remove_dots : String → String
remove_dots [] = []
remove_dots (c ∷ s) = let rest = remove_dots s in if eqb (code c) b'.' then rest else c ∷ rest

-- (m *MigSpecTuple) ToCanonicalName
unfoldable pub to_canonical_name : MigSpecTuple → String → String
unfolding remove_dots
to_canonical_name m profile_name =
    "gpu-"
    <> itoa m.parent_minor
    <> "-mig-"
    <> to_rfc1123_compliant (remove_dots profile_name)
    <> "-"
    <> itoa m.profile_id
    <> "-"
    <> itoa m.placement_start

-- (d *MigDeviceInfo) CanonicalName
unfoldable pub mig_device_canonical_name : MigDeviceInfo → String
unfolding to_canonical_name
mig_device_canonical_name d = to_canonical_name (spec_tuple d) d.profile

-- (m *MigSpec) CanonicalName
unfoldable pub mig_spec_canonical_name : MigSpec → String
unfolding to_canonical_name
mig_spec_canonical_name m = to_canonical_name (mig_spec_tuple m) m.profile

-- The match of `^gpu-(\d+)-mig-(.+)-(\d+)-(\d+)$`. No digit is a hyphen, so the first group ends at
-- the hyphen behind it, and the last two groups stand behind the last two hyphens.
strip_prefix : String → String → Option String
strip_prefix [] s = some s
strip_prefix (p ∷ ps) [] = none
strip_prefix (p ∷ ps) (c ∷ s) = if eqb (code p) (code c) then strip_prefix ps s else none

-- The digits at the front, and what follows them.
span_digits : String → String × String
span_digits [] = ([], [])
span_digits (c ∷ s) =
    let (ds, rest) = span_digits s in if is_digit c then (c ∷ ds, rest) else ([], c ∷ s)

-- What stands before and behind the last hyphen.
split_last : String → Option (String × String)
split_last [] = none
split_last (c ∷ s) = step c s (split_last s)
  where
    step : Char → String → Option (String × String) → Option (String × String)
    step c s (some (a, b)) = some (c ∷ a, b)
    step c s none = if is_hyphen c then some ([], s) else none

all_digits : String → Bool
all_digits [] = true
all_digits (c ∷ s) = is_digit c && all_digits s

lacks_newline : String → Bool
lacks_newline [] = true
lacks_newline (c ∷ s) = not (eqb (code c) b'\n') && lacks_newline s

abbrev is_empty : String → Bool
is_empty [] = true
is_empty (c ∷ s) = false

value : ℕ → String → ℕ
value n [] = n
value n (c ∷ s) = value (n * 10 + (code c - b'0')) s

-- strconv.Atoi of digits: `int` has 64 bits.
atoi : String → Option ℕ
unfolding value
atoi s = let n = value 0 s in if ltb n (2 ^ 63) then some n else none

abbrev try : {A B : Type 0} → Option A → (A → Option B) → Option B
try none f = none
try (some a) f = f a

-- A group \d+.
digits_group : String → Option String
unfolding all_digits
digits_group s = if not (is_empty s) && all_digits s then some s else none

-- The three groups that are used: minor, profile id, placement start.
match_canonical_mig_name : String → Option (String × String × String)
unfolding strip_prefix span_digits split_last lacks_newline digits_group
match_canonical_mig_name n = try (strip_prefix "gpu-" n) λ s1.
    let (minor, s2) = span_digits s1 in
    try (digits_group minor) λ m. try (strip_prefix "-mig-" s2) λ s3. try (split_last s3) λ p.
      try (digits_group p.1) λ start. try (split_last p.0) λ q. try (digits_group q.1) λ profile_id.
        if not (is_empty q.0) && lacks_newline q.0 then some (m, profile_id, start) else none

-- NewMigSpecTupleFromCanonicalName; `none` is an error.
unfoldable pub mig_spec_tuple_from_canonical_name : String → Option MigSpecTuple
unfolding match_canonical_mig_name atoi
mig_spec_tuple_from_canonical_name n = try (match_canonical_mig_name n) λ g.
    try (atoi g.0) λ parent_minor. try (atoi g.1) λ profile_id. try (atoi g.2) λ placement_start.
      some (record {
        parent_minor = parent_minor;
        profile_id = profile_id;
        placement_start = placement_start;
      })

abbrev is_upper : Char → Bool
is_upper c = leb b'A' (code c) && leb (code c) b'Z'

abbrev is_lower : Char → Bool
is_lower c = leb b'a' (code c) && leb (code c) b'z'

-- The first expression: a hyphen between a lower-case letter or a digit and an upper-case letter.
split_words : String → String
split_words [] = []
split_words (c ∷ []) = c ∷ []
split_words (c ∷ d ∷ s) =
    let rest = split_words (d ∷ s) in
    if (is_lower c || is_digit c) && is_upper d then c ∷ "-" <> rest else c ∷ rest

-- The second: a hyphen before the last upper-case letter of several that a lower-case letter follows.
split_acronyms : String → String
split_acronyms [] = []
split_acronyms (c ∷ []) = c ∷ []
split_acronyms (c ∷ d ∷ []) = c ∷ d ∷ []
split_acronyms (c ∷ d ∷ e ∷ s) =
    let rest = split_acronyms (d ∷ e ∷ s) in
    if is_upper c && is_upper d && is_lower e then c ∷ "-" <> rest else c ∷ rest

unfoldable pub camel_to_dns_name : String → String
unfolding split_words split_acronyms to_rfc1123_compliant
camel_to_dns_name s = to_rfc1123_compliant (split_acronyms (split_words s))
