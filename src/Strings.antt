-- ===== src/Strings.antt =====
-- The functions of Go's `strings` package that the program calls. Letters are folded in ASCII; a
-- space is any rune of `unicode.IsSpace`.
pub mod Decimal
use wowdoc.Base.{ℕ, zero, suc, ◌+◌, ◌-◌, Bool, true, false, not, ◌&&◌, ◌||◌, Option, none, some}
use wowdoc.Base.{
  List, [], ◌∷◌, ◌++◌, map, Text, ◌==◌, text_eq, ltb, leb, eqb, drop, length, if◌then◌else◌,
}

-- strings.HasPrefix(s, prefix)
unfoldable pub has_prefix : Text → Text → Bool
has_prefix s [] = true
has_prefix [] (c ∷ prefix) = false
has_prefix (d ∷ s) (c ∷ prefix) = eqb d c && has_prefix s prefix

-- strings.HasSuffix(s, suffix)
unfoldable pub has_suffix : Text → Text → Bool
has_suffix [] suffix = suffix == []
has_suffix (c ∷ s) suffix = (c ∷ s) == suffix || has_suffix s suffix

-- strings.TrimPrefix(s, prefix)
unfoldable pub trim_prefix : Text → Text → Text
unfolding has_prefix
trim_prefix s prefix = if has_prefix s prefix then drop (length prefix) s else s

-- strings.TrimSuffix(s, suffix)
unfoldable pub trim_suffix : Text → Text → Text
trim_suffix [] suffix = []
trim_suffix (c ∷ s) suffix = if (c ∷ s) == suffix then [] else c ∷ trim_suffix s suffix

-- strings.Contains(s, part)
unfoldable pub contains_text : Text → Text → Bool
unfolding has_prefix
contains_text [] part = part == []
contains_text (c ∷ s) part = has_prefix (c ∷ s) part || contains_text s part

-- Whether the text contains one of the parts.
abbrev pub contains_any : Text → List Text → Bool
contains_any s [] = false
contains_any s (part ∷ parts) = contains_text s part || contains_any s parts

-- unicode.IsSpace
unfoldable pub is_space : ℕ → Bool
is_space r =
    leb 9 r && leb r 13
    || eqb r 32
    || eqb r 0x85
    || eqb r 0xa0
    || eqb r 0x1680
    || leb 0x2000 r && leb r 0x200a
    || eqb r 0x2028
    || eqb r 0x2029
    || eqb r 0x202f
    || eqb r 0x205f
    || eqb r 0x3000

unfoldable pub trim_left : Text → Text
trim_left [] = []
trim_left (c ∷ s) = let rest = trim_left s in if is_space c then rest else c ∷ s

abbrev pub cons_unless_blank : ℕ → Text → Text
cons_unless_blank c [] = if is_space c then [] else c ∷ []
cons_unless_blank c (d ∷ s) = c ∷ d ∷ s

unfoldable pub trim_right : Text → Text
trim_right [] = []
trim_right (c ∷ s) = cons_unless_blank c (trim_right s)

-- strings.TrimSpace
unfoldable pub trim_space : Text → Text
unfolding trim_left trim_right is_space
trim_space s = trim_right (trim_left s)

unfoldable pub lower_rune : ℕ → ℕ
lower_rune c = if leb 65 c && leb c 90 then c + 32 else c

-- strings.ToLower
unfoldable pub to_lower : Text → Text
unfolding lower_rune
to_lower = map lower_rune

-- strings.EqualFold
unfoldable pub equal_fold : Text → Text → Bool
unfolding to_lower
equal_fold s t = to_lower s == to_lower t

abbrev pub cons_first : ℕ → List Text → List Text
cons_first c [] = (c ∷ []) ∷ []
cons_first c (s ∷ rest) = (c ∷ s) ∷ rest

-- strings.Split(s, sep) with a separator of one rune.
unfoldable pub split : ℕ → Text → List Text
split sep [] = [] ∷ []
split sep (c ∷ s) = let rest = split sep s in if eqb c sep then [] ∷ rest else cons_first c rest

-- strings.Join(parts, sep)
unfoldable pub join : Text → List Text → Text
join sep [] = []
join sep (s ∷ []) = s
join sep (s ∷ t ∷ rest) = s ++ (sep ++ join sep (t ∷ rest))

abbrev pub cons_before : ℕ → Option (Text × Text) → Option (Text × Text)
cons_before c none = none
cons_before c (some (before, after)) = some (c ∷ before, after)

-- strings.Cut(s, sep) with a separator of one rune; `none` where it does not occur.
unfoldable pub cut : ℕ → Text → Option (Text × Text)
cut sep [] = none
cut sep (c ∷ s) = let rest = cut sep s in if eqb c sep then some ([], s) else cons_before c rest

-- strings.ReplaceAll(s, old, new) with an old text of one rune.
unfoldable pub replace_rune : ℕ → Text → Text → Text
replace_rune old new [] = []
replace_rune old new (c ∷ s) = (if eqb c old then new else c ∷ []) ++ replace_rune old new s

abbrev pub keep_field : Text → List Text → List Text
keep_field [] rest = rest
keep_field (c ∷ s) rest = (c ∷ s) ∷ rest

-- The pieces between the runes of a class, none of them empty, given the piece read so far.
unfoldable pub fields_from : (ℕ → Bool) → Text → Text → List Text
fields_from cuts word [] = keep_field word []
fields_from cuts word (c ∷ s) =
    let ended = keep_field word (fields_from cuts [] s) in
    let longer = fields_from cuts (word ++ c ∷ []) s in if cuts c then ended else longer

-- strings.Fields
unfoldable pub fields : Text → List Text
unfolding fields_from is_space
fields = fields_from is_space []

-- filepath.Base of a path with slashes, for a path that does not end in one.
unfoldable pub last_of : Text → List Text → Text
last_of s [] = s
last_of s (t ∷ rest) = last_of t rest

unfoldable pub base : Text → Text
unfolding split last_of
base path = last_of [] (split b'/' path)

-- The text with every occurrence of `old` replaced, from the left, after `skip` runes of one.
unfoldable pub replace_from : ℕ → Text → Text → Text → Text
unfolding has_prefix
replace_from skip old new [] = []
replace_from (suc skip) old new (c ∷ s) = replace_from skip old new s
replace_from zero old new (c ∷ s) =
    let replaced = new ++ replace_from (length old - 1) old new s in
    let kept = c ∷ replace_from 0 old new s in if has_prefix (c ∷ s) old then replaced else kept

-- strings.ReplaceAll(s, old, new) where `old` is not empty.
unfoldable pub replace_all : Text → Text → Text → Text
unfolding replace_from
replace_all s old new = replace_from 0 old new s
