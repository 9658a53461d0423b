-- ===== src/GitStore/Words.antt =====
-- The words of a line and the numbers among them, as internal/gitstore/git.go reads them: laws of
-- `strings.Fields`, `strings.Cut` and `strconv.ParseInt`.
use wowdoc.Base.{ℕ, suc, ◌-◌, ◌^◌, zero, ◌<◌, ◌≡◌, refl, ap, sym, ◌∙◌, Bool, true, false, ◌&&◌}
use wowdoc.Base.{◌≢◌, [], ◌∷◌, ◌++◌, Text, append_assoc, append-nil, ltb, leb, eqb, All, arith}
use wowdoc.Base.{if◌then◌else◌, All-map}
use wowdoc.Base.Int.{ℤ, pos, negsuc}
use wowdoc.Strings.{fields, fields_from, is_space}
use wowdoc.Strings.Decimal.{
  decimal, decimal-nonempty, is_digit, digits_value, digits_value-decimal, decimal-digits,
}

-- `strconv.ParseInt(s, 10, 64)`: the number, or the value that it gives beside an error.
pub data Parsed : Type 0 where
  number : ℤ → Parsed
  invalid : Parsed
  beyond : ℤ → Parsed

abbrev pub all_digits : Text → Bool
all_digits [] = true
all_digits (c ∷ s) = is_digit c && all_digits s

-- The digits of a number that is not negative.
unfoldable pub parse_digits : Text → Parsed
parse_digits [] = invalid
parse_digits (c ∷ s) =
    if all_digits (c ∷ s)
    then (let n = digits_value 0 (c ∷ s) in
        if ltb n (2 ^ 63) then number (pos n) else beyond (pos (2 ^ 63 - 1)))
    else invalid

-- The digits after a minus.
unfoldable pub parse_negative : Text → Parsed
parse_negative [] = invalid
parse_negative (c ∷ s) =
    if all_digits (c ∷ s)
    then (let n = digits_value 0 (c ∷ s) in
        if eqb n 0
        then number (pos 0)
        else if leb n (2 ^ 63)
        then number (negsuc (n - 1))
        else beyond (negsuc (2 ^ 63 - 1)))
    else invalid

unfoldable pub parse_int : Text → Parsed
unfolding parse_digits parse_negative
parse_int [] = invalid
parse_int (c ∷ s) =
    if eqb c b'-'
    then parse_negative s
    else if eqb c b'+'
    then parse_digits s
    else parse_digits (c ∷ s)

-- `value, _ := strconv.ParseInt(...)`
abbrev pub value_of : Parsed → ℤ
value_of (number n) = n
value_of invalid = pos 0
value_of (beyond n) = n

-- The text has no rune of the class.
abbrev pub Without : (ℕ → Bool) → Text → Type 0
Without cuts s = All (λ c. cuts c ≡ false) s

pub fields_from-word :
    (cuts : ℕ → Bool) (word s rest : Text)
    → Without cuts s
    → fields_from cuts word (s ++ rest) ≡ fields_from cuts (word ++ s) rest
unfolding fields_from
fields_from-word cuts word [] rest h = ap (λ w. fields_from cuts w rest) (sym (append-nil word))
fields_from-word cuts word (c ∷ s) rest h = rw (h.0) (
    fields_from-word cuts (word ++ c ∷ []) s rest h.1
    ∙ ap (λ w. fields_from cuts w rest) (append_assoc word (c ∷ []) s))

-- A word that is not empty.
abbrev pub IsWord : Text → Type 0
IsWord [] = ⊥
IsWord (c ∷ s) = Without is_space (c ∷ s)

pub fields-next : (w s : Text) → IsWord w → fields (w ++ b' ' ∷ s) ≡ w ∷ fields s
unfolding fields fields_from is_space
fields-next [] s h = absurd h
fields-next (c ∷ w) s h = fields_from-word is_space [] (c ∷ w) (b' ' ∷ s) h

pub fields-last : (w : Text) → IsWord w → fields w ≡ w ∷ []
unfolding fields fields_from is_space
fields-last [] h = absurd h
fields-last (c ∷ w) h =
    ap fields (sym (append-nil (c ∷ w))) ∙ fields_from-word is_space [] (c ∷ w) [] h

abbrev pub spaces : ℕ → Text
spaces zero = []
spaces (suc n) = b' ' ∷ spaces n

pub fields-spaces : (n : ℕ) (s : Text) → fields (spaces n ++ s) ≡ fields s
unfolding fields fields_from is_space
fields-spaces zero s = refl
fields-spaces (suc n) s = fields-spaces n s

digit-is_space : (c : ℕ) → is_digit c ≡ true → is_space c ≡ false
unfolding is_space
digit-is_space c h = ground arith

pub decimal-IsWord : (n : ℕ) → IsWord (decimal n)
decimal-IsWord n = digits-IsWord (decimal n) (decimal-nonempty n) (decimal-digits n)
  where
    digits-IsWord : (s : Text) → s ≢ [] → All (λ c. is_digit c ≡ true) s → IsWord s
    digits-IsWord [] e h = e refl
    digits-IsWord (c ∷ s) e h = All-map digit-is_space (c ∷ s) h

-- A number that fits is read back.
parse_digits-value :
    (s : Text)
    → s ≢ []
    → All (λ c. is_digit c ≡ true) s
    → digits_value 0 s < 2 ^ 63
    → parse_int s ≡ number (pos (digits_value 0 s))
unfolding parse_int
parse_digits-value [] e h small = absurd (e refl)
parse_digits-value (c ∷ s) e h small = rw (all_digits_of s h.1) (ground arith)
  where
    all_digits_of : (s : Text) → All (λ c. is_digit c ≡ true) s → all_digits s ≡ true
    all_digits_of [] h = refl
    all_digits_of (c ∷ s) h = ground (arith, all_digits_of s h.1)

pub parse_int-decimal : (n : ℕ) → n < 2 ^ 63 → parse_int (decimal n) ≡ number (pos n)
parse_int-decimal n small =
    parse_digits-value (decimal n) (decimal-nonempty n) (decimal-digits n)
      (rw (digits_value-decimal n) small)
    ∙ ap (λ (k : ℕ). number (pos k)) (digits_value-decimal n)
