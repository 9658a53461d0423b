-- ===== src/Strings/Decimal.antt =====
-- `strconv.Itoa` and `strconv.Atoi` on numbers that are not negative, and `%010d`.
use wowdoc.Base.{◌≢◌, if_elim}
use wowdoc.Base.{ℕ, zero, suc, ◌+◌, ◌-◌, ◌*◌, ◌/◌, ◌%◌, ◌<◌, ◌≡◌, ap, ◌∙◌, Bool, true, ◌&&◌}
use wowdoc.Base.{[], ◌∷◌, Text, ltb, leb, length, arith, if◌then◌else◌, Bool-cases, All, inl, inr}

-- The digits of `n` before `rest`. The fuel is more than `n`, and `n` falls in every round.
unfoldable pub decimal_from : ℕ → ℕ → Text → Text
decimal_from zero n rest = rest
decimal_from (suc fuel) n rest =
    let more = decimal_from fuel (n / 10) ((48 + n % 10) ∷ rest) in
    if ltb n 10 then (48 + n) ∷ rest else more

-- strconv.Itoa
unfoldable pub decimal : ℕ → Text
unfolding decimal_from
decimal n = decimal_from (n + 1) n []

abbrev pub is_digit : ℕ → Bool
is_digit c = leb 48 c && leb c 57

-- The value of a text of digits, after the value of the digits before it.
unfoldable pub digits_value : ℕ → Text → ℕ
digits_value n [] = n
digits_value n (c ∷ s) = digits_value (n * 10 + (c - 48)) s

digits_value-decimal_from :
    (fuel n : ℕ) (rest : Text)
    → n < fuel
    → digits_value 0 (decimal_from fuel n rest) ≡ digits_value n rest
unfolding decimal_from digits_value
digits_value-decimal_from zero n rest h = elim h [ ]
digits_value-decimal_from (suc fuel) n rest h = elim (Bool-cases (ltb n 10)) [
  | inl small ↦ rw small (ap (λ (k : ℕ). digits_value k rest) (omega arith))
  | inr large ↦ rw large (
      digits_value-decimal_from fuel (n / 10) ((48 + n % 10) ∷ rest) (ground arith)
      ∙ ap (λ (k : ℕ). digits_value k rest) (omega arith))
]

-- The digits that `Itoa` prints have the number as their value: the fuel is enough.
pub digits_value-decimal : (n : ℕ) → digits_value 0 (decimal n) ≡ n
unfolding decimal digits_value
digits_value-decimal n = digits_value-decimal_from (n + 1) n [] (omega arith)

decimal_from-digits :
    (fuel n : ℕ) (rest : Text)
    → All (λ c. is_digit c ≡ true) rest
    → All (λ c. is_digit c ≡ true) (decimal_from fuel n rest)
unfolding decimal_from
decimal_from-digits zero n rest h = h
decimal_from-digits (suc fuel) n rest h = elim (Bool-cases (ltb n 10)) [
  | inl small ↦ rw small (ground arith, h)
  | inr large ↦
      rw large (decimal_from-digits fuel (n / 10) ((48 + n % 10) ∷ rest) (ground arith, h))
]

pub decimal-digits : (n : ℕ) → All (λ c. is_digit c ≡ true) (decimal n)
unfolding decimal
decimal-digits n = decimal_from-digits (n + 1) n [] tt

zeros : ℕ → Text → Text
zeros zero s = s
zeros (suc n) s = 48 ∷ zeros n s

-- fmt's `%010d`
unfoldable pub padded : ℕ → Text
unfolding zeros
padded n = zeros (10 - length (decimal n)) (decimal n)

decimal_from-nonempty : (fuel n c : ℕ) (rest : Text) → decimal_from fuel n (c ∷ rest) ≢ []
unfolding decimal_from
decimal_from-nonempty zero n c rest h = cc
decimal_from-nonempty (suc fuel) n c rest h =
    if_elim (λ s. s ≢ []) (ltb n 10) (λ _ e. cc)
      (λ _. decimal_from-nonempty fuel (n / 10) (48 + n % 10) (c ∷ rest)) h

decimal_from-first : (fuel n : ℕ) (rest : Text) → 0 < fuel → decimal_from fuel n rest ≢ []
unfolding decimal_from
decimal_from-first zero n rest h e = absurd (omega arith)
decimal_from-first (suc fuel) n rest h e =
    if_elim (λ s. s ≢ []) (ltb n 10) (λ _ k. cc)
      (λ _. decimal_from-nonempty fuel (n / 10) (48 + n % 10) rest) e

pub decimal-nonempty : (n : ℕ) → decimal n ≢ []
unfolding decimal
decimal-nonempty n = decimal_from-first (n + 1) n [] (omega arith)
