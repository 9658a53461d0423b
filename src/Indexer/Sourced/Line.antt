-- ===== src/Indexer/Sourced/Line.antt =====
-- The text that `extractLuaFacts` of internal/indexer/parse.go takes for a line.
use wowdoc.Base.{
  ℕ, zero, suc, ◌+◌, ◌<◌, ◌≡◌, refl, ap, ◌⊎◌, inl, inr, List, [], ◌∷◌, ◌++◌, Text, arith,
}
use wowdoc.Base.{length, get_elem?}
use wowdoc.Strings.{trim_space}
use wowdoc.Indexer.Lua.{trimmed, line_text}

-- The line of the number, counted from one.
abbrev pub IsLine : List Text → ℕ → Text → Type 0
IsLine lines n line =
    (before after : List Text) × (lines ≡ before ++ line ∷ after) × (n ≡ length before + 1)

-- The line of the number without the spaces around it, or nothing where there is no such line.
abbrev pub IsTextOf : List Text → ℕ → Text → Type 0
IsTextOf lines n text =
    ((line : Text) × IsLine lines n line × (text ≡ trim_space line))
    ⊎ (((n ≡ 0) ⊎ (length lines < n)) × (text ≡ []))

IsTextOf-cons :
    (x : Text) (lines : List Text) (n : ℕ) (text : Text)
    → IsTextOf lines (suc n) text
    → IsTextOf (x ∷ lines) (suc (suc n)) text
IsTextOf-cons x lines n text (inl (line, (before, after, split_at, at), same)) =
    inl (line, (x ∷ before, after, ap (λ l. x ∷ l) split_at, omega (arith, at)), same)
IsTextOf-cons x lines n text (inr (away, same)) = inr ((ground (arith, away)), same)

trimmed-IsTextOf :
    (lines : List Text) (i : ℕ) → IsTextOf lines (suc i) (trimmed (get_elem? lines i))
trimmed-IsTextOf [] i = inr (inr (omega arith), refl)
trimmed-IsTextOf (x ∷ lines) zero = inl (x, ([], lines, refl, omega arith), refl)
trimmed-IsTextOf (x ∷ lines) (suc i) =
    IsTextOf-cons x lines i (trimmed (get_elem? lines i)) (trimmed-IsTextOf lines i)

pub line_text-IsTextOf : (lines : List Text) (n : ℕ) → IsTextOf lines n (line_text lines n)
unfolding line_text
line_text-IsTextOf lines zero = inr (inl refl, refl)
line_text-IsTextOf lines (suc i) = trimmed-IsTextOf lines i
