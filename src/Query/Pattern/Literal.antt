-- ===== src/Query/Pattern/Literal.antt =====
-- How LIKE reads the patterns of internal/query/search.go.
use wowdoc.Base.{◌≡◌, refl, ap, ◌∙◌, ℕ, List, [], ◌∷◌, ◌++◌, map, false, Text, nat_eq}
use wowdoc.Base.{Bool-cases, inl, inr}
use wowdoc.Query.Pattern.{is_escaped, escape_like, prefix_pattern, contains_pattern}

-- What a pattern asks for: a given character, any one, or any run of them.
pub data Part : Type 0 where
  literal : ℕ → Part
  any_one : Part
  any_run : Part

-- What LIKE with a backslash as its escape character documents of reading a pattern.
pub record IsLike (read : Text → List Part) : Type 0 where
  pub at_end : read [] ≡ []
  pub at_escape : (c : ℕ) (rest : Text) → read (b'\\' ∷ c ∷ rest) ≡ literal c ∷ read rest
  pub at_percent : (rest : Text) → read (b'%' ∷ rest) ≡ any_run ∷ read rest
  pub at_underscore : (rest : Text) → read (b'_' ∷ rest) ≡ any_one ∷ read rest
  pub at_plain :
      (c : ℕ) (rest : Text) → is_escaped c ≡ false → read (c ∷ rest) ≡ literal c ∷ read rest

module _ (read : Text → List Part) (like : IsLike read) where
  escape_like-read :
      (text rest : Text) → read (escape_like text ++ rest) ≡ map literal text ++ read rest
  unfolding escape_like
  escape_like-read [] rest = refl
  escape_like-read (c ∷ text) rest = elim (Bool-cases (is_escaped c)) [
    | inl h ↦ rw h (
        like.at_escape c (escape_like text ++ rest)
        ∙ ap (λ r. literal c ∷ r) (escape_like-read text rest))
    | inr h ↦ rw h (
        like.at_plain c (escape_like text ++ rest) h
        ∙ ap (λ r. literal c ∷ r) (escape_like-read text rest))
  ]

  prefix_pattern-read :
      (text : Text) → read (prefix_pattern text) ≡ map literal text ++ any_run ∷ []
  unfolding prefix_pattern
  prefix_pattern-read text = rw (escape_like-read text (b'%' ∷ []), like.at_percent [], like.at_end)

  -- For every reader of patterns that obeys the documented laws of LIKE with a backslash as its
  -- escape character, the pattern that the search makes of a text asks for any run of characters,
  -- the characters of the text as they are, wildcards and backslashes included, and any run again.
  pub contains_pattern-read :
      (text : Text) → read (contains_pattern text) ≡ any_run ∷ map literal text ++ any_run ∷ []
  unfolding contains_pattern
  contains_pattern-read text = rw (
    like.at_percent (escape_like text ++ b'%' ∷ []),
    escape_like-read text (b'%' ∷ []),
    like.at_percent [],
    like.at_end,
  )
