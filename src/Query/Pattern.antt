-- ===== src/Query/Pattern.antt =====
-- The patterns that a search passes to LIKE, internal/query/search.go.
pub mod Literal
use wowdoc.Base.{List, [], ◌∷◌, ◌++◌, ℕ, Bool, true, false, ◌||◌, Text, ◌==◌, nat_eq}
use wowdoc.Base.{if◌then◌else◌}

-- The characters that `escapeLike` puts a backslash before.
unfoldable pub is_escaped : ℕ → Bool
is_escaped c = c == b'\\' || c == b'%' || c == b'_'

-- `escapeLike`
unfoldable pub escape_like : Text → Text
escape_like [] = []
escape_like (c ∷ text) =
    let rest = escape_like text in if is_escaped c then b'\\' ∷ c ∷ rest else c ∷ rest

-- The pattern for the names that start with a text.
unfoldable pub prefix_pattern : Text → Text
prefix_pattern text = escape_like text ++ b'%' ∷ []

-- The pattern for the names and paths that contain a text.
unfoldable pub contains_pattern : Text → Text
contains_pattern text = b'%' ∷ escape_like text ++ b'%' ∷ []
