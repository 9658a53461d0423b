-- ===== src/Query/Compat/Settled.antt =====
-- The in-place sorting of the first matches in internal/query/compat.go.
use wowdoc.Base.{
  ℕ, zero, suc, ◌≡◌, refl, sym, ap, ◌∙◌, arith, Bool, true, false, List, [], ◌∷◌, ◌++◌, Text,
}
use wowdoc.Base.{text_eq, length, take, drop}
use wowdoc.Base.Sort.{
  sort_by, sort_by-IsSorted, length-sort_by, sort_by-sorted, text_lt-asym, text_lt-negtrans,
  text_lt-total,
}
use wowdoc.Query.Compat.Matching.{match_lt, evidence_limit, settled, is_empty, fact_of}
use wowdoc.Query.Compat.Types.{Match, Context, Usage}

match_lt-asym : (a b : Match) → match_lt a b ≡ true → match_lt b a ≡ false
match_lt-asym a b h = ground (arith, text_lt-asym a.path b.path)

match_lt-negtrans :
    (a b c : Match) → match_lt b a ≡ false → match_lt c b ≡ false → match_lt c a ≡ false
match_lt-negtrans a b c h k = ground (
  arith,
  text_lt-negtrans a.path b.path c.path,
  text_lt-total a.path b.path,
  text_lt-total b.path c.path,
)

sort_twice : (ms : List Match) → sort_by match_lt (sort_by match_lt ms) ≡ sort_by match_lt ms
sort_twice ms =
    sort_by-sorted match_lt (sort_by match_lt ms)
      (sort_by-IsSorted match_lt match_lt-asym match_lt-negtrans ms)

-- A list of the length of the first elements, put before the rest.
take_replaced :
    (n : ℕ) (ms ss : List Match) → length ss ≡ length (take n ms) → take n (ss ++ drop n ms) ≡ ss
take_replaced zero ms [] h = refl
take_replaced zero ms (s ∷ ss) h = absurd (omega arith)
take_replaced (suc n) [] [] h = refl
take_replaced (suc n) [] (s ∷ ss) h = absurd (omega arith)
take_replaced (suc n) (m ∷ ms) [] h = absurd (omega arith)
take_replaced (suc n) (m ∷ ms) (s ∷ ss) h = ap (λ l. s ∷ l) (take_replaced n ms ss (omega arith))

drop_replaced :
    (n : ℕ) (ms ss : List Match)
    → length ss ≡ length (take n ms)
    → drop n (ss ++ drop n ms) ≡ drop n ms
drop_replaced zero ms [] h = refl
drop_replaced zero ms (s ∷ ss) h = absurd (omega arith)
drop_replaced (suc n) [] [] h = refl
drop_replaced (suc n) [] (s ∷ ss) h = absurd (omega arith)
drop_replaced (suc n) (m ∷ ms) [] h = absurd (omega arith)
drop_replaced (suc n) (m ∷ ms) (s ∷ ss) h = drop_replaced n ms ss (omega arith)

length_replaced :
    (n : ℕ) (ms ss : List Match)
    → length ss ≡ length (take n ms)
    → length (ss ++ drop n ms) ≡ length ms
length_replaced zero ms [] h = refl
length_replaced zero ms (s ∷ ss) h = absurd (omega arith)
length_replaced (suc n) [] [] h = refl
length_replaced (suc n) [] (s ∷ ss) h = absurd (omega arith)
length_replaced (suc n) (m ∷ ms) [] h = absurd (omega arith)
length_replaced (suc n) (m ∷ ms) (s ∷ ss) h = ap suc (length_replaced n ms ss (omega arith))

settled-take :
    (ms : List Match) → take evidence_limit (settled ms) ≡ sort_by match_lt (take evidence_limit ms)
unfolding settled
settled-take ms =
    take_replaced evidence_limit ms (sort_by match_lt (take evidence_limit ms))
      (length-sort_by match_lt (take evidence_limit ms))

settled-drop : (ms : List Match) → drop evidence_limit (settled ms) ≡ drop evidence_limit ms
unfolding settled
settled-drop ms =
    drop_replaced evidence_limit ms (sort_by match_lt (take evidence_limit ms))
      (length-sort_by match_lt (take evidence_limit ms))

settled-length : (ms : List Match) → length (settled ms) ≡ length ms
unfolding settled
settled-length ms =
    length_replaced evidence_limit ms (sort_by match_lt (take evidence_limit ms))
      (length-sort_by match_lt (take evidence_limit ms))

settled_parts :
    (ms : List Match)
    → settled ms ≡ sort_by match_lt (take evidence_limit ms) ++ drop evidence_limit ms
unfolding settled
settled_parts ms = refl

pub settled_twice : (ms : List Match) → settled (settled ms) ≡ settled ms
settled_twice ms =
    settled_parts (settled ms)
    ∙ rw (settled-take ms, settled-drop ms, sort_twice (take evidence_limit ms)) refl
    ∙ sym (settled_parts ms)

empty_by_length : (ms ns : List Match) → length ms ≡ length ns → is_empty ms ≡ is_empty ns
empty_by_length [] [] h = refl
empty_by_length [] (n ∷ ns) h = absurd (omega arith)
empty_by_length (m ∷ ms) [] h = absurd (omega arith)
empty_by_length (m ∷ ms) (n ∷ ns) h = refl

-- A cached slice, which was sorted in place, gives the fact that the selected rows give.
pub fact_of-settled :
    (ctx : Context) (u : Usage) (kind name : Text) (ms : List Match) (known : Bool)
    → fact_of ctx u kind name (settled ms, known) ≡ fact_of ctx u kind name (ms, known)
unfolding fact_of
fact_of-settled ctx u kind name ms known =
    rw
      (
        settled_twice ms,
        settled-length ms,
        empty_by_length (settled ms) ms (settled-length ms),
        settled-take ms,
        sort_twice (take evidence_limit ms),
      )
      refl
