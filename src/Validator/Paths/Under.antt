-- ===== src/Validator/Paths/Under.antt =====
-- Where a path lies that `filepath.Rel` and `escapesRoot` of internal/validator/closure.go let pass.
use wowdoc.Base.{
  ◌≡◌, ◌≢◌, refl, ap, subst, ◌∙◌, Bool, true, false, not, ◌&&◌, ◌||◌, Option, some, List, [], ◌∷◌,
  ◌++◌, map,
}
use wowdoc.Base.{Text, codes, ◌==◌, text_eq, if◌then◌else◌, if_elim, arith, All, All-map, All-zip}
use wowdoc.Base.Order.{Pairwise}
use wowdoc.Strings.{join, has_prefix, split}
use wowdoc.Validator.Paths.{
  is_absolute, push_element, clean_elements, reversed, elements, of_elements, without_common,
  upward, rel_path, escapes_root,
}

-- The path has the elements of the root and then none that leads up.
abbrev pub IsUnder : Text → Text → Type 0
IsUnder root path =
    (is_absolute path ≡ is_absolute root)
    × (below : List Text) × (elements path ≡ elements root ++ below)
    × All (λ s. s ≢ codes "..") below

-- The second element leads up only if the first does.
abbrev UpAfterUp : Text → Text → Type 0
UpAfterUp s t = t ≡ codes ".." → s ≡ codes ".."

abbrev IsStack : List Text → Type 0
IsStack = Pairwise (λ s t. UpAfterUp t s)

push_element-IsStack :
    (rooted : Bool) (s : Text) (before : List Text)
    → IsStack before
    → IsStack (push_element rooted s before)
push_element-IsStack rooted s [] h =
    if_elim IsStack (s == codes ".." && rooted) (λ _. tt) (λ _. (tt, tt))
push_element-IsStack rooted s (t ∷ before) h =
    if_elim IsStack (s == codes ".." && not (t == codes "..")) (λ _. h.1)
      (λ kept.
        let above : s ≡ codes ".." → t ≡ codes ".." = λ up. ground (arith, kept, up) in
        ((above, All-map {Q = λ x. UpAfterUp x s} (λ x k up. k (above up)) before h.0), h))

clean_elements-IsStack :
    (rooted : Bool) (ss before : List Text)
    → IsStack before
    → IsStack (clean_elements rooted before ss)
unfolding clean_elements
clean_elements-IsStack rooted [] before h = h
clean_elements-IsStack rooted (s ∷ ss) before h =
    clean_elements-IsStack rooted ss
      (if s == [] || s == codes "." then before else push_element rooted s before)
      (if_elim IsStack (s == [] || s == codes ".") (λ _. h)
        (λ _. push_element-IsStack rooted s before h))

reversed-Pairwise :
    (stack out : List Text)
    → IsStack stack
    → Pairwise UpAfterUp out
    → All (λ s. All (UpAfterUp s) out) stack
    → Pairwise UpAfterUp (reversed stack out)
unfolding reversed
reversed-Pairwise [] out h k cross = k
reversed-Pairwise (s ∷ stack) out h k cross =
    reversed-Pairwise stack (s ∷ out) h.1 (cross.0, k)
      (All-zip (λ x. UpAfterUp x s) (λ x. All (UpAfterUp x) out) stack h.0 cross.1)

none_below : (stack : List Text) → All (λ s. All (UpAfterUp s) []) stack
none_below [] = tt
none_below (s ∷ stack) = (tt, none_below stack)

elements-Pairwise : (p : Text) → Pairwise UpAfterUp (elements p)
unfolding elements
elements-Pairwise p =
    let stack = clean_elements (is_absolute p) [] (split b'/' p) in
    reversed-Pairwise stack [] (clean_elements-IsStack (is_absolute p) (split b'/' p) [] tt) tt
      (none_below stack)

without_common-append :
    (ss ts : List Text) → (without_common ss ts).0 ≡ [] → ts ≡ ss ++ (without_common ss ts).1
unfolding without_common
without_common-append [] ts h = refl
without_common-append (s ∷ ss) [] h = absurd (cc)
without_common-append (s ∷ ss) (t ∷ ts) h = elim (text_eq.dec s t) [
  | yes e ↦ ground (arith, without_common-append ss ts)
  | no n ↦ ground (arith, h)
]

join-escapes : (ss : List Text) → escapes_root (join (codes "/") (codes ".." ∷ ss)) ≡ true
unfolding join escapes_root text_eq has_prefix
join-escapes [] = refl
join-escapes (s ∷ ss) = refl

not_up :
    (ss : List Text) (s : Text) → escapes_root (join (codes "/") (s ∷ ss)) ≡ false → s ≢ codes ".."
not_up ss s h up =
    let out = ap (λ (x : Text). escapes_root (join (codes "/") (x ∷ ss))) up ∙ join-escapes ss in cc

Pairwise-right :
    (R : Text → Text → Type 0) (xs ys : List Text) → Pairwise R (xs ++ ys) → Pairwise R ys
Pairwise-right R [] ys h = h
Pairwise-right R (x ∷ xs) ys h = Pairwise-right R xs ys h.1

stays_below :
    (ss : List Text)
    → Pairwise UpAfterUp ss
    → escapes_root (of_elements false ss) ≡ false
    → All (λ s. s ≢ codes "..") ss
stays_below [] h inside = tt
stays_below (s ∷ ss) h inside =
    let down = not_up ss s inside in
    (down, All-map {Q = λ x. x ≢ codes ".."} (λ x k up. down (k up)) ss h.0)

upward-under :
    (ss ts : List Text) (rel : Text)
    → upward ss ts ≡ some rel
    → escapes_root rel ≡ false
    → (ss ≡ []) × (escapes_root (of_elements false ts) ≡ false)
upward-under [] ts rel h inside =
    let same : of_elements false ts ≡ rel = cc in (refl, ap escapes_root same ∙ inside)
upward-under (s ∷ ss) ts rel h inside = absurd (
    if_elim (λ (o : Option Text). o ≡ some rel → ⊥) (s == codes "..") (λ _ k. cc)
      (λ _ k.
        let out = join-escapes (map (λ _. codes "..") ss ++ ts) in
        let same : join (codes "/") (codes ".." ∷ (map (λ _. codes "..") ss ++ ts)) ≡ rel = cc in
        cc)
      h)

pub rel_path-IsUnder :
    (root path rel : Text)
    → rel_path root path ≡ some rel
    → escapes_root rel ≡ false
    → IsUnder root path
unfolding rel_path
rel_path-IsUnder root path rel h inside =
    if_elim (λ (o : Option Text). o ≡ some rel → IsUnder root path)
      (is_absolute root && not (is_absolute path) || not (is_absolute root) && is_absolute path)
      (λ _ k. absurd (cc))
      (λ alike k.
        let rest = without_common (elements root) (elements path) in
        let (empty, below) = upward-under rest.0 rest.1 rel k inside in
        let split_at = without_common-append (elements root) (elements path) empty in
        let shape = subst (Pairwise UpAfterUp) split_at (elements-Pairwise path) in
        (
          ground (arith, alike),
          rest.1,
          split_at,
          stays_below rest.1 (Pairwise-right UpAfterUp (elements root) rest.1 shape) below,
        ))
      h
