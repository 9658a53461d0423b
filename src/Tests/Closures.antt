-- ===== src/Tests/Closures.antt =====
-- Concrete inputs for the theorems on load closures.
use wowdoc.Base.{
  ◌≡◌, refl, true, false, ◌||◌, ◌⊎◌, if_elim, ◌>>=◌, ◌>>◌, Option, none, some, List, [], ◌∷◌, Text,
  text_eq, codes, inl, inr, arith, Result, ok, err, if◌then◌else◌, ◌==◌,
}
use wowdoc.Strings.{has_prefix, trim_space, to_lower, split, join}
use wowdoc.Validator.Closure.Disk.{Disk, OsError, start_element, ResolveError, FindError}
use wowdoc.Validator.Closure.Resolve.{
  Roots, resolve, candidate, accept, check_real, check_links, check_found, check_relative,
  check_candidate, find_case_insensitive, find_from, stay_inside, exact_or_entry, match_entry,
  is_outside,
}
use wowdoc.Validator.Paths.{
  rel_path, without_common, elements, clean_elements, reversed, clean, display_path, escapes_root,
  join_path,
}
use wowdoc.Validator.Closure.Builder.{Builder}
use wowdoc.Validator.Closure.Toc.{build_in}
use wowdoc.Validator.Closure.Contained.{IsContained, OnOk, resolve-IsContained}
use wowdoc.Validator.Closure.Bounded.{IsKnown, build_in-returns}
use wowdoc.Validator.Closure.Kept.{OnSome}
use wowdoc.Validator.Closure.Indexed.{IsWellFormed, build_in-IsWellFormed}

-- An AddOn whose only XML file, `a.xml`, includes itself. Every path is `/r`, `/r/a.toc` or `/r/a.xml`.
abbrev addon_files : Text → Result OsError Text
addon_files path =
    if path == codes "/r/a.toc"
    then ok (codes "a.xml")
    else if path == codes "/r/a.xml"
    then ok []
    else err (record { is_missing = true; text = codes "missing" })

abbrev addon_names : Text → Result OsError (Unit {0})
addon_names path =
    if path == codes "/r/a.toc" || path == codes "/r/a.xml"
    then ok tt
    else err (record { is_missing = true; text = codes "missing" })

abbrev addon : Disk
addon = record {
  abs = λ path. ok path;
  is_dir = λ path. ok true;
  lstat = addon_names;
  read_dir = λ path. ok [];
  eval_symlinks = λ path. ok path;
  read_file = addon_files;
  tokens = λ content. start_element 0 (codes "Include") ((codes "file", codes "a.xml") ∷ []) ∷ [];
}

abbrev root : Roots
root = record { abs = codes "/r"; real = codes "/r" }

resolve-IsContained_example :
    OnOk (IsContained addon root) (resolve addon root (codes "a.toc") (codes "a.xml") false)
resolve-IsContained_example = resolve-IsContained addon root (codes "a.toc") (codes "a.xml") false

build_in-IsWellFormed_example :
    OnSome (IsWellFormed addon root) (build_in addon root 3 (codes "a.toc"))
build_in-IsWellFormed_example = build_in-IsWellFormed addon root 3 (codes "a.toc")

-- The paths of the AddOn.
IsOne : Text → Type 0
IsOne path = (path ≡ codes "/r") ⊎ (path ≡ codes "/r/a.toc") ⊎ (path ≡ codes "/r/a.xml")

exact_or_entry-IsOne :
    (current exact component : Text)
    → OnOk IsOne (exact_or_entry addon current exact component (addon_names exact))
unfolding match_entry IsOne
exact_or_entry-IsOne current exact component =
    if_elim (λ o. OnOk IsOne (exact_or_entry addon current exact component o))
      (exact == codes "/r/a.toc" || exact == codes "/r/a.xml") (λ there. ground arith)
      (λ missing. tt)

bind-IsOne :
    {E : Type 0} (m : Result E Text) (f : Text → Result E Text)
    → OnOk IsOne m
    → ((a : Text) → IsOne a → OnOk IsOne (f a))
    → OnOk IsOne (m >>= f)
bind-IsOne (err e) f h k = tt
bind-IsOne (ok a) f h k = k a h

then-IsOne :
    {E : Type 0} (m : Result E (Unit {0})) (k : Result E Text) → OnOk IsOne k → OnOk IsOne (m >> k)
then-IsOne (err e) k h = tt
then-IsOne (ok u) k h = h

find_from-IsOne :
    (rel current : Text) (components : List Text)
    → IsOne current
    → OnOk IsOne (find_from addon root rel current components)
unfolding find_from
find_from-IsOne rel current [] h = h
find_from-IsOne rel current (c ∷ components) h =
    bind-IsOne
      (exact_or_entry addon current (join_path current c) c (addon_names (join_path current c)))
      (λ next. stay_inside root rel (ok next) >> find_from addon root rel next components)
      (exact_or_entry-IsOne current (join_path current c) c)
      (λ next k.
        then-IsOne (stay_inside root rel (ok next)) (find_from addon root rel next components)
          (find_from-IsOne rel next components k))

abbrev universe : List Text
universe = codes "." ∷ codes "a.toc" ∷ codes "a.xml" ∷ []

accept-IsKnown :
    (rel actual : Text)
    → IsOne actual
    → IsKnown universe (accept rel actual (rel_path (codes "/r") actual))
unfolding IsOne accept rel_path without_common elements clean_elements reversed split has_prefix
    clean join escapes_root display_path text_eq to_lower
accept-IsKnown rel actual (inl e) = rw e refl
accept-IsKnown rel actual (inr (inl e)) = rw e refl
accept-IsKnown rel actual (inr (inr e)) = rw e refl

check_found-IsKnown :
    (rel : Text) (o : Result FindError Text)
    → OnOk IsOne o
    → IsKnown universe (check_found addon root rel o)
unfolding check_found check_links check_real
check_found-IsKnown rel (err e) h = tt
check_found-IsKnown rel (ok actual) h =
    if_elim (IsKnown universe) (is_outside (rel_path (codes "/r") actual)) (λ _. tt)
      (λ _. accept-IsKnown rel actual h)

check_relative-IsKnown :
    (reference : Text) (o : Option Text) → IsKnown universe (check_relative addon root reference o)
unfolding check_relative find_case_insensitive IsOne
check_relative-IsKnown reference none = tt
check_relative-IsKnown reference (some rel) =
    if_elim (IsKnown universe) (escapes_root rel) (λ _. tt)
      (λ _.
        check_found-IsKnown (clean rel) (find_case_insensitive addon root (clean rel))
          (find_from-IsOne (clean rel) (codes "/r") _ (inl refl)))

check_candidate-IsKnown :
    (reference : Text) (o : Result ResolveError Text)
    → IsKnown universe (check_candidate addon root reference o)
unfolding check_candidate
check_candidate-IsKnown reference (err e) = tt
check_candidate-IsKnown reference (ok path) =
    check_relative-IsKnown reference (rel_path (codes "/r") path)

finite : (from reference : Text) → IsKnown universe (resolve addon root from reference false)
unfolding resolve
finite from reference =
    if_elim (IsKnown universe) (trim_space reference == []) (λ _. tt)
      (λ _.
        check_candidate-IsKnown (trim_space reference)
          (candidate root from (trim_space reference) false))

build_in-returns_example : (b : Builder) × (build_in addon root 4 (codes "a.toc") ≡ some b)
build_in-returns_example =
    build_in-returns addon root universe finite 4 (codes "a.toc") (omega arith)
