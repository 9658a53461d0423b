-- ===== src/Validator/Closure/Contained.antt =====
-- The paths that `resolve` of internal/validator/closure.go accepts.
use wowdoc.Base.{◌≡◌, refl, Bool, false, Option, none, some, [], Text}
use wowdoc.Base.{◌==◌, text_eq, if_elim, Result, ok, err}
use wowdoc.Strings.{trim_space}
use wowdoc.Validator.Paths.{rel_path, escapes_root, clean}
use wowdoc.Validator.Paths.Under.{IsUnder, rel_path-IsUnder}
use wowdoc.Validator.Closure.Disk.{Disk, ResolveError, ResolvedPath, OsError, FindError}
use wowdoc.Validator.Closure.Resolve.{
  Roots, resolve, is_outside, candidate, find_case_insensitive, accept, check_real, check_links,
  check_found, check_relative, check_candidate,
}

-- The file's name lies under the root, and the file that its links lead to under the real root.
abbrev pub IsContained : Disk → Roots → ResolvedPath → Type 0
IsContained d r found =
    IsUnder r.abs found.disk
    × (linked : Text) × (d.eval_symlinks found.disk ≡ ok linked)
    × (real : Text) × (d.abs linked ≡ ok real)
    × IsUnder r.real real

not_outside-IsUnder :
    (root path : Text) (o : Option Text)
    → rel_path root path ≡ o
    → is_outside o ≡ false
    → IsUnder root path
unfolding is_outside
not_outside-IsUnder root path none e inside = absurd (cc)
not_outside-IsUnder root path (some rel) e inside = rel_path-IsUnder root path rel e inside

abbrev pub OnOk : {E : Type 0} {A : Type 0} → (A → Type 0) → Result E A → Type 0
OnOk P (ok a) = P a
OnOk P (err e) = Unit

accept-IsContained :
    (d : Disk) (r : Roots) (rel actual linked real : Text) (o : Option Text)
    → rel_path r.abs actual ≡ o
    → d.eval_symlinks actual ≡ ok linked
    → d.abs linked ≡ ok real
    → is_outside (rel_path r.real real) ≡ false
    → OnOk (IsContained d r) (accept rel actual o)
unfolding accept
accept-IsContained d r rel actual linked real none named links absolute inside = tt
accept-IsContained d r rel actual linked real (some actual_rel) named links absolute inside =
    if_elim (OnOk (IsContained d r)) (escapes_root actual_rel) (λ out. tt)
      (λ kept. (
        rel_path-IsUnder r.abs actual actual_rel named kept,
        linked,
        links,
        real,
        absolute,
        not_outside-IsUnder r.real real (rel_path r.real real) refl inside,
      ))

check_real-IsContained :
    (d : Disk) (r : Roots) (rel actual linked : Text) (o : Result OsError Text)
    → d.eval_symlinks actual ≡ ok linked
    → d.abs linked ≡ o
    → OnOk (IsContained d r) (check_real r rel actual o)
unfolding check_real
check_real-IsContained d r rel actual linked (err e) links absolute = tt
check_real-IsContained d r rel actual linked (ok real) links absolute =
    if_elim (OnOk (IsContained d r)) (is_outside (rel_path r.real real)) (λ out. tt)
      (λ inside.
        accept-IsContained d r rel actual linked real (rel_path r.abs actual) refl links absolute
          inside)

check_links-IsContained :
    (d : Disk) (r : Roots) (rel actual : Text) (o : Result OsError Text)
    → d.eval_symlinks actual ≡ o
    → OnOk (IsContained d r) (check_links d r rel actual o)
unfolding check_links
check_links-IsContained d r rel actual (err e) links = tt
check_links-IsContained d r rel actual (ok linked) links =
    check_real-IsContained d r rel actual linked (d.abs linked) links refl

check_found-IsContained :
    (d : Disk) (r : Roots) (rel : Text) (o : Result FindError Text)
    → OnOk (IsContained d r) (check_found d r rel o)
unfolding check_found
check_found-IsContained d r rel (err e) = tt
check_found-IsContained d r rel (ok actual) =
    check_links-IsContained d r rel actual (d.eval_symlinks actual) refl

check_relative-IsContained :
    (d : Disk) (r : Roots) (reference : Text) (o : Option Text)
    → OnOk (IsContained d r) (check_relative d r reference o)
unfolding check_relative
check_relative-IsContained d r reference none = tt
check_relative-IsContained d r reference (some rel) =
    if_elim (OnOk (IsContained d r)) (escapes_root rel) (λ out. tt)
      (λ inside. check_found-IsContained d r (clean rel) (find_case_insensitive d r (clean rel)))

check_candidate-IsContained :
    (d : Disk) (r : Roots) (reference : Text) (o : Result ResolveError Text)
    → OnOk (IsContained d r) (check_candidate d r reference o)
unfolding check_candidate
check_candidate-IsContained d r reference (err e) = tt
check_candidate-IsContained d r reference (ok path) =
    check_relative-IsContained d r reference (rel_path r.abs path)

-- The name of a file that `resolve` accepts, by any reference, has the elements of the AddOn's
-- root and after them none that leads up; its links lead to a file whose path stands in this way
-- under the real root.
pub resolve-IsContained :
    (d : Disk) (r : Roots) (from reference : Text) (allow_absolute : Bool)
    → OnOk (IsContained d r) (resolve d r from reference allow_absolute)
unfolding resolve
resolve-IsContained d r from reference allow_absolute =
    if_elim (OnOk (IsContained d r)) (trim_space reference == []) (λ empty. tt)
      (λ full.
        check_candidate-IsContained d r (trim_space reference)
          (candidate r from (trim_space reference) allow_absolute))
