-- ===== src/Validator/Closure/Resolve.antt =====
-- How a reference becomes a file under the AddOn's root: `resolve` and `findCaseInsensitive` of
-- internal/validator/closure.go.
use wowdoc.Base.{Bool, true, not, ◌||◌, Option, none, some, List, [], ◌∷◌, ◌++◌, Text, codes}
use wowdoc.Base.{◌==◌, text_eq, eqb, if◌then◌else◌, Result, ok, err, ◌>>=◌, ◌>>◌, guard}
use wowdoc.Strings.{trim_space, has_prefix, equal_fold, fields_from}
use wowdoc.Validator.Paths.{
  is_absolute, clean, join_path, dir, rel_path, escapes_root, with_slashes, has_windows_volume,
  display_path,
}
use wowdoc.Validator.Closure.Disk.{
  Disk, OsError, ResolveKind, escape, missing, unreadable, ResolveError, ResolvedPath, FindError,
  resolve_error, os_error,
}

-- The builder's two roots.
pub record Roots : Type 0 where
  pub abs : Text
  pub real : Text

abbrev pub not_exist : OsError
not_exist = record { is_missing = true; text = codes "file does not exist" }

-- `relErr != nil || escapesRoot(rel)`
unfoldable pub is_outside : Option Text → Bool
is_outside none = true
is_outside (some rel) = escapes_root rel

abbrev fail_with {ℓ} : {A : Type ℓ} → ResolveKind → Text → Option OsError → Result ResolveError A
fail_with kind path cause = err (record { kind = kind; path = path; cause = cause })

-- A system error is `missing` where the file does not exist, and `unreadable` otherwise.
abbrev of_os_error : Text → OsError → ResolveError
of_os_error path e = record {
  kind = if e.is_missing then missing else unreadable;
  path = path;
  cause = some e;
}

abbrev of_find_error : Text → FindError → ResolveError
of_find_error path (resolve_error e) = e
of_find_error path (os_error e) = of_os_error path e

-- The first entry that has the component's name in some case.
unfoldable pub match_entry : Text → List Text → Option Text
match_entry component [] = none
match_entry component (name ∷ names) =
    if equal_fold name component then some name else match_entry component names

abbrev matched : Text → Text → Option Text → Result FindError Text
matched current exact none = err (
    os_error (record {
      is_missing = true;
      text = codes "open " ++ (exact ++ codes ": file does not exist");
    }))
matched current exact (some name) = ok (join_path current name)

abbrev entry_in : Text → Text → Text → Result OsError (List Text) → Result FindError Text
entry_in current exact component (err e) = err (os_error e)
entry_in current exact component (ok names) = matched current exact (match_entry component names)

abbrev pub exact_or_entry :
    Disk → Text → Text → Text → Result OsError (Unit {0}) → Result FindError Text
exact_or_entry d current exact component (ok _) = ok exact
exact_or_entry d current exact component (err e) =
    if not e.is_missing
    then err (os_error e)
    else entry_in current exact component (d.read_dir current)

-- A component that links out of the real root is an escape.
abbrev pub stay_inside : Roots → Text → Result OsError Text → Result FindError (Unit {0})
stay_inside r rel (err e) = err (os_error e)
stay_inside r rel (ok real) =
    guard (not (is_outside (rel_path r.real real)))
      (resolve_error (record { kind = escape; path = display_path rel; cause = none }))

unfoldable pub find_from : Disk → Roots → Text → Text → List Text → Result FindError Text
find_from d r rel current [] = ok current
find_from d r rel current (component ∷ rest) =
    exact_or_entry d current (join_path current component) component
      (d.lstat (join_path current component))
    >>= λ next. stay_inside r rel (d.eval_symlinks next) >> find_from d r rel next rest

-- `findCaseInsensitive`
unfoldable pub find_case_insensitive : Disk → Roots → Text → Result FindError Text
find_case_insensitive d r rel =
    find_from d r rel r.abs (fields_from (λ c. eqb c b'/' || eqb c b'\\') [] (clean rel))

-- The path that a reference names, before the file system is asked.
unfoldable pub candidate : Roots → Text → Text → Bool → Result ResolveError Text
candidate r from reference allow_absolute =
    if is_absolute (with_slashes reference) || has_windows_volume reference
    then (if not allow_absolute || not (is_absolute (with_slashes reference))
        then fail_with escape reference none
        else ok (clean (with_slashes reference)))
    else (let relative = clean (join_path (dir from) (with_slashes reference)) in
        if relative == codes ".."
          || has_prefix relative (codes "../")
          || has_prefix relative (codes "/")
        then fail_with escape relative none
        else ok (join_path r.abs relative))

-- The found file is accepted where its name lies under the root.
unfoldable pub accept : Text → Text → Option Text → Result ResolveError ResolvedPath
accept rel actual none = fail_with escape (display_path rel) none
accept rel actual (some actual_rel) =
    if escapes_root actual_rel
    then fail_with escape (display_path rel) none
    else ok (record { rel = display_path actual_rel; disk = actual })

-- The file that the links lead to lies under the real root.
unfoldable pub check_real :
    Roots → Text → Text → Result OsError Text → Result ResolveError ResolvedPath
unfolding accept
check_real r rel actual (err e) = fail_with unreadable (display_path rel) (some e)
check_real r rel actual (ok real) =
    if is_outside (rel_path r.real real)
    then fail_with escape (display_path rel) none
    else accept rel actual (rel_path r.abs actual)

unfoldable pub check_links :
    Disk → Roots → Text → Text → Result OsError Text → Result ResolveError ResolvedPath
check_links d r rel actual (err e) = err (of_os_error (display_path rel) e)
check_links d r rel actual (ok linked) = check_real r rel actual (d.abs linked)

unfoldable pub check_found :
    Disk → Roots → Text → Result FindError Text → Result ResolveError ResolvedPath
check_found d r rel (err e) = err (of_find_error (display_path rel) e)
check_found d r rel (ok actual) = check_links d r rel actual (d.eval_symlinks actual)

-- The candidate lies under the root, and is looked up there.
unfoldable pub check_relative : Disk → Roots → Text → Option Text → Result ResolveError ResolvedPath
check_relative d r reference none = fail_with escape reference none
check_relative d r reference (some rel) =
    if escapes_root rel
    then fail_with escape reference none
    else check_found d r (clean rel) (find_case_insensitive d r (clean rel))

unfoldable pub check_candidate :
    Disk → Roots → Text → Result ResolveError Text → Result ResolveError ResolvedPath
check_candidate d r reference (err e) = err e
check_candidate d r reference (ok path) = check_relative d r reference (rel_path r.abs path)

-- `closureBuilder.resolve`
unfoldable pub resolve : Disk → Roots → Text → Text → Bool → Result ResolveError ResolvedPath
resolve d r from untrimmed allow_absolute =
    if trim_space untrimmed == []
    then fail_with missing (trim_space untrimmed) (some not_exist)
    else check_candidate d r (trim_space untrimmed)
        (candidate r from (trim_space untrimmed) allow_absolute)
