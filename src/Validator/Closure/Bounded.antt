-- ===== src/Validator/Closure/Bounded.antt =====
-- The fuel of `load` in internal/validator/closure.go: every file that is parsed is new, so it is
-- measured by the files that are left.
use wowdoc.Base.{
  ℕ, zero, suc, ◌+◌, ◌<◌, ◌≤◌, ◌≡◌, refl, sym, subst, arith, true, false, not, ◌&&◌, ◌||◌, Option,
  none, some, List, [], ◌∷◌, Text, codes,
}
use wowdoc.Base.{◌==◌, text_eq, contains, leb, length, if_elim, Result, ok, err}
use wowdoc.Base.Dict
use wowdoc.Base.Dict.{Dict, lookup-insert}
use wowdoc.Strings.{to_lower, trim_prefix, trim_space, equal_fold, cut, split, has_prefix}
use wowdoc.Validator.Types.{LoadSource}
use wowdoc.Validator.Paths.{ext}
use wowdoc.Validator.Closure.Disk.{
  Disk, OsError, Token, start_element, other, failed, ResolveError, ResolvedPath,
}
use wowdoc.Validator.Closure.Resolve.{Roots, resolve}
use wowdoc.Validator.Closure.Load.{
  reload, enter, activate, deactivate, parse_tokens, file_attribute, load_content, load_new,
  load_resolved, load,
}
use wowdoc.Validator.Closure.Builder.{Builder, add_diagnostic, add_resolve_diagnostic}
use wowdoc.Validator.Closure.Toc.{
  toc_line, toc_lines, parse_toc, scanned_lines, max_line, build_in, byte_size, set_interface,
  line_value, with_toc, with_resolved,
}
use wowdoc.Validator.Closure.Unloaded.{unloaded, unloaded-insert, unloaded-empty}

-- A result with no more files to load than `m`.
abbrev pub IsDone : List Text → ℕ → Option Builder → Type 0
IsDone universe m none = ⊥
IsDone universe m (some b) = unloaded b.files universe ≤ m

IsDone-weaken :
    (universe : List Text) (m n : ℕ) (o : Option Builder)
    → m ≤ n
    → IsDone universe m o
    → IsDone universe n o
IsDone-weaken universe m n none le h = h
IsDone-weaken universe m n (some b) le h = omega arith

IsDone-bind :
    (universe : List Text) (m : ℕ) (f : Builder → Option Builder) (o : Option Builder)
    → ((b : Builder) → unloaded b.files universe ≤ m → IsDone universe m (f b))
    → IsDone universe m o
    → IsDone universe m (elim o [ none ↦ none | some b ↦ f b ])
IsDone-bind universe m f none k h = h
IsDone-bind universe m f (some b) k h = k b h

-- The file of a resolved reference is one of the universe.
abbrev pub IsKnown : List Text → Result ResolveError ResolvedPath → Type 0
IsKnown universe (err e) = Unit
IsKnown universe (ok found) = contains universe (to_lower found.rel) ≡ true

module _ (d : Disk) (r : Roots) (universe : List Text)
    (finite : (from reference : Text) → IsKnown universe (resolve d r from reference false)) where
  -- The function is done on every builder with at most `m` files left.
  Ends : ℕ → (Text → LoadSource → Builder → Option Builder) → Type 0
  Ends m f =
      (reference : Text) (source : LoadSource) (b : Builder)
      → unloaded b.files universe ≤ m
      → IsDone universe m (f reference source b)

  parse_tokens-Ends :
      (m : ℕ) (f : Text → LoadSource → Builder → Option Builder) (file content : Text)
      (tokens : List Token) (b : Builder)
      → Ends m f
      → unloaded b.files universe ≤ m
      → IsDone universe m (parse_tokens f file content tokens b)
  unfolding parse_tokens Ends add_diagnostic
  parse_tokens-Ends m f file content [] b k h = h
  parse_tokens-Ends m f file content (other ∷ tokens) b k h =
      parse_tokens-Ends m f file content tokens b k h
  parse_tokens-Ends m f file content (failed offset own message ∷ tokens) b k h = h
  parse_tokens-Ends m f file content (start_element offset name attributes ∷ tokens) b k h =
      if_elim (IsDone universe m)
        (not (equal_fold name (codes "Script") || equal_fold name (codes "Include"))
          || file_attribute attributes == [])
        (λ skipped. parse_tokens-Ends m f file content tokens b k h)
        (λ loads.
          IsDone-bind universe m (parse_tokens f file content tokens) _
            (λ c p. parse_tokens-Ends m f file content tokens c k p) (k _ _ b h))

  load_content-Ends :
      (m : ℕ) (f : Text → LoadSource → Builder → Option Builder) (reference : Text)
      (source : LoadSource) (file_type : Text) (found : ResolvedPath) (o : Result OsError Text)
      (b : Builder)
      → ((j : ℕ) → j < m → Ends j f)
      → contains universe (to_lower found.rel) ≡ true
      → Dict.lookup (to_lower found.rel) b.files ≡ none
      → unloaded b.files universe ≤ m
      → IsDone universe m
          (load_content f d reference source (to_lower found.rel) file_type found o b)
  unfolding load_content add_diagnostic enter activate deactivate
  load_content-Ends m f reference source file_type found (err e) b k known fresh h = h
  load_content-Ends m f reference source file_type found (ok content) b k known fresh h =
      let fewer =
        unloaded-insert b.files (to_lower found.rel) (length b.closure.files) universe known
          fresh in
      let left =
        unloaded (Dict.insert (to_lower found.rel) (length b.closure.files) b.files) universe in
      if_elim (IsDone universe m) (not (file_type == codes "xml")) (λ lua. omega arith)
        (λ xml. IsDone-weaken universe left m _ (omega arith) (
          IsDone-bind universe left (λ c. some (deactivate (to_lower found.rel) c)) _ (λ c p. p)
            (parse_tokens-Ends left f found.rel content (d.tokens content)
              (activate (to_lower found.rel)
                (enter (to_lower found.rel) file_type source found content b))
              (k left (omega arith)) (omega arith))))

  load_new-Ends :
      (m : ℕ) (f : Text → LoadSource → Builder → Option Builder) (reference : Text)
      (source : LoadSource) (file_type : Text) (found : ResolvedPath) (o : Option ℕ) (b : Builder)
      → ((j : ℕ) → j < m → Ends j f)
      → contains universe (to_lower found.rel) ≡ true
      → Dict.lookup (to_lower found.rel) b.files ≡ o
      → unloaded b.files universe ≤ m
      → IsDone universe m (load_new f d reference source (to_lower found.rel) file_type found o b)
  unfolding reload add_diagnostic
  load_new-Ends m f reference source file_type found none b k known fresh h =
      load_content-Ends m f reference source file_type found (d.read_file found.disk) b k known
        fresh h
  load_new-Ends m f reference source file_type found (some i) b k known again h =
      if_elim (λ c. IsDone universe m (some c)) (contains b.active (to_lower found.rel))
        (λ cycle. h) (λ duplicate. h)

  load_resolved-Ends :
      (m : ℕ) (f : Text → LoadSource → Builder → Option Builder) (reference : Text)
      (source : LoadSource) (o : Result ResolveError ResolvedPath) (b : Builder)
      → ((j : ℕ) → j < m → Ends j f)
      → IsKnown universe o
      → unloaded b.files universe ≤ m
      → IsDone universe m (load_resolved f d reference source o b)
  unfolding load_resolved add_resolve_diagnostic add_diagnostic
  load_resolved-Ends m f reference source (err e) b k known h = h
  load_resolved-Ends m f reference source (ok found) b k known h =
      let file_type = trim_prefix (to_lower (ext found.rel)) (codes ".") in
      if_elim (IsDone universe m) (not (file_type == codes "lua") && not (file_type == codes "xml"))
        (λ unsupported. h)
        (λ supported.
          load_new-Ends m f reference source file_type found
            (Dict.lookup (to_lower found.rel) b.files) b k known refl h)

  -- Fuel above the number of the files that are left is enough.
  load-Ends : (fuel m : ℕ) → m < fuel → Ends m (load d r fuel)
  unfolding load Ends
  load-Ends zero m h reference source b k = absurd (omega arith)
  load-Ends (suc fuel) m h reference source b k =
      load_resolved-Ends m (load d r fuel) reference source
        (resolve d r source.file reference false) b (λ j less. load-Ends fuel j (omega arith))
        (finite source.file reference) k

  set_interface-files :
      (o : Option (Text × Text)) (b : Builder) → (set_interface o b).files ≡ b.files
  set_interface-files none b = refl
  set_interface-files (some (key, value)) b =
      if_elim (λ (c : Builder). c.files ≡ b.files) (equal_fold (trim_space key) (codes "Interface"))
        (λ _. refl) (λ _. refl)

  toc_line-ends :
      (fuel m n : ℕ) (value : Text) (b : Builder)
      → m < fuel
      → unloaded b.files universe ≤ m
      → IsDone universe m (toc_line d r fuel n value b)
  unfolding toc_line Ends
  toc_line-ends fuel m n value b less h =
      if_elim (IsDone universe m) (value == []) (λ _. h)
        (λ _.
          if_elim (IsDone universe m) (has_prefix value (codes "##"))
            (λ _.
              subst (λ files. unloaded files universe ≤ m)
                (sym
                  (set_interface-files (cut b':' (trim_space (trim_prefix value (codes "##")))) b))
                h)
            (λ _.
              if_elim (IsDone universe m) (has_prefix value (codes "#")) (λ _. h)
                (λ _. load-Ends fuel m less _ _ b h)))

  toc_lines-ends :
      (fuel m n : ℕ) (lines : List Text) (b : Builder)
      → m < fuel
      → unloaded b.files universe ≤ m
      → IsDone universe m (toc_lines d r fuel n lines b)
  unfolding toc_lines add_diagnostic
  toc_lines-ends fuel m n [] b less h = h
  toc_lines-ends fuel m n (line ∷ lines) b less h =
      if_elim (IsDone universe m) (leb max_line (byte_size line)) (λ long. h)
        (λ short.
          IsDone-bind universe m (toc_lines d r fuel (n + 1) lines) _
            (λ c p. toc_lines-ends fuel m (n + 1) lines c less p)
            (toc_line-ends fuel m (n + 1) (line_value (n + 1) line) b less h))

  with_toc-ends :
      (fuel : ℕ) (found : ResolvedPath) (o : Result OsError Text)
      → length universe < fuel
      → IsDone universe (length universe) (with_toc d r fuel found o)
  unfolding parse_toc add_diagnostic
  with_toc-ends fuel found (err e) less = omega (arith, unloaded-empty universe)
  with_toc-ends fuel found (ok content) less =
      toc_lines-ends fuel (length universe) 0 (scanned_lines (split 10 content)) _ less
        (omega (arith, unloaded-empty universe))

  with_resolved-ends :
      (fuel : ℕ) (toc : Text) (o : Result ResolveError ResolvedPath)
      → length universe < fuel
      → IsDone universe (length universe) (with_resolved d r fuel toc o)
  unfolding add_resolve_diagnostic add_diagnostic
  with_resolved-ends fuel toc (err e) less = omega (arith, unloaded-empty universe)
  with_resolved-ends fuel toc (ok found) less =
      with_toc-ends fuel found (d.read_file found.disk) less

-- Where the references resolve to finitely many files, a build with more fuel than there are files
-- returns a closure, whatever includes whatever.
pub build_in-returns :
    (d : Disk) (r : Roots) (universe : List Text)
    → ((from reference : Text) → IsKnown universe (resolve d r from reference false))
    → (fuel : ℕ) (toc : Text) → length universe < fuel
    → (b : Builder) × (build_in d r fuel toc ≡ some b)
unfolding build_in
build_in-returns d r universe finite fuel toc less =
    returned (with_resolved d r fuel toc (resolve d r [] toc true))
      (with_resolved-ends d r universe finite fuel toc (resolve d r [] toc true) less)
  where
    returned :
        (o : Option Builder) → IsDone universe (length universe) o → (b : Builder) × (o ≡ some b)
    returned none h = absurd h
    returned (some b) h = (b, refl)
