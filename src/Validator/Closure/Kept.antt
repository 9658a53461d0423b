-- ===== src/Validator/Closure/Kept.antt =====
-- The steps of internal/validator/closure.go put together: a property of the builder is carried
-- through a build.
use wowdoc.Base.{
  ℕ, zero, suc, ◌+◌, ◌≡◌, refl, true, false, not, ◌&&◌, ◌||◌, Option, none, some, List, [], ◌∷◌,
  Text, codes,
}
use wowdoc.Base.{◌==◌, text_eq, if_elim, leb, Result, ok, err}
use wowdoc.Base.Dict
use wowdoc.Strings.{to_lower, trim_prefix, trim_space, equal_fold, cut, split, has_prefix}
use wowdoc.Validator.Types.{LoadSource, Evidence}
use wowdoc.Validator.Paths.{ext}
use wowdoc.Validator.Closure.Disk.{
  Disk, OsError, Token, start_element, other, failed, ResolveError, ResolvedPath,
}
use wowdoc.Validator.Closure.Resolve.{Roots, resolve}
use wowdoc.Validator.Closure.Contained.{IsContained, OnOk, resolve-IsContained}
use wowdoc.Validator.Closure.Load.{
  reload, enter, activate, deactivate, parse_tokens, file_attribute, load_content, load_new,
  load_resolved, load,
}
use wowdoc.Validator.Closure.Builder.{Builder, add_diagnostic, add_resolve_diagnostic}
use wowdoc.Validator.Closure.Toc.{
  toc_line, toc_lines, parse_toc, scanned_lines, empty_builder, max_line, build_in, byte_size,
  set_interface, line_value, with_toc, with_resolved,
}

-- A property of the builder that a build returns.
abbrev pub OnSome : (Builder → Type 0) → Option Builder → Type 0
OnSome P none = Unit
OnSome P (some b) = P b

OnSome-bind :
    (P : Builder → Type 0) (f : Builder → Option Builder) (o : Option Builder)
    → ((b : Builder) → P b → OnSome P (f b))
    → OnSome P o
    → OnSome P (elim o [ none ↦ none | some b ↦ f b ])
OnSome-bind P f none k h = tt
OnSome-bind P f (some b) k h = k b h

module _ (d : Disk) (r : Roots) (P : Builder → Type 0)
    (told : (severity code file : Text) (line column : ℕ) (message : Text) (evidence : Evidence)
        (b : Builder)
      → P b
      → P (add_diagnostic severity code file line column message evidence b))
    (reloaded : (reference : Text) (source : LoadSource) (found : ResolvedPath) (i : ℕ)
        (b : Builder)
      → Dict.lookup (to_lower found.rel) b.files ≡ some i
      → P b
      → P (reload reference source found i b))
    (entered : (file_type : Text) (source : LoadSource) (found : ResolvedPath) (content : Text)
        (b : Builder)
      → Dict.lookup (to_lower found.rel) b.files ≡ none
      → IsContained d r found
      → d.read_file found.disk ≡ ok content
      → P b
      → P (enter (to_lower found.rel) file_type source found content b))
    (activated : (key : Text) (b : Builder) → P b → P (activate key b))
    (deactivated : (key : Text) (b : Builder) → P b → P (deactivate key b))
    (declared : (interface : Text) (b : Builder)
      → P b
      → P (record b { closure = record b.closure { interface = interface } }))
    (started : (toc : Text)
      → P (record empty_builder { closure = record empty_builder.closure { toc = toc } })) where
  Keeps : (Text → LoadSource → Builder → Option Builder) → Type 0
  Keeps f =
      (reference : Text) (source : LoadSource) (b : Builder) → P b → OnSome P (f reference source b)

  parse_tokens-Keeps :
      (f : Text → LoadSource → Builder → Option Builder) (file content : Text) (tokens : List Token)
      (b : Builder)
      → Keeps f
      → P b
      → OnSome P (parse_tokens f file content tokens b)
  unfolding parse_tokens Keeps
  parse_tokens-Keeps f file content [] b k h = h
  parse_tokens-Keeps f file content (other ∷ tokens) b k h =
      parse_tokens-Keeps f file content tokens b k h
  parse_tokens-Keeps f file content (failed offset own message ∷ tokens) b k h =
      told _ _ _ _ _ _ _ b h
  parse_tokens-Keeps f file content (start_element offset name attributes ∷ tokens) b k h =
      if_elim (OnSome P)
        (not (equal_fold name (codes "Script") || equal_fold name (codes "Include"))
          || file_attribute attributes == [])
        (λ skipped. parse_tokens-Keeps f file content tokens b k h)
        (λ loads.
          OnSome-bind P (parse_tokens f file content tokens) _
            (λ c p. parse_tokens-Keeps f file content tokens c k p) (k _ _ b h))

  load_content-Keeps :
      (f : Text → LoadSource → Builder → Option Builder) (reference : Text) (source : LoadSource)
      (file_type : Text) (found : ResolvedPath) (o : Result OsError Text) (b : Builder)
      → Keeps f
      → Dict.lookup (to_lower found.rel) b.files ≡ none
      → IsContained d r found
      → d.read_file found.disk ≡ o
      → P b
      → OnSome P (load_content f d reference source (to_lower found.rel) file_type found o b)
  unfolding load_content
  load_content-Keeps f reference source file_type found (err e) b k fresh inside reads h =
      told _ _ _ _ _ _ _ b h
  load_content-Keeps f reference source file_type found (ok content) b k fresh inside reads h =
      if_elim (OnSome P) (not (file_type == codes "xml"))
        (λ lua. entered file_type source found content b fresh inside reads h)
        (λ xml.
          OnSome-bind P (λ c. some (deactivate (to_lower found.rel) c)) _
            (λ c p. deactivated (to_lower found.rel) c p)
            (parse_tokens-Keeps f found.rel content (d.tokens content) _ k (
              activated (to_lower found.rel) _
                (entered file_type source found content b fresh inside reads h))))

  load_known-Keeps :
      (f : Text → LoadSource → Builder → Option Builder) (reference : Text) (source : LoadSource)
      (file_type : Text) (found : ResolvedPath) (o : Option ℕ) (b : Builder)
      → Keeps f
      → IsContained d r found
      → Dict.lookup (to_lower found.rel) b.files ≡ o
      → P b
      → OnSome P (load_new f d reference source (to_lower found.rel) file_type found o b)
  load_known-Keeps f reference source file_type found none b k inside known h =
      load_content-Keeps f reference source file_type found (d.read_file found.disk) b k known
        inside refl h
  load_known-Keeps f reference source file_type found (some i) b k inside known h =
      reloaded reference source found i b known h

  load_resolved-Keeps :
      (f : Text → LoadSource → Builder → Option Builder) (reference : Text) (source : LoadSource)
      (o : Result ResolveError ResolvedPath) (b : Builder)
      → Keeps f
      → OnOk (IsContained d r) o
      → P b
      → OnSome P (load_resolved f d reference source o b)
  unfolding load_resolved add_resolve_diagnostic
  load_resolved-Keeps f reference source (err e) b k inside h = told _ _ _ _ _ _ _ b h
  load_resolved-Keeps f reference source (ok found) b k inside h =
      let file_type = trim_prefix (to_lower (ext found.rel)) (codes ".") in
      if_elim (OnSome P) (not (file_type == codes "lua") && not (file_type == codes "xml"))
        (λ unsupported. told _ _ _ _ _ _ _ b h)
        (λ supported.
          load_known-Keeps f reference source file_type found
            (Dict.lookup (to_lower found.rel) b.files) b k inside refl h)

  load-Keeps : (fuel : ℕ) → Keeps (load d r fuel)
  unfolding load Keeps
  load-Keeps zero reference source b h = tt
  load-Keeps (suc fuel) reference source b h =
      load_resolved-Keeps (load d r fuel) reference source (resolve d r source.file reference false)
        b (load-Keeps fuel) (resolve-IsContained d r source.file reference false) h

  set_interface-keeps : (o : Option (Text × Text)) (b : Builder) → P b → P (set_interface o b)
  set_interface-keeps none b h = h
  set_interface-keeps (some (key, value)) b h =
      if_elim P (equal_fold (trim_space key) (codes "Interface"))
        (λ declares. declared (trim_space value) b h) (λ other_key. h)

  toc_line-keeps :
      (fuel n : ℕ) (value : Text) (b : Builder) → P b → OnSome P (toc_line d r fuel n value b)
  unfolding toc_line Keeps
  toc_line-keeps fuel n value b h =
      if_elim (OnSome P) (value == []) (λ _. h)
        (λ _.
          if_elim (OnSome P) (has_prefix value (codes "##"))
            (λ _. set_interface-keeps (cut b':' (trim_space (trim_prefix value (codes "##")))) b h)
            (λ _.
              if_elim (OnSome P) (has_prefix value (codes "#")) (λ _. h)
                (λ _. load-Keeps fuel _ _ b h)))

  toc_lines-keeps :
      (fuel n : ℕ) (lines : List Text) (b : Builder) → P b → OnSome P (toc_lines d r fuel n lines b)
  unfolding toc_lines
  toc_lines-keeps fuel n [] b h = h
  toc_lines-keeps fuel n (line ∷ lines) b h =
      if_elim (OnSome P) (leb max_line (byte_size line)) (λ long. told _ _ _ _ _ _ _ b h)
        (λ short.
          OnSome-bind P (toc_lines d r fuel (n + 1) lines) _
            (λ c p. toc_lines-keeps fuel (n + 1) lines c p)
            (toc_line-keeps fuel (n + 1) (line_value (n + 1) line) b h))

  with_toc-keeps :
      (fuel : ℕ) (found : ResolvedPath) (o : Result OsError Text)
      → OnSome P (with_toc d r fuel found o)
  unfolding parse_toc
  with_toc-keeps fuel found (err e) = told _ _ _ _ _ _ _ _ (started found.rel)
  with_toc-keeps fuel found (ok content) =
      toc_lines-keeps fuel 0 (scanned_lines (split 10 content)) _ (started found.rel)

  with_resolved-keeps :
      (fuel : ℕ) (toc : Text) (o : Result ResolveError ResolvedPath)
      → OnSome P (with_resolved d r fuel toc o)
  unfolding add_resolve_diagnostic
  with_resolved-keeps fuel toc (err e) = told _ _ _ _ _ _ _ empty_builder (started [])
  with_resolved-keeps fuel toc (ok found) = with_toc-keeps fuel found (d.read_file found.disk)

  pub build_in-keeps : (fuel : ℕ) (toc : Text) → OnSome P (build_in d r fuel toc)
  unfolding build_in
  build_in-keeps fuel toc = with_resolved-keeps fuel toc (resolve d r [] toc true)
