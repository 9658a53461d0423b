-- ===== src/Validator/Closure/Indexed.antt =====
-- The invariant of the builder in internal/validator/closure.go.
use wowdoc.Base.{
  ℕ, zero, suc, ◌+◌, ◌<◌, ◌≡◌, refl, ap, ◌∙◌, arith, none, some, List, [], ◌∷◌, ◌++◌, Text,
}
use wowdoc.Base.{text_eq, contains, length, length-append, if_elim, ok}
use wowdoc.Base.Dict
use wowdoc.Base.Dict.{Dict, lookup-insert_self, lookup-insert_ne, lookup-insert}
use wowdoc.Strings.{to_lower}
use wowdoc.Validator.Types.{LoadSource, LoadFile}
use wowdoc.Validator.Closure.Disk.{Disk, ResolvedPath}
use wowdoc.Validator.Closure.Resolve.{Roots}
use wowdoc.Validator.Closure.Contained.{IsContained}
use wowdoc.Validator.Closure.Load.{reload, enter, activate, deactivate, add_loader}
use wowdoc.Validator.Closure.Builder.{Builder, add_diagnostic}
use wowdoc.Validator.Closure.Toc.{build_in}
use wowdoc.Validator.Closure.Kept.{OnSome, build_in-keeps}

-- The file's content is what was read from a file under the root.
abbrev pub IsRead : Disk → Roots → Dict Text Text → LoadFile → Type 0
IsRead d r contents f =
    (found : ResolvedPath) × (found.rel ≡ f.path)
    × IsContained d r found
    × (content : Text) × (d.read_file found.disk ≡ ok content)
    × (Dict.lookup f.path contents ≡ some content)

-- The files from the number `i` on: each has its place as its load order, the map of keys has it
-- at this place, something loads it, and its content was read.
abbrev pub IsIndexed : Disk → Roots → Dict Text Text → Dict Text ℕ → ℕ → List LoadFile → Type 0
IsIndexed d r contents files i [] = Unit
IsIndexed d r contents files i (f ∷ fs) =
    ((f.load_order ≡ i)
      × (Dict.lookup (to_lower f.path) files ≡ some i)
      × (0 < length f.loaded_by)
      × IsRead d r contents f)
    × IsIndexed d r contents files (i + 1) fs

-- The keys point into the list of files.
abbrev pub IsInRange : Dict Text ℕ → List LoadFile → Type 0
IsInRange files fs = (k : Text) (i : ℕ) → Dict.lookup k files ≡ some i → i < length fs

abbrev pub IsWellFormed : Disk → Roots → Builder → Type 0
IsWellFormed d r b =
    IsIndexed d r b.closure.contents b.files 0 b.closure.files × IsInRange b.files b.closure.files

module _ (d : Disk) (r : Roots) where
  add_loader-IsIndexed :
      (contents : Dict Text Text) (files : Dict Text ℕ) (i n : ℕ) (source : LoadSource)
      (fs : List LoadFile)
      → IsIndexed d r contents files i fs
      → IsIndexed d r contents files i (add_loader n source fs)
  unfolding add_loader
  add_loader-IsIndexed contents files i n source [] h = tt
  add_loader-IsIndexed contents files i zero source (f ∷ fs) h =
      ((h.0.0, h.0.1, omega (arith, length-append f.loaded_by (source ∷ []), h.0.2), h.0.3), h.1)
  add_loader-IsIndexed contents files i (suc n) source (f ∷ fs) h =
      (h.0, add_loader-IsIndexed contents files (i + 1) n source fs h.1)

  length-add_loader :
      (n : ℕ) (source : LoadSource) (fs : List LoadFile)
      → length (add_loader n source fs) ≡ length fs
  unfolding add_loader
  length-add_loader n source [] = refl
  length-add_loader zero source (f ∷ fs) = refl
  length-add_loader (suc n) source (f ∷ fs) = ap suc (length-add_loader n source fs)

  -- A file that is new in the map takes nothing from the files before it.
  insert-IsIndexed :
      (contents : Dict Text Text) (files : Dict Text ℕ) (i n : ℕ) (path content : Text)
      (fs : List LoadFile)
      → Dict.lookup (to_lower path) files ≡ none
      → IsIndexed d r contents files i fs
      → IsIndexed d r (Dict.insert path content contents) (Dict.insert (to_lower path) n files) i fs
  insert-IsIndexed contents files i n path content [] fresh h = tt
  insert-IsIndexed contents files i n path content (f ∷ fs) fresh h = (
    (
      h.0.0,
      lookup-insert_ne (to_lower f.path) (to_lower path) n files
            (λ e. differ (ap (λ k. Dict.lookup k files) e))
          ∙ h.0.1,
      h.0.2,
      (
        h.0.3.0,
        h.0.3.1,
        h.0.3.2,
        h.0.3.3,
        h.0.3.4,
        lookup-insert_ne f.path path content contents
              (λ e. differ (ap (λ p. Dict.lookup (to_lower p) files) e))
            ∙ h.0.3.5,
      ),
    ),
    insert-IsIndexed contents files (i + 1) n path content fs fresh h.1,
  )
    where
      differ : Dict.lookup (to_lower f.path) files ≡ Dict.lookup (to_lower path) files → ⊥
      differ e = ground (arith, e, fresh, h.0.1)

  append-IsIndexed :
      (contents : Dict Text Text) (files : Dict Text ℕ) (i : ℕ) (fs : List LoadFile) (f : LoadFile)
      → IsIndexed d r contents files i fs
      → (f.load_order ≡ i + length fs)
      → (Dict.lookup (to_lower f.path) files ≡ some (i + length fs))
      → (0 < length f.loaded_by)
      → IsRead d r contents f
      → IsIndexed d r contents files i (fs ++ f ∷ [])
  append-IsIndexed contents files i [] f h order place loader read =
      ((order ∙ omega arith, place ∙ ap some (omega arith), loader, read), tt)
  append-IsIndexed contents files i (g ∷ fs) f h order place loader read = (
    h.0,
    append-IsIndexed contents files (i + 1) fs f h.1 (order ∙ omega arith)
        (place ∙ ap some (omega arith)) loader read,
  )

  enter-IsWellFormed :
      (file_type : Text) (source : LoadSource) (found : ResolvedPath) (content : Text) (b : Builder)
      → Dict.lookup (to_lower found.rel) b.files ≡ none
      → IsContained d r found
      → d.read_file found.disk ≡ ok content
      → IsWellFormed d r b
      → IsWellFormed d r (enter (to_lower found.rel) file_type source found content b)
  unfolding enter
  enter-IsWellFormed file_type source found content b fresh inside reads h = (
    append-IsIndexed _ _ 0 b.closure.files _
        (insert-IsIndexed b.closure.contents b.files 0 (length b.closure.files) found.rel content
          b.closure.files fresh h.0)
        (omega arith)
        (lookup-insert_self (to_lower found.rel) (length b.closure.files) b.files
          ∙ ap some (omega arith))
        (omega arith)
        (
          found,
          refl,
          inside,
          content,
          reads,
          lookup-insert_self found.rel content b.closure.contents,
        ),
    λ k i e. ground (
      arith,
      e,
      lookup-insert k (to_lower found.rel) (length b.closure.files) b.files,
      h.1 k i,
      length-append b.closure.files (
          record {
            path = found.rel;
            file_type = file_type;
            loaded_by = source ∷ [];
            load_order = length b.closure.files;
          }
          ∷ []),
    ),
  )

  reload-IsWellFormed :
      (reference : Text) (source : LoadSource) (found : ResolvedPath) (i : ℕ) (b : Builder)
      → IsWellFormed d r b
      → IsWellFormed d r (reload reference source found i b)
  unfolding reload add_diagnostic
  reload-IsWellFormed reference source found i b h =
      if_elim (IsWellFormed d r) (contains b.active (to_lower found.rel)) (λ cycle. kept)
        (λ again. kept)
    where
      kept :
          IsIndexed d r b.closure.contents b.files 0 (add_loader i source b.closure.files)
          × IsInRange b.files (add_loader i source b.closure.files)
      kept = (
        add_loader-IsIndexed b.closure.contents b.files 0 i source b.closure.files h.0,
        λ k j e. ground (arith, h.1 k j e, length-add_loader i source b.closure.files),
      )

  -- The builder that a build returns, if its fuel lasts, has each file once, at its load order,
  -- with a loader, and with the content that was read from a file under the roots; its keys point
  -- into the list of files.
  pub build_in-IsWellFormed :
      (fuel : ℕ) (toc : Text) → OnSome (IsWellFormed d r) (build_in d r fuel toc)
  unfolding activate deactivate add_diagnostic Dict.lookup
  build_in-IsWellFormed fuel toc =
      build_in-keeps d r (IsWellFormed d r) (λ _ _ _ _ _ _ _ b h. h)
        (λ reference source found i b known h. reload-IsWellFormed reference source found i b h)
        enter-IsWellFormed (λ key b h. h) (λ key b h. h) (λ interface b h. h)
        (λ toc. (tt, λ k i e. cc)) fuel toc
