-- ===== src/GitStore/Tree/Listing.antt =====
-- The entries that `Tree` of internal/gitstore/git.go makes of a listing.
use wowdoc.Base.{
  ℕ, zero, suc, ◌≢◌, ◌^◌, ◌<◌, ◌≡◌, refl, ap, ◌∙◌, Bool, true, false, Option, none, some, List, [],
  ◌∷◌,
}
use wowdoc.Base.{◌++◌, Text, codes, ◌==◌, text_eq, eqb, All, All-append, All-map, arith}
use wowdoc.Base.{if◌then◌else◌}
use wowdoc.Base.Int.{ℤ, pos}
use wowdoc.Strings.{fields, split, cut, is_space}
use wowdoc.Strings.Decimal.{decimal, decimal-digits, is_digit}
use wowdoc.GitStore.Words.{
  parse_int, value_of, parse_int-decimal, Without, IsWord, spaces, decimal-IsWord, fields-next,
  fields-last, fields-spaces,
}
use wowdoc.GitStore.Tree.{
  TreeEntry, blob_entry, cut_entry, part_entry, append_entry, tree_entries, tree,
}

-- An object of a listing; only a blob has a size, which is written with spaces before it.
pub record Listed : Type 0 where
  pub mode : Text
  pub kind : Text
  pub oid : Text
  pub padding : ℕ
  pub size : Option ℕ
  pub path : Text

abbrev pub size_text : Option ℕ → Text
size_text none = codes "-"
size_text (some n) = decimal n

abbrev pub meta_text : Listed → Text
meta_text l =
    l.mode ++ b' ' ∷ (l.kind ++ b' ' ∷ (l.oid ++ b' ' ∷ (spaces l.padding ++ size_text l.size)))

-- The format that `git ls-tree -z --long` documents: the meta data, a tab, the path, and a NUL.
abbrev pub listing : List Listed → Text
listing [] = []
listing (l ∷ ls) = (meta_text l ++ b'\t' ∷ l.path) ++ 0 ∷ listing ls

abbrev pub is_nul : ℕ → Bool
is_nul c = eqb c 0

abbrev pub Fits : Option ℕ → Type 0
Fits none = Unit
Fits (some n) = n < 2 ^ 63

-- The words are words, no NUL stands in them or in the path, and the size fits.
pub record IsListed (l : Listed) : Type 0 where
  pub mode_word : IsWord l.mode
  pub kind_word : IsWord l.kind
  pub oid_word : IsWord l.oid
  pub mode_plain : Without is_nul l.mode
  pub kind_plain : Without is_nul l.kind
  pub oid_plain : Without is_nul l.oid
  pub path_plain : Without is_nul l.path
  pub size_fits : Fits l.size

-- The entries of the blobs, in the order of the listing.
abbrev pub size_of : Option ℕ → ℤ
size_of none = pos 0
size_of (some n) = pos n

abbrev pub entry_of : Listed → TreeEntry
entry_of l = record { oid = l.oid; path = l.path; size = size_of l.size }

abbrev pub blobs : List Listed → List TreeEntry
blobs [] = []
blobs (l ∷ ls) = let rest = blobs ls in if l.kind == codes "blob" then entry_of l ∷ rest else rest

split-piece : (s rest : Text) → Without is_nul s → split 0 (s ++ 0 ∷ rest) ≡ s ∷ split 0 rest
unfolding split
split-piece [] rest h = refl
split-piece (c ∷ s) rest h = rw (h.0, split-piece s rest h.1) refl

abbrev is_tab : ℕ → Bool
is_tab c = eqb c b'\t'

cut-meta : (s rest : Text) → Without is_tab s → cut b'\t' (s ++ b'\t' ∷ rest) ≡ some (s, rest)
unfolding cut
cut-meta [] rest h = refl
cut-meta (c ∷ s) rest h = rw (h.0, cut-meta s rest h.1) refl

space-is_tab : (c : ℕ) → is_space c ≡ false → is_tab c ≡ false
unfolding is_space
space-is_tab c h = ground arith

IsWord-tab : (w : Text) → IsWord w → Without is_tab w
IsWord-tab [] h = absurd h
IsWord-tab (c ∷ w) h = All-map space-is_tab (c ∷ w) h

size_text-IsWord : (size : Option ℕ) → IsWord (size_text size)
unfolding is_space
size_text-IsWord none = (refl, tt)
size_text-IsWord (some n) = decimal-IsWord n

fields-meta :
    (l : Listed)
    → IsListed l
    → fields (meta_text l) ≡ l.mode ∷ l.kind ∷ l.oid ∷ size_text l.size ∷ []
fields-meta l h =
    rw
      (
        fields-next l.mode
            (l.kind ++ b' ' ∷ (l.oid ++ b' ' ∷ (spaces l.padding ++ size_text l.size))) h.mode_word,
        fields-next l.kind (l.oid ++ b' ' ∷ (spaces l.padding ++ size_text l.size)) h.kind_word,
        fields-next l.oid (spaces l.padding ++ size_text l.size) h.oid_word,
        fields-spaces l.padding (size_text l.size),
        fields-last (size_text l.size) (size_text-IsWord l.size),
      )
      refl

-- A class that has no space and no digit of its own does not occur in the meta data.
module _ (cuts : ℕ → Bool) (space_ok : cuts b' ' ≡ false) (dash_ok : cuts b'-' ≡ false)
    (digit_ok : (c : ℕ) → is_digit c ≡ true → cuts c ≡ false) where
  spaces-Without : (n : ℕ) → Without cuts (spaces n)
  spaces-Without zero = tt
  spaces-Without (suc n) = (space_ok, spaces-Without n)

  size_text-Without : (size : Option ℕ) → Without cuts (size_text size)
  size_text-Without none = (dash_ok, tt)
  size_text-Without (some n) = All-map digit_ok (decimal n) (decimal-digits n)

  join-Without : (s t : Text) → Without cuts s → Without cuts t → Without cuts (s ++ b' ' ∷ t)
  join-Without s t hs ht = All-append (λ c. cuts c ≡ false) s (b' ' ∷ t) hs (space_ok, ht)

  meta_text-Without :
      (l : Listed)
      → Without cuts l.mode
      → Without cuts l.kind
      → Without cuts l.oid
      → Without cuts (meta_text l)
  meta_text-Without l hm hk ho = join-Without l.mode _ hm (
      join-Without l.kind _ hk (
        join-Without l.oid _ ho (
          All-append (λ c. cuts c ≡ false) (spaces l.padding) (size_text l.size)
            (spaces-Without l.padding) (size_text-Without l.size))))

digit-is_tab : (c : ℕ) → is_digit c ≡ true → is_tab c ≡ false
digit-is_tab c h = ground arith

digit-is_nul : (c : ℕ) → is_digit c ≡ true → is_nul c ≡ false
digit-is_nul c h = ground arith

cut-part :
    (l : Listed)
    → IsListed l
    → cut b'\t' (meta_text l ++ b'\t' ∷ l.path) ≡ some (meta_text l, l.path)
cut-part l h = cut-meta (meta_text l) l.path (
    meta_text-Without is_tab refl refl digit-is_tab l (IsWord-tab l.mode h.mode_word)
      (IsWord-tab l.kind h.kind_word) (IsWord-tab l.oid h.oid_word))

split-part :
    (l : Listed) (rest : Text)
    → IsListed l
    → split 0 ((meta_text l ++ b'\t' ∷ l.path) ++ 0 ∷ rest)
      ≡ (meta_text l ++ b'\t' ∷ l.path) ∷ split 0 rest
split-part l rest h = split-piece (meta_text l ++ b'\t' ∷ l.path) rest (
    All-append (λ c. is_nul c ≡ false) (meta_text l) (b'\t' ∷ l.path)
      (meta_text-Without is_nul refl refl digit-is_nul l h.mode_plain h.kind_plain h.oid_plain)
      (refl, h.path_plain))

value_of-size_text :
    (size : Option ℕ) → Fits size → value_of (parse_int (size_text size)) ≡ size_of size
unfolding parse_int
value_of-size_text none h = refl
value_of-size_text (some n) h = ap value_of (parse_int-decimal n h)

part_entry-cut : (part : Text) → part ≢ [] → part_entry part ≡ cut_entry (cut b'\t' part)
unfolding part_entry
part_entry-cut [] h = absurd (h refl)
part_entry-cut (c ∷ part) h = refl

part_ne : (s t : Text) → s ++ b'\t' ∷ t ≢ []
part_ne [] t h = cc
part_ne (c ∷ s) t h = cc

part_entry-listed :
    (l : Listed)
    → IsListed l
    → part_entry (meta_text l ++ b'\t' ∷ l.path)
      ≡ (if l.kind == codes "blob" then some (entry_of l) else none)
part_entry-listed l h =
    part_entry-cut (meta_text l ++ b'\t' ∷ l.path) (part_ne (meta_text l) l.path)
    ∙ ap cut_entry (cut-part l h)
    ∙ ap (λ ws. blob_entry ws l.path) (fields-meta l h)
    ∙ ap
        (λ s.
          if l.kind == codes "blob"
          then some (record { oid = l.oid; path = l.path; size = s })
          else none)
        (value_of-size_text l.size h.size_fits)

append_entry-blob :
    (b : Bool) (e : TreeEntry) (entries : List TreeEntry)
    → append_entry (if b then some e else none) entries ≡ (if b then e ∷ entries else entries)
append_entry-blob true e entries = refl
append_entry-blob false e entries = refl

-- From a listing in the format of `ls-tree -z --long`, `Tree` gives the blobs in order, each with
-- its id, its size and its path, blanks and tabs in a path included, and no other object: for
-- words without a NUL, paths without a NUL, and sizes below 2^63.
pub tree-listing : (ls : List Listed) → All IsListed ls → tree (listing ls) ≡ blobs ls
unfolding tree tree_entries split part_entry
tree-listing [] h = refl
tree-listing (l ∷ ls) h =
    ap tree_entries (split-part l (listing ls) h.0)
    ∙ ap (λ e. append_entry e (tree (listing ls))) (part_entry-listed l h.0)
    ∙ ap (λ rest. append_entry (if l.kind == codes "blob" then some (entry_of l) else none) rest)
        (tree-listing ls h.1)
    ∙ append_entry-blob (l.kind == codes "blob") (entry_of l) (blobs ls)
