-- ===== src/Indexer/Panics.antt =====
-- Where the loop of `parseGeneratedAPI` in internal/indexer/parse.go goes out of bounds.
use wowdoc.Base.{
  ℕ, zero, suc, ◌+◌, ◌≡◌, refl, ap, subst, ◌∙◌, arith, ◌-◌, true, false, Option, none, some, List,
  [], ◌∷◌, ◌++◌,
}
use wowdoc.Base.{Text, codes, ◌==◌, text_eq, leb, length, drop, drop-append}
use wowdoc.Strings.{contains_text, to_lower, split}
use wowdoc.Indexer.Generated.{
  line_value, opens, closes, line_at, table_start, table_end, find_lua_table_end,
}
use wowdoc.Indexer.Syntax.{Stmts}
use wowdoc.Indexer.Source.{Tree, parsed, panics, clean, parse_lua}
use wowdoc.Indexer.Api.{
  Scan, event_names, documented, scan_values, scan_line, scan_lines, parse_generated_api,
}

find_lua_table_end-started :
    (lines : List Text) (name_line start : ℕ) {line : ℕ}
    → table_start lines (name_line - 1) ≡ start
    → table_end (drop start lines) start 0 0 false ≡ some line
    → find_lua_table_end lines name_line ≡ line
unfolding find_lua_table_end
find_lua_table_end-started lines name_line start started ended =
    ap (λ i. elim (table_end (drop i lines) i 0 0 false) [ none ↦ name_line | some line ↦ line ])
      started
    ∙ simp ended refl

module _ (rest : List Text) where
  line_at-first : (xs : List Text) → line_at (xs ++ rest) (length xs) ≡ line_at rest 0
  line_at-first [] = refl
  line_at-first (x ∷ xs) = line_at-first xs

  line_at-second : (xs : List Text) → line_at (xs ++ rest) (suc (length xs)) ≡ line_at rest 1
  line_at-second [] = refl
  line_at-second (x ∷ xs) = line_at-second xs

  line_at-third : (xs : List Text) → line_at (xs ++ rest) (suc (suc (length xs))) ≡ line_at rest 2
  line_at-third [] = refl
  line_at-third (x ∷ xs) = line_at-third xs

module _ (table between name_text : Text) (before after : List Text)
    (has_brace : contains_text table (codes "{") ≡ true)
    (is_closed : leb (opens table) (closes table) ≡ true)
    (no_brace : contains_text between (codes "{") ≡ false)
    (name_no_brace : contains_text name_text (codes "{") ≡ false) where
  abbrev lines : List Text
  lines = before ++ table ∷ between ∷ name_text ∷ after

  table_start_from :
      (start : ℕ)
      → contains_text (line_at lines start) (codes "{") ≡ true
      → table_start lines start ≡ start
  unfolding table_start
  table_start_from zero h = refl
  table_start_from (suc start) h = simp h refl

  table_start-lines : table_start lines (suc (suc (length before))) ≡ length before
  unfolding table_start
  table_start-lines =
      simp
        (
          line_at-third (table ∷ between ∷ name_text ∷ after) before,
          line_at-second (table ∷ between ∷ name_text ∷ after) before,
          name_no_brace,
          no_brace,
        )
        (table_start_from (length before) (
          ap (λ s. contains_text s (codes "{"))
            (line_at-first (table ∷ between ∷ name_text ∷ after) before)
          ∙ has_brace))

  one_less : suc (suc (suc (length before))) - 1 ≡ suc (suc (length before))
  one_less = omega arith

  table_end-lines :
      table_end (drop (length before) lines) (length before) 0 0 false ≡ some (length before + 1)
  unfolding table_end
  table_end-lines =
      let none_open : 0 + opens table ≡ opens table = omega arith in
      let none_closed : 0 + closes table ≡ closes table = omega arith in
      rw (drop-append before (table ∷ between ∷ name_text ∷ after))
        (simp (has_brace, none_open, none_closed, is_closed) refl)

  pub find_lua_table_end-lines :
      find_lua_table_end lines (suc (suc (suc (length before)))) ≡ length before + 1
  find_lua_table_end-lines =
      find_lua_table_end-started lines (suc (suc (suc (length before)))) (length before)
        (ap (table_start lines) one_less ∙ table_start-lines) table_end-lines

none_after :
    {A B : Type 0} (o : Option A) (next : A → Option B)
    → ((a : A) → next a ≡ none)
    → (elim o [ none ↦ none | some a ↦ next a ]) ≡ none
none_after none next h = refl
none_after (some a) next h = h a

-- The line assigns a name, and no namespace.
abbrev pub IsNameLine : Text → Text → Type 0
IsNameLine name text =
    (line_value (codes "Namespace") text ≡ none) × (line_value (codes "Name") text ≡ some name)

-- The line assigns a type, and neither a namespace nor a name.
abbrev pub IsTypeLine : Text → Text → Type 0
IsTypeLine kind text =
    (line_value (codes "Namespace") text ≡ none)
    × (line_value (codes "Name") text ≡ none)
    × (line_value (codes "Type") text ≡ some kind)

module _ (path : Text) (file : List Text) where
  scan_lines-reach :
      (xs rest : List Text) (i : ℕ) (s : Scan)
      → ((t : Scan) → scan_lines path file (length xs + i) rest t ≡ none)
      → scan_lines path file i (xs ++ rest) s ≡ none
  unfolding scan_lines
  scan_lines-reach [] rest i s h =
      subst (λ j. scan_lines path file j rest s ≡ none) (omega arith) (h s)
  scan_lines-reach (x ∷ xs) rest i s h =
      none_after (scan_line path file i x s) (λ t. scan_lines path file (suc i) (xs ++ rest) t)
        (λ t.
          scan_lines-reach xs rest (suc i) t
            (λ u. subst (λ j. scan_lines path file j rest u ≡ none) (omega arith) (h u)))

  documented-panics :
      (s : Scan) (kind : Text) {n last : ℕ}
      → s.name_line ≡ n
      → find_lua_table_end file n ≡ last
      → leb (n - 1) last ≡ false
      → kind ≡ codes "event"
      → documented path file s kind ≡ none
  unfolding documented event_names text_eq
  documented-panics s kind named ended outside event = simp (event, named, ended, outside) refl

  scan_values-name :
      (i : ℕ) (s : Scan) (namespaces names types : Option Text) (name : Text)
      → namespaces ≡ none
      → names ≡ some name
      → scan_values path file i s namespaces names types
        ≡ some (record s { name = name; name_line = suc i })
  unfolding scan_values
  scan_values-name i s namespaces names types name no_namespace named =
      simp (no_namespace, named) refl

  scan_values-type :
      (i : ℕ) (s : Scan) (namespaces names types : Option Text) (kind : Text)
      → namespaces ≡ none
      → names ≡ none
      → types ≡ some kind
      → (s.name == []) ≡ false
      → scan_values path file i s namespaces names types ≡ documented path file s (to_lower kind)
  unfolding scan_values
  scan_values-type i s namespaces names types kind no_namespace no_name typed some_name =
      simp (no_namespace, no_name, typed, some_name) refl

  -- A line with a name and a line with the type of an event, with an end before the name.
  event_lines-panic :
      (i : ℕ) (name_text type_text name kind : Text) (after : List Text) (s : Scan) {last : ℕ}
      → IsNameLine name name_text
      → IsTypeLine kind type_text
      → (name == []) ≡ false
      → to_lower kind ≡ codes "event"
      → find_lua_table_end file (suc i) ≡ last
      → leb (suc i - 1) last ≡ false
      → scan_lines path file i (name_text ∷ type_text ∷ after) s ≡ none
  unfolding scan_lines scan_line
  event_lines-panic i name_text type_text name kind after s (n1, n2) (t1, t2, t3) some_name event
        ended outside =
      let t : Scan = record s { name = name; name_line = suc i } in
      let is_named =
        scan_values-name i s (line_value (codes "Namespace") name_text)
          (line_value (codes "Name") name_text) (line_value (codes "Type") name_text) name n1 n2 in
      let is_none =
        scan_values-type (suc i) t (line_value (codes "Namespace") type_text)
          (line_value (codes "Name") type_text) (line_value (codes "Type") type_text) kind t1 t2 t3
          some_name
        ∙ documented-panics t (to_lower kind) refl ended outside event in
      ap (λ o. elim o [ none ↦ none | some u ↦ scan_lines path file (suc i) (type_text ∷ after) u ])
        is_named
      ∙ ap (λ o. elim o [ none ↦ none | some u ↦ scan_lines path file (suc (suc i)) after u ])
          is_none

module _ (path table between name_text type_text name kind : Text) (before after : List Text)
    (has_brace : contains_text table (codes "{") ≡ true)
    (is_closed : leb (opens table) (closes table) ≡ true)
    (no_brace : contains_text between (codes "{") ≡ false)
    (name_no_brace : contains_text name_text (codes "{") ≡ false)
    (named : IsNameLine name name_text) (typed : IsTypeLine kind type_text)
    (some_name : (name == []) ≡ false) (event : to_lower kind ≡ codes "event") where
  abbrev file : List Text
  file = before ++ table ∷ between ∷ name_text ∷ type_text ∷ after

  from_name :
      (i : ℕ) (s : Scan)
      → i ≡ suc (suc (length before))
      → scan_lines path file i (name_text ∷ type_text ∷ after) s ≡ none
  from_name i s at =
      event_lines-panic path file i name_text type_text name kind after s named typed some_name
        event
        (ap (λ j. find_lua_table_end file (suc j)) at
          ∙ find_lua_table_end-lines table between name_text before (type_text ∷ after) has_brace
              is_closed no_brace name_no_brace)
        (rw at (ground arith))

  scan_lines-panic : (s : Scan) → scan_lines path file 0 file s ≡ none
  scan_lines-panic s =
      scan_lines-reach path file before (table ∷ between ∷ name_text ∷ type_text ∷ after) 0 s (λ t.
        scan_lines-reach path file (table ∷ between ∷ []) (name_text ∷ type_text ∷ after)
          (length before + 0) t (λ u. from_name _ u (omega arith)))

  parse_generated_api-panics : parse_generated_api path file ≡ none
  unfolding parse_generated_api
  parse_generated_api-panics =
      ap (λ o. elim o [ none ↦ none | some s ↦ some (s.symbols, s.edges) ])
        (scan_lines-panic
          (record { name = []; namespace = []; name_line = 0; symbols = []; edges = [] }))

  -- The parsing of a Lua file that the parser accepts ends in a panic where the file has these
  -- lines one after the other, with any lines before and after: one with a brace that closes all
  -- the braces it opens, one without an opening brace, one without an opening brace that gives a
  -- name, not empty, and no namespace, and one that gives the type `Event` in any letter case and
  -- neither a name nor a namespace.
  pub parse_lua-panics :
      (parse : Text → Tree) (content : Text) (tree : Stmts)
      → parse (clean content) ≡ parsed tree
      → split b'\n' (clean content) ≡ before ++ table ∷ between ∷ name_text ∷ type_text ∷ after
      → parse_lua parse path content ≡ panics
  unfolding parse_lua
  parse_lua-panics parse content tree accepted lines_of =
      simp (accepted, lines_of, parse_generated_api-panics) refl
