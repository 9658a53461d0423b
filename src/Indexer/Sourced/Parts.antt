-- ===== src/Indexer/Sourced/Parts.antt =====
-- The facts that `extractLuaFacts` of internal/indexer/parse.go finds at one place of a tree.
use wowdoc.Base.{ℕ, ◌≡◌, refl, arith, false, not, ◌&&◌, ◌||◌, ◌⊎◌, inl, inr, List, [], ◌∷◌, ◌++◌}
use wowdoc.Base.{Text, codes, ◌==◌, text_eq, if_elim, All, All-append}
use wowdoc.Strings.{has_suffix}
use wowdoc.Branch.Types.{SymbolFact, EdgeFact}
use wowdoc.Base.{subst}
use wowdoc.Indexer.Sourced.Line.{IsTextOf, line_text-IsTextOf}
use wowdoc.Indexer.Syntax.{Expr, string, call, Exprs, no_exprs, expr}
use wowdoc.Indexer.Lua.{
  Found, symbol, edge, Place, expr_name, call_name, line_text, placed_at, symbol_at, local_symbol,
  call_edge, event_edge, call_edges, inherit_edges, mixin_facts,
}

-- A symbol of the file has its path, and the text of its line without spaces around.
abbrev pub IsSymbolOf : Text → List Text → SymbolFact → Type 0
IsSymbolOf path lines s = (s.path ≡ path) × IsTextOf lines s.line s.signature

-- An edge of the file has its path and a source, and a target unless it is of an event.
abbrev pub IsEdgeOf : Text → EdgeFact → Type 0
IsEdgeOf path e =
    (e.path ≡ path)
    × ((e.source == []) ≡ false)
    × ((e.kind ≡ codes "register-event") ⊎ ((e.target == []) ≡ false))

module _ (path : Text) (lines : List Text) where
  abbrev pub IsFact : Found → Type 0
  IsFact (symbol s) = IsSymbolOf path lines s
  IsFact (edge e) = IsEdgeOf path e

  unfoldable pub IsHere : Place → Type 0
  IsHere p = (p.path ≡ path) × (p.lines ≡ lines)

  unfoldable pub Facts : List Found → Type 0
  Facts = All IsFact

  pub both : (xs ys : List Found) → Facts xs → Facts ys → Facts (xs ++ ys)
  unfolding Facts
  both xs ys h k = All-append IsFact xs ys h k

  pub placed_at-IsHere :
      (label : Text) (line : ℕ) (p : Place) → IsHere p → IsHere (placed_at label line p)
  unfolding IsHere
  placed_at-IsHere label line p h = if_elim IsHere (p.current == []) (λ _. h) (λ _. h)

  pub placed_at-named :
      (label : Text) (line : ℕ) (p : Place) → ((placed_at label line p).current == []) ≡ false
  unfolding text_eq
  placed_at-named label line p =
      if_elim (λ (q : Place). (q.current == []) ≡ false) (p.current == []) (λ _. refl) (λ h. h)

  line_text-here :
      (p : Place) (line : ℕ) → p.lines ≡ lines → IsTextOf lines line (line_text p.lines line)
  line_text-here p line k =
      subst (λ l. IsTextOf l line (line_text p.lines line)) k (line_text-IsTextOf p.lines line)

  pub symbol_at-IsFact :
      (p : Place) (kind name : Text) (line last : ℕ)
      → IsHere p
      → IsFact (symbol_at p kind name line last)
  unfolding IsHere
  symbol_at-IsFact p kind name line last (h, k) = (h, line_text-here p line k)

  pub local_symbol-IsFact :
      (p : Place) (name : Text) (line last : ℕ) → IsHere p → IsFact (local_symbol p name line last)
  unfolding IsHere
  local_symbol-IsFact p name line last (h, k) = (h, line_text-here p line k)

  call_edge-IsFact :
      (p : Place) (target : Text) (line : ℕ)
      → IsHere p
      → (p.current == []) ≡ false
      → IsFact (call_edge p target line)
  unfolding IsHere text_eq
  call_edge-IsFact p target line (h, _) sourced =
      if_elim IsFact (target == []) (λ _. (h, sourced, inr refl))
        (λ some_target. (h, sourced, inr some_target))

  event_edge-facts :
      (p : Place) (args : Exprs) (line : ℕ)
      → IsHere p
      → (p.current == []) ≡ false
      → Facts (event_edge p args line)
  unfolding IsHere Facts
  event_edge-facts p (expr (string event) rest) line (h, _) sourced = ((h, sourced, inl refl), tt)
  event_edge-facts p _ line (h, _) sourced = tt

  pub call_edges-facts :
      (p : Place) (target : Text) (args : Exprs) (line : ℕ)
      → IsHere p
      → (p.current == []) ≡ false
      → Facts (call_edges p target args line)
  unfolding Facts call_edges
  call_edges-facts p target args line h sourced = (
    call_edge-IsFact p target line h sourced,
    if_elim Facts
        (has_suffix target (codes ":RegisterEvent")
          || has_suffix target (codes ":RegisterUnitEvent"))
        (λ _. event_edge-facts p args line h sourced) (λ _. tt),
  )

  inherit_edges-facts :
      (p : Place) (target : Text) (args : Exprs) (line : ℕ)
      → IsHere p
      → (target == []) ≡ false
      → Facts (inherit_edges p target args line)
  unfolding Facts inherit_edges IsHere
  inherit_edges-facts p target no_exprs line h sourced = tt
  inherit_edges-facts p target (expr e rest) line h sourced =
      if_elim Facts (expr_name e == []) (λ _. inherit_edges-facts p target rest line h sourced)
        (λ some_target.
          ((h.0, sourced, inr some_target), inherit_edges-facts p target rest line h sourced))

  pub mixin_facts-facts :
      (p : Place) (lhs : Text) (e : Expr) (line last : ℕ)
      → IsHere p
      → Facts (mixin_facts p lhs e line last)
  unfolding Facts mixin_facts
  mixin_facts-facts p lhs (call at func receiver called args) line last h =
      if_elim Facts (call_name func receiver called == codes "CreateFromMixins" && not (lhs == []))
        (λ mixin. (
          symbol_at-IsFact p (codes "mixin") lhs line last h,
          inherit_edges-facts p lhs args line h (ground (arith, mixin)),
        ))
        (λ _. tt)
  mixin_facts-facts p lhs _ line last h = tt

  pub none_facts : Facts []
  unfolding Facts
  none_facts = tt

  pub first_fact : (x : Found) (xs : List Found) → IsFact x → Facts xs → Facts (x ∷ xs)
  unfolding Facts
  first_fact x xs h k = (h, k)
