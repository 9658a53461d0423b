-- ===== src/Branch/Facts/Stored.antt =====
-- What storing facts leaves alone, internal/store/branch.go.
use wowdoc.Base.{ℕ, ◌≡◌, Option, none, some, List, [], ◌∷◌, Text, text_eq, nat_eq}
use wowdoc.Base.Dict.{Dict, lookup}
use wowdoc.Branch.Types.{
  SymbolFact, EdgeFact, XmlFact, TocFact, SearchFact, AssetFact, AssetRefFact, SnapshotBatch,
  ContentKey, ContentRow,
}
use wowdoc.Branch.Content.{Tx, Mapping, string_found, string_id, accepted, store_if, store_facts}
use wowdoc.Branch.Facts.{
  store_symbol, store_edge, store_xml, store_toc, store_doc, store_asset, store_asset_ref,
  store_batch,
}

-- A property that storing one fact keeps is one that the loop keeps.
module _ {ℓ} {A : Type 0} (m : Mapping) (path_of : A → Text) (store : ℕ → A → Tx → Tx)
    (P : Tx → Type ℓ) (keep : (id : ℕ) (a : A) (tx : Tx) → P tx → P (store id a tx)) where
  store_if-keeps : (o : Option ℕ) (a : A) (tx : Tx) → P tx → P (store_if m path_of store o a tx)
  store_if-keeps none a tx h = h
  store_if-keeps (some id) a tx h = keep id a tx h

  pub store_facts-keeps :
      (facts : List A) (tx : Tx) → P tx → P (store_facts m path_of store facts tx)
  unfolding store_facts
  store_facts-keeps [] tx h = h
  store_facts-keeps (a ∷ facts) tx h =
      store_facts-keeps facts (store_if m path_of store (accepted m (path_of a)) a tx)
        (store_if-keeps (accepted m (path_of a)) a tx h)

module _ (rows : Dict ContentKey ContentRow) where
  abbrev HasContents : Tx → Type 0
  HasContents tx = tx.db.contents ≡ rows

  string_found-keeps :
      (o : Option ℕ) (value : Text) (tx : Tx)
      → HasContents tx
      → HasContents (string_found o value tx).1
  string_found-keeps (some id) value tx h = h
  string_found-keeps none value tx h = h

  string_id-keeps : (value : Text) (tx : Tx) → HasContents tx → HasContents (string_id value tx).1
  unfolding string_id
  string_id-keeps value tx h = string_found-keeps (lookup value tx.string_ids) value tx h

  store_symbol-keeps :
      (id : ℕ) (s : SymbolFact) (tx : Tx) → HasContents tx → HasContents (store_symbol id s tx)
  unfolding store_symbol
  store_symbol-keeps id s tx h =
      string_id-keeps s.signature _ (string_id-keeps s.qualified _ (string_id-keeps s.name tx h))

  store_edge-keeps :
      (id : ℕ) (e : EdgeFact) (tx : Tx) → HasContents tx → HasContents (store_edge id e tx)
  unfolding store_edge
  store_edge-keeps id e tx h = string_id-keeps e.target _ (string_id-keeps e.source tx h)

  store_xml-keeps :
      (id : ℕ) (x : XmlFact) (tx : Tx) → HasContents tx → HasContents (store_xml id x tx)
  unfolding store_xml
  store_xml-keeps id x tx h =
      string_id-keeps x.attributes _ (string_id-keeps x.kind _ (string_id-keeps x.name tx h))

  store_toc-keeps :
      (id : ℕ) (v : TocFact) (tx : Tx) → HasContents tx → HasContents (store_toc id v tx)
  unfolding store_toc
  store_toc-keeps id v tx h = h

  store_doc-keeps :
      (id : ℕ) (d : SearchFact) (tx : Tx) → HasContents tx → HasContents (store_doc id d tx)
  unfolding store_doc
  store_doc-keeps id d tx h = string_id-keeps d.name tx h

  store_asset-keeps :
      (id : ℕ) (a : AssetFact) (tx : Tx) → HasContents tx → HasContents (store_asset id a tx)
  unfolding store_asset
  store_asset-keeps id a tx h = h

  store_asset_ref-keeps :
      (id : ℕ) (a : AssetRefFact) (tx : Tx) → HasContents tx → HasContents (store_asset_ref id a tx)
  unfolding store_asset_ref
  store_asset_ref-keeps id a tx h = h

  -- The facts of a batch change no row of the contents.
  pub store_batch-keeps :
      (m : Mapping) (batch : SnapshotBatch) (tx : Tx)
      → HasContents tx
      → HasContents (store_batch m batch tx)
  unfolding store_batch
  store_batch-keeps m batch tx h =
      store_facts-keeps m (λ a. a.source_path) store_asset_ref HasContents store_asset_ref-keeps
        batch.asset_refs _
        (store_facts-keeps m (λ a. a.path) store_asset HasContents store_asset-keeps batch.assets _
          (store_facts-keeps m (λ d. d.path) store_doc HasContents store_doc-keeps batch.search _
            (store_facts-keeps m (λ v. v.path) store_toc HasContents store_toc-keeps batch.toc _
              (store_facts-keeps m (λ x. x.path) store_xml HasContents store_xml-keeps batch.xml _
                (store_facts-keeps m (λ e. e.path) store_edge HasContents store_edge-keeps
                  batch.edges _
                  (store_facts-keeps m (λ s. s.path) store_symbol HasContents store_symbol-keeps
                    batch.symbols tx h))))))
