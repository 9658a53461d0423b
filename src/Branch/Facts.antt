-- ===== src/Branch/Facts.antt =====
-- The rows that `publishContent` of internal/store/branch.go makes of the facts.
pub mod Stored
use wowdoc.Base.{
  ℕ, ◌+◌, Option, none, some, List, [], ◌∷◌, ◌++◌, Text, codes, ◌==◌, text_eq, nat_eq,
}
use wowdoc.Base.{leb, if◌then◌else◌}
use wowdoc.Base.Dict.{Dict, lookup, insert}
use wowdoc.Strings.{trim_space}
use wowdoc.Branch.Types.{
  SymbolFact, EdgeFact, XmlFact, TocFact, SearchFact, AssetFact, AssetRefFact, SnapshotBatch,
  SymbolRow, EdgeRow, XmlRow, TocRow, DocRow, AssetRow, AssetRefRow, ContentDb,
}
use wowdoc.Branch.Content.{Tx, Mapping, max, string_id, map_files, store_facts}

-- INSERT INTO symbols
unfoldable pub store_symbol : ℕ → SymbolFact → Tx → Tx
store_symbol id s tx =
    let (name, tx1) = string_id s.name tx in
    let (qualified, tx2) = string_id s.qualified tx1 in
    let (signature, tx3) = string_id s.signature tx2 in
    let row : SymbolRow = record {
      content = id;
      name = name;
      qualified = qualified;
      kind = s.kind;
      line = s.line;
      end_line = s.end_line;
      signature = signature;
      required_role = s.required_role;
    } in
    record tx3 { db = record tx3.db { symbols = tx3.db.symbols ++ row ∷ [] } }

-- INSERT INTO edges
unfoldable pub store_edge : ℕ → EdgeFact → Tx → Tx
store_edge id e tx =
    let (source, tx1) = string_id e.source tx in
    let (target, tx2) = string_id e.target tx1 in
    let row : EdgeRow = record {
      content = id;
      source = source;
      target = target;
      kind = e.kind;
      confidence = e.confidence;
      line = e.line;
      required_role = e.required_role;
    } in
    record tx2 { db = record tx2.db { edges = tx2.db.edges ++ row ∷ [] } }

-- INSERT INTO xml_nodes
unfoldable pub store_xml : ℕ → XmlFact → Tx → Tx
store_xml id x tx =
    let (name, tx1) = string_id x.name tx in
    let (kind, tx2) = string_id x.kind tx1 in
    let (attributes, tx3) = string_id x.attributes tx2 in
    let row : XmlRow = record {
      content = id;
      name = name;
      kind = kind;
      line = x.line;
      attributes = attributes;
      required_role = x.required_role;
    } in
    record tx3 { db = record tx3.db { xml_nodes = tx3.db.xml_nodes ++ row ∷ [] } }

-- INSERT INTO toc_entries
unfoldable pub store_toc : ℕ → TocFact → Tx → Tx
store_toc id v tx =
    let row : TocRow = record {
      content = id;
      line = v.line;
      key = v.key;
      value = v.value;
      required_role = v.required_role;
    } in
    record tx { db = record tx.db { toc_entries = tx.db.toc_entries ++ row ∷ [] } }

abbrev pub last_doc : List DocRow → ℕ
last_doc [] = 0
last_doc (d ∷ docs) = max d.id (last_doc docs)

-- The text of a document; the text of a source is read when it is indexed.
abbrev pub doc_text : SearchFact → Text
doc_text d = if d.kind == codes "source" then [] else trim_space (d.name ++ (codes " " ++ d.text))

-- INSERT INTO search_docs
unfoldable pub store_doc : ℕ → SearchFact → Tx → Tx
store_doc id d tx =
    let (name, tx1) = string_id d.name tx in
    let row : DocRow = record {
      id = last_doc tx1.db.search_docs + 1;
      content = id;
      line = d.line;
      kind = d.kind;
      name = name;
      text = doc_text d;
      required_role = d.required_role;
    } in
    record tx1 { db = record tx1.db { search_docs = tx1.db.search_docs ++ row ∷ [] } }

abbrev pub insert_asset : ℕ → AssetRow → Dict ℕ AssetRow → Dict ℕ AssetRow
insert_asset id row assets = elim (lookup id assets) [
  | some other ↦ assets
  | none ↦ insert id row assets
]

-- INSERT OR IGNORE INTO assets
unfoldable pub store_asset : ℕ → AssetFact → Tx → Tx
store_asset id a tx =
    let row : AssetRow = record {
      extension = a.extension;
      mime = a.mime;
      bytes = a.size;
      width = a.width;
      height = a.height;
      format = a.format;
    } in
    record tx { db = record tx.db { assets = insert_asset id row tx.db.assets } }

-- INSERT INTO asset_refs
unfoldable pub store_asset_ref : ℕ → AssetRefFact → Tx → Tx
store_asset_ref id a tx =
    let row : AssetRefRow = record {
      content = id;
      line = a.line;
      kind = a.kind;
      value = a.value;
      normalized_value = a.normalized_value;
      required_role = a.required_role;
    } in
    record tx { db = record tx.db { asset_refs = tx.db.asset_refs ++ row ∷ [] } }

-- The loops over the facts, one kind after the other.
unfoldable pub store_batch : Mapping → SnapshotBatch → Tx → Tx
store_batch m batch tx =
    let tx1 = store_facts m (λ s. s.path) store_symbol batch.symbols tx in
    let tx2 = store_facts m (λ e. e.path) store_edge batch.edges tx1 in
    let tx3 = store_facts m (λ x. x.path) store_xml batch.xml tx2 in
    let tx4 = store_facts m (λ v. v.path) store_toc batch.toc tx3 in
    let tx5 = store_facts m (λ d. d.path) store_doc batch.search tx4 in
    let tx6 = store_facts m (λ a. a.path) store_asset batch.assets tx5 in
    store_facts m (λ a. a.source_path) store_asset_ref batch.asset_refs tx6

-- `publishContent`, up to its commit: the tables, and the content of every path.
unfoldable pub publish_content : Text → Text → SnapshotBatch → ContentDb → ContentDb × Dict Text ℕ
publish_content parser index batch db =
    let (db1, m) =
      map_files parser index batch.files
        (db, record { path_content = []; new_content = []; fact_path = [] }) in
    let tx = store_batch m batch (record { db = db1; string_ids = db.strings }) in
    (tx.db, m.path_content)
