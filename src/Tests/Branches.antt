-- ===== src/Tests/Branches.antt =====
-- Concrete inputs for the theorem on the publication of a snapshot.
use wowdoc.Base.{refl, none, [], ◌∷◌, Text, codes, ok, text_eq, nat_eq}
use wowdoc.Branch.Types.{
  FileFact, SymbolFact, SearchFact, SnapshotBatch, content_key_eq, alias_key_eq, path_key_eq,
}
use wowdoc.Branch.Snapshot.{Publication}
use wowdoc.Branch.Publish.{State, Outside, publish}
use wowdoc.Branch.Publish.Published.{IsPublished, publish-IsPublished}
use wowdoc.Base.Dict.{lookup, insert}
use wowdoc.Strings.{trim_space, trim_left, trim_right, is_space}
use wowdoc.Branch.Content.{map_files, map_file, accepted, store_facts, string_id}
use wowdoc.Branch.Facts.{
  publish_content, store_batch, store_symbol, store_edge, store_xml, store_toc, store_doc,
  store_asset, store_asset_ref,
}
use wowdoc.Branch.Snapshot.{
  publish_branch, begin_snapshot, insert_files, insert_assets, without_snapshot, ensure_branch_fts,
  unique_content_ids, index_docs, indexed_text,
}

abbrev file : Text → FileFact
file path = record {
  path = path;
  content_hash = codes "h";
  ast_hash = [];
  language = codes "lua";
  role = codes "project";
  git_oid = codes "oid";
  size = 3;
}

abbrev symbol : Text → SymbolFact
symbol path = record {
  name = codes "f";
  qualified = codes "A.f";
  kind = codes "function";
  path = path;
  signature = codes "f()";
  required_role = [];
  line = 1;
  end_line = 2;
}

abbrev doc : SearchFact
doc = record {
  path = codes "a.lua";
  kind = codes "source";
  name = codes "a.lua";
  text = codes "text";
  required_role = [];
  line = 0;
}

-- Two files with one content, whose facts come once for each path.
abbrev batch : SnapshotBatch
batch = record {
  files = file (codes "a.lua") ∷ file (codes "b.lua") ∷ [];
  symbols = symbol (codes "a.lua") ∷ symbol (codes "b.lua") ∷ [];
  edges = [];
  xml = [];
  toc = [];
  search = doc ∷ [];
  assets = [];
  asset_refs = [];
}

abbrev empty : State
empty = record {
  content = record {
    contents = [];
    blob_aliases = [];
    strings = [];
    symbols = [];
    edges = [];
    xml_nodes = [];
    toc_entries = [];
    search_docs = [];
    assets = [];
    asset_refs = [];
  };
  branch = record {
    state = [];
    snapshots = [];
    branch_contents = [];
    snapshot_files = [];
    snapshot_assets = [];
    search_fts = [];
  };
}

abbrev outside : Outside
outside = record {
  lock_error = none;
  content_error = none;
  branch_error = none;
  source = λ hash. ok (codes " local x ");
}

abbrev publication : Publication
publication = record {
  snapshot = codes "s";
  commit = codes "c";
  requested_ref = codes "latest";
  tag = [];
  build_interface = codes "110000";
  parser_schema = codes "p";
  index_schema = codes "i";
}

abbrev after : State
after = (publish outside publication batch empty).1

publish-IsPublished_example : IsPublished publication batch empty after
unfolding publish text_eq nat_eq content_key_eq alias_key_eq path_key_eq publish_branch
    begin_snapshot lookup insert_files publish_content map_files map_file insert without_snapshot
    ensure_branch_fts unique_content_ids index_docs store_batch store_facts accepted store_doc
    string_id store_symbol store_edge store_xml store_toc store_asset store_asset_ref indexed_text
    insert_assets trim_space trim_left trim_right is_space
publish-IsPublished_example = publish-IsPublished outside publication batch empty after refl
