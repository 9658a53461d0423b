-- ===== src/Indexer/Toc.antt =====
-- The facts of a TOC file, `parseTOC` of internal/indexer/parse.go.
use wowdoc.Base.{ℕ, ◌+◌, Option, none, some, List, [], ◌∷◌, ◌++◌, Text, codes, ◌==◌, text_eq}
use wowdoc.Base.{if◌then◌else◌}
use wowdoc.Strings.{trim_space, trim_prefix, has_prefix, split, cut}
use wowdoc.Branch.Types.{TocFact}

abbrev pub toc_fact : Text → ℕ → Text → Text → TocFact
toc_fact path line key value = record {
  path = path;
  key = key;
  value = value;
  required_role = [];
  line = line;
}

abbrev pub metadata_facts : Text → ℕ → Option (Text × Text) → List TocFact
metadata_facts path line none = []
metadata_facts path line (some (key, value)) =
    toc_fact path line (trim_space key) (trim_space value) ∷ []

-- The facts of one line, without the spaces around it.
unfoldable pub line_facts : Text → ℕ → Text → List TocFact
line_facts path line value =
    if value == []
    then []
    else if has_prefix value (codes "##")
    then metadata_facts path line (cut b':' (trim_space (trim_prefix value (codes "##"))))
    else if has_prefix value (codes "#")
    then []
    else toc_fact path line (codes "File") value ∷ []

unfoldable pub lines_facts : Text → ℕ → List Text → List TocFact
lines_facts path line [] = []
lines_facts path line (text ∷ texts) =
    line_facts path line (trim_space text) ++ lines_facts path (line + 1) texts

-- `parseTOC`, less the tree, which holds the facts again.
unfoldable pub parse_toc : Text → Text → List TocFact
parse_toc path content = lines_facts path 1 (split b'\n' (trim_prefix content (0xfeff ∷ [])))
