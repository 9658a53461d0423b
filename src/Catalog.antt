-- ===== src/Catalog.antt =====
-- The catalog of sources and products, internal/catalog/catalog.go.
pub mod Lookup
pub mod Table
use Table.{sources, Source, Product}
use wowdoc.Base.{
  Bool, true, false, ◌||◌, Option, none, some, List, [], ◌∷◌, Text, codes, ◌==◌, text_eq,
}
use wowdoc.Base.{if◌then◌else◌}
use wowdoc.Strings.{trim_space, equal_fold}

-- `GameSourceID`
abbrev pub game_source_id : Text
game_source_id = codes "wow-ui-source"

-- `IsGameSource`
unfoldable pub is_game_source : Text → Bool
is_game_source id = equal_fold (trim_space id) game_source_id

-- The loop of `FindSource` over the catalog.
unfoldable pub find_source_in : List Source → Text → Option Source
find_source_in [] id = none
find_source_in (s ∷ rest) id =
    if equal_fold s.id id || equal_fold s.name id then some s else find_source_in rest id

-- `FindSource`
unfoldable pub find_source : Text → Option Source
find_source id = find_source_in sources id

-- The loop over the client aliases in `Matches`.
unfoldable pub matches_client : List Text → Text → Bool
matches_client [] id = false
matches_client (client ∷ rest) id = equal_fold (trim_space client) id || matches_client rest id

-- `Matches`, for an id with no spaces around it.
abbrev pub matches_trimmed : Product → Text → Bool
matches_trimmed p id =
    if id == []
    then true
    else if equal_fold p.id id || equal_fold p.branch id
    then true
    else matches_client p.clients id

-- `Product.Matches`
unfoldable pub matches : Product → Text → Bool
matches p id = matches_trimmed p (trim_space id)

unfoldable pub find_product_in : List Product → Text → Option Product
find_product_in [] id = none
find_product_in (p ∷ rest) id = if matches p id then some p else find_product_in rest id

abbrev only : List Product → Option Product
only (p ∷ []) = some p
only _ = none

-- `FindProduct`
unfoldable pub find_product : Source → Text → Option Product
find_product source id =
    if trim_space id == [] then only source.products else find_product_in source.products id
