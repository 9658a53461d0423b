-- ===== src/Catalog/Table.antt =====
-- The table `Sources` of internal/catalog/catalog.go, with its types.
use wowdoc.Base.{Bool, true, false, List, [], ◌∷◌, Text, codes, String}

pub record Product : Type 0 where
  pub id : Text
  pub branch : Text
  pub clients : List Text
  pub tag_rules : List Text

pub record Source : Type 0 where
  pub id : Text
  pub name : Text
  pub repository : Text
  pub official : Bool
  pub version_prefixes : List Text
  pub products : List Product

abbrev texts : List String → List Text
texts [] = []
texts (s ∷ rest) = codes s ∷ texts rest

abbrev pub product : String → String → List String → List String → Product
product id branch clients rules = record {
  id = codes id;
  branch = codes branch;
  clients = texts clients;
  tag_rules = texts rules;
}

abbrev pub modern : List String
modern = "^(?:[6-9]|1[0-9])\\." ∷ []

abbrev classic : List String
classic = "^(?:2\\.5|3\\.4|4\\.4|5\\.5)\\." ∷ []

abbrev pub wow_ui_source : Source
wow_ui_source = record {
  id = codes "wow-ui-source";
  name = codes "World of Warcraft UI Source";
  repository = codes "https://github.com/Gethe/wow-ui-source.git";
  official = true;
  version_prefixes = [];
  products =
      product "retail" "live" ("retail" ∷ []) modern
      ∷ product "ptr" "ptr" ("ptr" ∷ []) modern
      ∷ product "ptr2" "ptr2" ("ptr2" ∷ []) modern
      ∷ product "beta" "beta" ("beta" ∷ []) modern
      ∷ product "classic" "classic" ("classic" ∷ []) classic
      ∷ product "classic-ptr" "classic_ptr" ("classic-ptr" ∷ []) classic
      ∷ product "classic-beta" "classic_beta" ("classic-beta" ∷ []) classic
      ∷ product "classic-era" "classic_era" ("classic-era" ∷ "era" ∷ []) ("^1\\.1[3-9]\\." ∷ [])
      ∷ product "classic-era-ptr" "classic_era_ptr" ("classic-era-ptr" ∷ [])
          ("^(?:1\\.1[3-9]|2\\.5)\\." ∷ [])
      ∷ product "anniversary" "classic_anniversary" ("anniversary" ∷ []) ("^2\\.5\\." ∷ [])
      ∷ product "titan" "classic_titan" ("titan" ∷ []) ("^3\\.80\\." ∷ [])
      ∷ product "forever" "forever" ("forever" ∷ []) ("^1\\.60\\." ∷ [])
      ∷ [];
}

abbrev elvui : Source
elvui = record {
  id = codes "elvui";
  name = codes "ElvUI";
  repository = codes "https://github.com/tukui-org/ElvUI.git";
  official = false;
  version_prefixes = texts ("v" ∷ []);
  products = product "main" "main" [] [] ∷ product "ptr" "ptr" [] [] ∷ [];
}

abbrev weakauras : Source
weakauras = record {
  id = codes "weakauras";
  name = codes "WeakAuras2";
  repository = codes "https://github.com/WeakAuras/WeakAuras2.git";
  official = false;
  version_prefixes = [];
  products = product "main" "main" [] [] ∷ [];
}

abbrev ndui : Source
ndui = record {
  id = codes "ndui";
  name = codes "NDui";
  repository = codes "https://github.com/siweia/NDui.git";
  official = false;
  version_prefixes = [];
  products =
      product "main" "master" [] ("^[0-9]" ∷ [])
      ∷ product "classic" "Classic" [] ("^Classic-5" ∷ [])
      ∷ product "era" "Era" [] ("^[0-9]" ∷ [])
      ∷ product "anniversary" "Anniversary" [] ("^Classic-2" ∷ [])
      ∷ product "titan" "Titan" [] ("^Classic-3" ∷ [])
      ∷ [];
}

abbrev ellesmereui : Source
ellesmereui = record {
  id = codes "ellesmereui";
  name = codes "EllesmereUI";
  repository = codes "https://github.com/EllesmereGaming/EllesmereUI.git";
  official = false;
  version_prefixes = texts ("v" ∷ []);
  products = product "main" "main" [] [] ∷ [];
}

-- `Sources`
unfoldable pub sources : List Source
sources = wow_ui_source ∷ elvui ∷ weakauras ∷ ndui ∷ ellesmereui ∷ []
