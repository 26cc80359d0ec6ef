-- ===== src/Plugins/Store.antt =====
-- src/plugins.rs: the scan of the manifest folder, and the tools that it exposes. Reading the folder
-- and the files is the standard library's; parsing the JSON document is serde's.
use ultranix_mcp.Prelude.{
  leb, if◌then◌else◌, ◌==◌, nat_eq, string_eq, take, find, contains, Result, ok, err, ◌>>=◌, ◌>>◌,
  ensure, ℕ, String, Bool, false, Option, none, some, List, [], ◌∷◌,
}
use ultranix_mcp.Prelude.Dict.{Dict, insert}
use ultranix_mcp.Prelude.Sorting.{sort, text_le}
use ultranix_mcp.Json.{Value, string, boolean, array, object, Items, no_items, item, members}
use ultranix_mcp.Security.Sanitize.{byte_len}
use ultranix_mcp.Plugins.Manifest.{
  ParamSpec, type_name, ToolSpec, PluginManifest, RawManifest, ManifestError, io, json, validate,
}

abbrev pub max_manifest_bytes : ℕ
max_manifest_bytes = 262144

abbrev pub max_manifest_files : ℕ
max_manifest_files = 256

pub record Plugin : Type 0 where
  pub manifest : PluginManifest
  pub source : String

pub data SkipReason : Type 0 where
  duplicate_name : String → SkipReason
  duplicate_tool : String → SkipReason
  invalid : ManifestError → SkipReason

pub record Skipped : Type 0 where
  pub file : String
  pub error : SkipReason

pub record Scan : Type 0 where
  pub plugins : List Plugin
  pub skipped : List Skipped

-- What the outside answers: the `*.json` files of the folder in any order, or nothing when it cannot
-- be read; at most `max_manifest_bytes + 1` bytes of a file; and the document in them.
pub record Folder : Type 0 where
  pub listing : Option (List String)
  pub read : String → Result String String
  pub from_slice : String → Result String RawManifest

abbrev pub or_io : Result String String → Result ManifestError String
or_io (ok bytes) = ok bytes
or_io (err e) = err (io e)

abbrev pub or_json : Result String RawManifest → Result ManifestError RawManifest
or_json (ok raw) = ok raw
or_json (err e) = err (json e)

unfoldable pub parse_manifest : Folder → String → Result ManifestError PluginManifest
parse_manifest f bytes = do raw ← or_json (f.from_slice bytes); validate raw

unfoldable pub load_one : Folder → String → Result ManifestError PluginManifest
unfolding parse_manifest
load_one f path = do
  bytes ← or_io (f.read path)
  ensure (leb (byte_len bytes) max_manifest_bytes) (io "manifest too large: > 262144 bytes")
  parse_manifest f bytes

abbrev pub keep : Plugin → Scan → Scan
keep p s = record s { plugins = p ∷ s.plugins }

abbrev pub skip : String → SkipReason → Scan → Scan
skip file error s = record s { skipped = record { file = file; error = error } ∷ s.skipped }

-- A manifest whose own name is new. `rest` scans the files after it, from the tools seen.
abbrev pub with_tool :
    List String → String → PluginManifest → (List String → Scan) → Option ToolSpec → Scan
with_tool tools path m rest none = keep (record { manifest = m; source = path }) (rest tools)
with_tool tools path m rest (some t) =
    if contains tools t.name
    then skip path (duplicate_tool t.name) (rest tools)
    else keep (record { manifest = m; source = path }) (rest (t.name ∷ tools))

abbrev pub with_loaded :
    List String
    → List String
    → String
    → (List String → List String → Scan)
    → Result ManifestError PluginManifest
    → Scan
with_loaded seen tools path rest (err e) = skip path (invalid e) (rest seen tools)
with_loaded seen tools path rest (ok m) =
    if contains seen m.name
    then skip path (duplicate_name m.name) (rest seen tools)
    else with_tool tools path m (rest (m.name ∷ seen)) m.tool

module _ (load : String → Result ManifestError PluginManifest) where
  -- The loop over the files, with the names and the tools seen so far.
  unfoldable pub scan_files : List String → List String → List String → Scan
  scan_files [] seen tools = record { plugins = []; skipped = [] }
  scan_files (path ∷ paths) seen tools =
      with_loaded seen tools path (λ ns ts. scan_files paths ns ts) (load path)

abbrev pub by_name : Plugin → Plugin → Bool
by_name p q = text_le p.manifest.name q.manifest.name

abbrev pub listed : Option (List String) → List String
listed none = []
listed (some paths) = take max_manifest_files (sort text_le paths)

unfoldable pub scan : Folder → Scan
unfolding scan_files load_one
scan f =
    let found = scan_files (load_one f) (listed f.listing) [] [] in
    record found { plugins = sort by_name found.plugins }

unfoldable pub get : Folder → String → Option Plugin
unfolding scan
get f name = find (λ p. p.manifest.name == name) (scan f).plugins

abbrev pub exposes : String → Option ToolSpec → Bool
exposes name none = false
exposes name (some t) = t.name == name

unfoldable pub by_tool_name : Folder → String → Option Plugin
unfolding scan
by_tool_name f name = find (λ p. exposes name p.manifest.tool) (scan f).plugins

-- An entry of `tools/list`
pub record Tool : Type 0 where
  pub name : String
  pub description : String
  pub schema : Value

abbrev described : Option String → Dict Value → Dict Value
described none prop = prop
described (some d) prop = insert "description" (string d) prop

unfoldable pub add_properties : Dict Value → Dict ParamSpec → Dict Value
add_properties props [] = props
add_properties props ((name, spec) ∷ params) =
    let prop = described spec.description (("type", string (type_name spec.ty)) ∷ []) in
    add_properties (insert name (object (members prop)) props) params

unfoldable pub required_items : Dict ParamSpec → Items
required_items [] = no_items
required_items ((name, spec) ∷ params) =
    let rest = required_items params in if spec.required then item (string name) rest else rest

abbrev with_required : Items → Dict Value → Dict Value
with_required no_items schema = schema
with_required (item v vs) schema = insert "required" (array (item v vs)) schema

unfoldable pub exposed_tool : PluginManifest → Option Tool
unfolding add_properties required_items
exposed_tool m = elim m.tool [
  | none ↦ none
  | some t ↦ some (record {
    name = t.name;
    description = t.description;
    schema = object (
        members (
          with_required (required_items m.params) (
            ("type", string "object")
            ∷ ("properties", object (members (add_properties [] m.params)))
            ∷ ("additionalProperties", boolean false)
            ∷ [])));
  })
]
