-- ===== src/Plugins/Manifest.antt =====
-- src/plugins.rs: the manifest and its validation. Parsing the JSON document and refusing unknown
-- fields is serde's. A `BTreeMap` is its entries in the order of the keys.
use ultranix_mcp.Prelude.{
  leb, nat_beq, ◌==◌, nat_eq, string_eq, length, is_empty, Result, ok, err, ◌>>=◌, ◌>>◌, ensure, ℕ,
  suc, String, Bool, not, Option, none, some, List, [], ◌∷◌,
}
use ultranix_mcp.Prelude.Texts.{starts_with}
use ultranix_mcp.Prelude.Dict.{Dict, lookup, is_some, insert_ordered}
use ultranix_mcp.Json.{Value, is_string, is_number, is_boolean, Members}
use ultranix_mcp.Prelude.Texts.{char_count}
use ultranix_mcp.Tools.Catalog.{category_of}
use ultranix_mcp.Plugins.Grammar.{valid_plugin_name, valid_param_name, valid_version}
use ultranix_mcp.Plugins.Template.{TemplateError, collect_members}

abbrev pub max_steps : ℕ
max_steps = 32

abbrev pub max_params : ℕ
max_params = 64

abbrev pub max_tool_description : ℕ
max_tool_description = 256

pub data ParamType : Type 0 where
  string_type : ParamType
  number_type : ParamType
  boolean_type : ParamType

-- `ParamType::as_str`
abbrev pub type_name : ParamType → String
type_name string_type = "string"
type_name number_type = "number"
type_name boolean_type = "boolean"

abbrev pub accepts : ParamType → Value → Bool
accepts string_type v = is_string v
accepts number_type v = is_number v
accepts boolean_type v = is_boolean v

pub record ParamSpec : Type 0 where
  pub ty : ParamType
  pub required : Bool
  pub description : Option String

pub record Step : Type 0 where
  pub tool : String
  pub args : Members

pub record ToolSpec : Type 0 where
  pub name : String
  pub description : String

pub record RawToolSpec : Type 0 where
  pub name : String
  pub description : String
  pub params : Dict ParamSpec

pub record PluginManifest : Type 0 where
  pub name : String
  pub version : String
  pub description : String
  pub params : Dict ParamSpec
  pub steps : List Step
  pub tool : Option ToolSpec

pub record RawManifest : Type 0 where
  pub manifest_version : Option ℕ
  pub name : String
  pub version : String
  pub description : String
  pub params : Dict ParamSpec
  pub tool : Option RawToolSpec
  pub steps : List Step

pub data ManifestError : Type 0 where
  io : String → ManifestError
  json : String → ManifestError
  unsupported_version : ℕ → ManifestError
  bad_plugin_name : String → ManifestError
  name_collides_with_tool : String → ManifestError
  bad_version : String → ManifestError
  bad_param_name : String → ManifestError
  too_many_params : ℕ → ManifestError
  empty_steps : ManifestError
  too_many_steps : ℕ → ManifestError
  bad_tool_name : String → ManifestError
  tool_name_collides_with_tool : String → ManifestError
  long_tool_description : ℕ → ManifestError
  tool_param_duplicate : String → ManifestError
  unknown_tool : ℕ → String → ManifestError
  self_reference : ℕ → String → ManifestError
  dispatch_reentry : ℕ → String → ManifestError
  bad_template : ℕ → TemplateError → ManifestError
  undeclared_param : ℕ → String → ManifestError

abbrev pub supported_version : Option ℕ → Result ManifestError (Unit {0})
supported_version none = ok tt
supported_version (some v) = ensure (nat_beq v 1) (unsupported_version v)

unfoldable pub check_param_names : Dict ParamSpec → Result ManifestError (Unit {0})
check_param_names [] = ok tt
check_param_names ((name, spec) ∷ params) =
    ensure (valid_param_name name) (bad_param_name name) >> check_param_names params

-- The parameters of the `tool` section extend the manifest's.
unfoldable pub add_params : Dict ParamSpec → Dict ParamSpec → Result ManifestError (Dict ParamSpec)
add_params params [] = ok params
add_params params ((name, spec) ∷ rest) =
    ensure (valid_param_name name) (bad_param_name name)
    >> (ensure (not (is_some (lookup name params))) (tool_param_duplicate name)
        >> add_params (insert_ordered name spec params) rest)

unfoldable pub validate_tool :
    RawToolSpec → Dict ParamSpec → Result ManifestError (Option ToolSpec × Dict ParamSpec)
unfolding add_params
validate_tool raw params = do
  ensure (valid_param_name raw.name) (bad_tool_name raw.name)
  ensure (not (is_some (category_of raw.name))) (tool_name_collides_with_tool raw.name)
  ensure (leb (char_count raw.description) max_tool_description)
      (long_tool_description (char_count raw.description))
  ensure (leb (length raw.params) max_params) (too_many_params (length raw.params))
  merged ← add_params params raw.params
  ok (some (record { name = raw.name; description = raw.description }), merged)

abbrev pub tool_section :
    Option RawToolSpec → Dict ParamSpec → Result ManifestError (Option ToolSpec × Dict ParamSpec)
tool_section none params = ok (none, params)
tool_section (some raw) params = validate_tool raw params

abbrev pub refs_at : ℕ → Result TemplateError (List String) → Result ManifestError (List String)
refs_at index (ok refs) = ok refs
refs_at index (err e) = err (bad_template index e)

unfoldable pub check_refs : Dict ParamSpec → ℕ → List String → Result ManifestError (Unit {0})
check_refs params index [] = ok tt
check_refs params index (name ∷ names) =
    ensure (is_some (lookup name params)) (undeclared_param index name)
    >> check_refs params index names

unfoldable pub check_step : Dict ParamSpec → ℕ → Step → Result ManifestError (Unit {0})
unfolding check_refs
check_step params index step = do
  ensure (not (starts_with "plugin_" step.tool)) (self_reference index step.tool)
  ensure (not (step.tool == "replay_action")) (dispatch_reentry index step.tool)
  ensure (is_some (category_of step.tool)) (unknown_tool index step.tool)
  refs ← refs_at index (collect_members step.args)
  check_refs params index refs

unfoldable pub check_steps : Dict ParamSpec → ℕ → List Step → Result ManifestError (Unit {0})
check_steps params index [] = ok tt
check_steps params index (step ∷ steps) =
    check_step params index step >> check_steps params (suc index) steps

unfoldable pub validate : RawManifest → Result ManifestError PluginManifest
validate raw = do
  supported_version raw.manifest_version
  ensure (valid_plugin_name raw.name) (bad_plugin_name raw.name)
  ensure (not (is_some (category_of raw.name))) (name_collides_with_tool raw.name)
  ensure (valid_version raw.version) (bad_version raw.version)
  ensure (leb (length raw.params) max_params) (too_many_params (length raw.params))
  check_param_names raw.params
  (tool, params) ← tool_section raw.tool raw.params
  ensure (leb (length params) max_params) (too_many_params (length params))
  ensure (not (is_empty raw.steps)) empty_steps
  ensure (leb (length raw.steps) max_steps) (too_many_steps (length raw.steps))
  check_steps params 0 raw.steps
  ok (record {
    name = raw.name;
    version = raw.version;
    description = raw.description;
    params = params;
    steps = raw.steps;
    tool = tool;
  })
