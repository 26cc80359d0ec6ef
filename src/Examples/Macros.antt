-- ===== src/Examples/Macros.antt =====
-- Plugins at a concrete manifest.
use ultranix_mcp.Prelude.{
  nat_eq, string_eq, All, ok, ℕ, suc, String, ◌≡◌, refl, true, false, none, some, List, [], ◌∷◌,
}
use ultranix_mcp.Prelude.Dict.{Dict, lookup, insert_ordered}
use ultranix_mcp.Prelude.Texts.{split, split_once, strip_prefix}
use ultranix_mcp.Prelude.Sorting.{Pairwise}
use ultranix_mcp.Json.{Value, string, Members, no_members, member}
use ultranix_mcp.Security.Sanitize.{byte_len}
use ultranix_mcp.Tools.Catalog.{catalog, category_of, category_in}
use ultranix_mcp.Tools.Replies.{Reply, success}
use ultranix_mcp.Plugins.Grammar.{
  valid_name, valid_plugin_name, valid_param_name, valid_version, is_labels,
}
use ultranix_mcp.Plugins.Template.{
  Segment, lit, ref, parse_from, parse_template, collect_refs, substitute_args,
}
use ultranix_mcp.Plugins.Escapes.{print, joined, parse_template-print}
use ultranix_mcp.Plugins.Manifest.{
  ParamSpec, string_type, Step, PluginManifest, RawManifest, validate, check_param_names,
  check_steps, check_step, check_refs,
}
use ultranix_mcp.Plugins.Accepted.{IsValid, validate-IsValid}
use ultranix_mcp.Plugins.Substitution.{Settles, validate-substitute_args}
use ultranix_mcp.Plugins.Binding.{
  bind_params, bind_supplied, check_required, IsTyped, IsSupplied, bind_params_sound,
}
use ultranix_mcp.Plugins.Running.{run_manifest}
use ultranix_mcp.Plugins.Runs.{Ends, run_manifest_refines}
use ultranix_mcp.Plugins.Store.{Folder, scan}
use ultranix_mcp.Plugins.Unique.{IsOther, scan_unique}

abbrev specs : Dict ParamSpec
specs = ("who", record { ty = string_type; required = true; description = none }) ∷ []

abbrev steps : List Step
steps = record { tool = "type_text"; args = member "text" (string "hi ${who}") no_members } ∷ []

abbrev raw : RawManifest
raw = record {
  manifest_version = some 1;
  name = "greet";
  version = "1.0.0";
  description = "";
  params = specs;
  tool = none;
  steps = steps;
}

abbrev greet : PluginManifest
greet = record {
  name = "greet";
  version = "1.0.0";
  description = "";
  params = specs;
  steps = steps;
  tool = none;
}

raw_accepted : validate raw ≡ ok greet
unfolding validate valid_name valid_plugin_name valid_param_name valid_version is_labels split
    split_once strip_prefix byte_len catalog category_of category_in parse_from parse_template
    collect_refs check_param_names check_steps check_step check_refs lookup
raw_accepted = refl

validate-IsValid_example : IsValid greet
validate-IsValid_example = validate-IsValid raw greet raw_accepted

abbrev shown : Value → String
shown v = "?"

abbrev supplied : Dict Value
supplied = ("who", string "Bo") ∷ []

validate-substitute_args_example :
    All (λ step. Settles specs supplied (substitute_args shown supplied step.args)) steps
validate-substitute_args_example = validate-substitute_args shown raw greet supplied raw_accepted

supplied_bound : bind_params specs supplied ≡ ok supplied
unfolding bind_params bind_supplied check_required lookup insert_ordered
supplied_bound = refl

bind_params_sound_example : All (IsTyped specs) supplied × All (IsSupplied supplied) specs
bind_params_sound_example = bind_params_sound specs supplied supplied supplied_bound

abbrev call : String → Members → ℕ → ℕ × Reply
call tool args n = (suc n, success false (some tool))

abbrev plain : String → String
plain s = s

run_manifest_refines_example :
    Ends call shown plain greet supplied 0 (run_manifest call shown plain greet supplied 0)
run_manifest_refines_example = run_manifest_refines call shown plain greet supplied 0

x_named : valid_param_name "x" ≡ true
unfolding valid_param_name valid_name byte_len
x_named = refl

abbrev segments : List Segment
segments = lit "a$" ∷ ref "x" ∷ []

parse_template-print_example : parse_template (print segments) ≡ ok (joined "" segments)
parse_template-print_example = parse_template-print segments (tt, (x_named, tt))

abbrev folder : Folder
folder = record {
  listing = some ("b.json" ∷ "a.json" ∷ []);
  read = λ path. ok path;
  from_slice = λ bytes. ok raw;
}

scan_unique_example : Pairwise IsOther (scan folder).plugins
scan_unique_example = scan_unique folder
