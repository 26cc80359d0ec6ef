-- ===== src/Plugins/Running.antt =====
-- src/tools/plugin.rs: how a manifest runs. `S` is the server's state, and `call` the dispatch of one
-- step: `call_tool_secured` where the run is secured, and `call_tool` where it is not. `to_json` is
-- `Value::to_string`, and `debug` is Rust's quoting of a text in messages.
use ultranix_mcp.Prelude.{
  nat_eq, string_eq, length, ◌⧺◌, Result, ok, err, ℕ, suc, String, true, false, Option, none, some,
  List, [], ◌∷◌,
}
use ultranix_mcp.Prelude.Dict.{Dict, insert}
use ultranix_mcp.Prelude.Decimal.{decimal}
use ultranix_mcp.Json.{
  Value, string, number, array, object, Items, no_items, item, Members, entries, members,
}
use ultranix_mcp.History.Records.{result_summary_max}
use ultranix_mcp.History.Redaction.{truncate_chars}
use ultranix_mcp.Tools.Replies.{Reply, success, failure, ErrorData}
use ultranix_mcp.Plugins.Template.{
  TemplateError, unclosed, bad_name, ParamError, missing, unknown, wrong_type, unsupplied, template,
  substitute_args,
}
use ultranix_mcp.Plugins.Manifest.{Step, PluginManifest}
use ultranix_mcp.Plugins.Binding.{bind_params}

-- JSON-RPC's InvalidParams, and src/error.rs `codes::PLUGIN_ERROR`
abbrev pub invalid_params_code : ℕ
invalid_params_code = 32602

abbrev pub plugin_error : ℕ
plugin_error = 32017

unfoldable pub invalid_params : String → ErrorData
invalid_params message = record {
  code = invalid_params_code;
  message = message;
  details =
      some (object (members (("kind", string "InvalidParams") ∷ ("detail", string message) ∷ [])));
}

abbrev pub first_text : Option String → String
first_text none = "<non-text result>"
first_text (some t) = t

-- The message of an error (`Display`)
module _ (debug : String → String) where
  abbrev template_message : TemplateError → String
  template_message unclosed = "unclosed `${` placeholder"
  template_message (bad_name name) =
      "invalid placeholder `${" ⧺ name ⧺ "}`: param names match ^[a-z][a-z0-9_]{0,63}$"

  abbrev pub param_message : ParamError → String
  param_message (missing name) = "missing required param " ⧺ debug name
  param_message (unknown name) = "unknown param " ⧺ debug name ⧺ " (not declared by the manifest)"
  param_message (wrong_type name expected) = "param " ⧺ debug name ⧺ " must be " ⧺ expected
  param_message (unsupplied name) =
      "param " ⧺ debug name ⧺ " is referenced by a step but was not supplied"
  param_message (template e) = "template error: " ⧺ template_message e

  abbrev at_step : PluginManifest → ℕ → String → String
  at_step m i tool = "plugin_run " ⧺ debug m.name ⧺ " step " ⧺ decimal i ⧺ " (" ⧺ tool ⧺ ")"

  unfoldable pub step_error : PluginManifest → ℕ → String → String → ErrorData
  step_error m i tool detail = record {
    code = plugin_error;
    message = at_step m i tool ⧺ " failed: " ⧺ detail;
    details = some (
        object (
          members (
            ("kind", string "PluginStepError")
            ∷ ("plugin", string m.name)
            ∷ ("step", number (decimal i))
            ∷ ("tool", string tool)
            ∷ ("detail", string detail)
            ∷ [])));
  }

  abbrev pub step_context : PluginManifest → ℕ → String → Option Value → Members
  step_context m i tool (some (object o)) = members (
      insert "step_tool" (string tool)
        (insert "step" (number (decimal i)) (insert "plugin" (string m.name) (entries o))))
  step_context m i tool (some inner) = members (
      ("plugin", string m.name)
      ∷ ("step", number (decimal i))
      ∷ ("step_tool", string tool)
      ∷ ("inner", inner)
      ∷ [])
  step_context m i tool none =
      members
        (("plugin", string m.name) ∷ ("step", number (decimal i)) ∷ ("step_tool", string tool) ∷ [])

  unfoldable pub step_dispatch_error : PluginManifest → ℕ → String → ErrorData → ErrorData
  step_dispatch_error m i tool e = record {
    code = e.code;
    message = at_step m i tool ⧺ ": " ⧺ e.message;
    details = some (object (step_context m i tool e.details));
  }

  abbrev pub args_error : PluginManifest → ℕ → String → ParamError → ErrorData
  args_error m i tool (template e) = step_error m i tool (param_message (template e))
  args_error m i tool e = invalid_params ("plugin_run: " ⧺ param_message e)

pub record StepResult : Type 0 where
  pub step : ℕ
  pub tool : String
  pub result : String

abbrev pub step_result : ℕ → Step → Option String → StepResult
step_result i step text = record {
  step = i;
  tool = step.tool;
  result = truncate_chars (first_text text) result_summary_max;
}

abbrev pub StepsRun : Type 0
StepsRun = Result ErrorData (List StepResult)

-- `results.push`
abbrev pub push_result {ℓ} : {S : Type ℓ} → StepResult → S × StepsRun → S × StepsRun
push_result r (s, ok results) = (s, ok (r ∷ results))
push_result r (s, err e) = (s, err e)

module _ {ℓ} {S : Type ℓ} (call : String → Members → S → S × Reply) (to_json : Value → String)
    (debug : String → String) where
  -- What is left of the run after a step's call.
  abbrev pub after_call : PluginManifest → ℕ → Step → (S → S × StepsRun) → S × Reply → S × StepsRun
  after_call m i step rest (s, success true text) =
      (s, err (step_error debug m i step.tool (first_text text)))
  after_call m i step rest (s, success false text) = push_result (step_result i step text) (rest s)
  after_call m i step rest (s, failure e) = (s, err (step_dispatch_error debug m i step.tool e))

  abbrev pub after_args :
      PluginManifest → ℕ → Step → (S → S × StepsRun) → Result ParamError Members → S → S × StepsRun
  after_args m i step rest (ok args) s = after_call m i step rest (call step.tool args s)
  after_args m i step rest (err e) s = (s, err (args_error debug m i step.tool e))

  -- The loop over the steps from the `i`-th on.
  unfoldable pub run_steps : PluginManifest → Dict Value → ℕ → List Step → S → S × StepsRun
  run_steps m bound i [] s = (s, ok [])
  run_steps m bound i (step ∷ steps) s =
      after_args m i step (λ t. run_steps m bound (suc i) steps t)
        (substitute_args to_json bound step.args) s

  abbrev result_items : List StepResult → Items
  result_items [] = no_items
  result_items (r ∷ rs) =
      item
        (object (
          members (
            ("step", number (decimal r.step))
            ∷ ("tool", string r.tool)
            ∷ ("result", string r.result)
            ∷ [])))
        (result_items rs)

  unfoldable pub report : PluginManifest → List StepResult → Value
  report m results = object (
      members (
        ("plugin", string m.name)
        ∷ ("steps_run", number (decimal (length results)))
        ∷ ("results", array (result_items results))
        ∷ []))

  abbrev pub run_reply : PluginManifest → S × StepsRun → S × Reply
  run_reply m (s, ok results) = (s, success false (some (to_json (report m results))))
  run_reply m (s, err e) = (s, failure e)

  abbrev pub run_bound : PluginManifest → Result ParamError (Dict Value) → S → S × Reply
  run_bound m (ok bound) s = run_reply m (run_steps m bound 0 m.steps s)
  run_bound m (err e) s = (s, failure (invalid_params ("plugin_run: " ⧺ param_message debug e)))

  unfoldable pub run_manifest : PluginManifest → Dict Value → S → S × Reply
  unfolding run_steps
  run_manifest m params s = run_bound m (bind_params m.params params) s
