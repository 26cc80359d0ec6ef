-- ===== src/Plugins/Faults.antt =====
-- What the errors of a step say.
use ultranix_mcp.Prelude.{
  ◌==◌, nat_eq, string_eq, ◌⧺◌, ℕ, String, ◌≡◌, refl, ap, ◌∙◌, false, Option, none, some,
}
use ultranix_mcp.Prelude.Dict.{Dict, lookup, insert, lookup-insert}
use ultranix_mcp.Prelude.Decimal.{decimal}
use ultranix_mcp.Json.{
  Value, null, boolean, number, string, array, object, entries, entries-members,
}
use ultranix_mcp.Tools.Replies.{ErrorData}
use ultranix_mcp.Plugins.Template.{ParamError, missing, unknown, wrong_type, unsupplied, template}
use ultranix_mcp.Plugins.Manifest.{PluginManifest}
use ultranix_mcp.Plugins.Running.{
  step_error, step_dispatch_error, step_context, args_error, invalid_params, param_message,
}

-- A member of an error's data.
abbrev pub member_in : String → Option Value → Option Value
member_in k (some (object ms)) = lookup k (entries ms)
member_in k other = none

abbrev pub place : (String → String) → PluginManifest → ℕ → String → String
place debug m i tool = "plugin_run " ⧺ debug m.name ⧺ " step " ⧺ decimal i ⧺ " (" ⧺ tool ⧺ ")"

-- The error of a step without an error of its own: PLUGIN_ERROR, with the step's index and tool in its
-- message and among its data.
pub record IsStepError (debug : String → String) (m : PluginManifest) (i : ℕ) (tool detail : String)
    (e : ErrorData) : Type 0 where
  pub code : e.code ≡ 32017
  pub message : e.message ≡ place debug m i tool ⧺ " failed: " ⧺ detail
  pub kind : member_in "kind" e.details ≡ some (string "PluginStepError")
  pub plugin : member_in "plugin" e.details ≡ some (string m.name)
  pub index : member_in "step" e.details ≡ some (number (decimal i))
  pub tool_name : member_in "tool" e.details ≡ some (string tool)
  pub reason : member_in "detail" e.details ≡ some (string detail)

-- The error of a refused step: the refusal's code, the step's index and tool in its message and among
-- its data, and every other member of the refusal's data.
pub record IsRefusal (debug : String → String) (m : PluginManifest) (i : ℕ) (tool : String)
    (inner e : ErrorData) : Type 0 where
  pub code : e.code ≡ inner.code
  pub message : e.message ≡ place debug m i tool ⧺ ": " ⧺ inner.message
  pub plugin : member_in "plugin" e.details ≡ some (string m.name)
  pub index : member_in "step" e.details ≡ some (number (decimal i))
  pub tool_name : member_in "step_tool" e.details ≡ some (string tool)
  pub others :
      (k : String)
      → ("plugin" == k) ≡ false
      → ("step" == k) ≡ false
      → ("step_tool" == k) ≡ false
      → ("inner" == k) ≡ false
      → member_in k e.details ≡ member_in k inner.details

-- Parameters that the caller can mend: InvalidParams, which names the parameter and no step.
pub record IsInvalidParams (message : String) (e : ErrorData) : Type 0 where
  pub code : e.code ≡ 32602
  pub message_lem : e.message ≡ "plugin_run: " ⧺ message

abbrev pub IsArgsError :
    (String → String) → PluginManifest → ℕ → String → ParamError → ErrorData → Type 0
IsArgsError debug m i tool (template e) out =
    IsStepError debug m i tool (param_message debug (template e)) out
IsArgsError debug m i tool (missing name) out =
    IsInvalidParams (param_message debug (missing name)) out
IsArgsError debug m i tool (unknown name) out =
    IsInvalidParams (param_message debug (unknown name)) out
IsArgsError debug m i tool (wrong_type name expected) out =
    IsInvalidParams (param_message debug (wrong_type name expected)) out
IsArgsError debug m i tool (unsupplied name) out =
    IsInvalidParams (param_message debug (unsupplied name)) out

module _ (debug : String → String) (m : PluginManifest) (i : ℕ) (tool : String) where
  pub step_error-IsStepError :
      (detail : String) → IsStepError debug m i tool detail (step_error debug m i tool detail)
  unfolding step_error lookup
  step_error-IsStepError detail = record {
    code = refl;
    message = refl;
    kind = refl;
    plugin = refl;
    index = refl;
    tool_name = refl;
    reason = refl;
  }

  param-IsInvalidParams :
      (message : String) → IsInvalidParams message (invalid_params ("plugin_run: " ⧺ message))
  unfolding invalid_params
  param-IsInvalidParams message = record { code = refl; message_lem = refl }

  pub args_error-IsArgsError :
      (e : ParamError) → IsArgsError debug m i tool e (args_error debug m i tool e)
  args_error-IsArgsError (template e) = step_error-IsStepError (param_message debug (template e))
  args_error-IsArgsError (missing name) = param-IsInvalidParams (param_message debug (missing name))
  args_error-IsArgsError (unknown name) = param-IsInvalidParams (param_message debug (unknown name))
  args_error-IsArgsError (wrong_type name expected) =
      param-IsInvalidParams (param_message debug (wrong_type name expected))
  args_error-IsArgsError (unsupplied name) =
      param-IsInvalidParams (param_message debug (unsupplied name))

  -- The data of a refusal with an object for its data.
  inserted : Dict Value → Dict Value
  inserted o =
      insert "step_tool" (string tool)
        (insert "step" (number (decimal i)) (insert "plugin" (string m.name) o))

  lookup-inserted :
      (o : Dict Value)
      → (lookup "plugin" (inserted o) ≡ some (string m.name))
        × (lookup "step" (inserted o) ≡ some (number (decimal i)))
        × (lookup "step_tool" (inserted o) ≡ some (string tool))
  unfolding inserted
  lookup-inserted o = (simp lookup-insert, simp lookup-insert, simp lookup-insert)

  lookup-inserted_other :
      (k : String) (o : Dict Value)
      → ("plugin" == k) ≡ false
      → ("step" == k) ≡ false
      → ("step_tool" == k) ≡ false
      → lookup k (inserted o) ≡ lookup k o
  unfolding inserted
  lookup-inserted_other k o p s t = simp (lookup-insert, p, s, t)

  refusal_data :
      (k : String) (d : Option Value)
      → ("plugin" == k) ≡ false
      → ("step" == k) ≡ false
      → ("step_tool" == k) ≡ false
      → ("inner" == k) ≡ false
      → member_in k (some (object (step_context debug m i tool d))) ≡ member_in k d
  unfolding lookup
  refusal_data k none p s t n = simp (p, s, t, n)
  refusal_data k (some null) p s t n = simp (p, s, t, n)
  refusal_data k (some (boolean b)) p s t n = simp (p, s, t, n)
  refusal_data k (some (number x)) p s t n = simp (p, s, t, n)
  refusal_data k (some (string x)) p s t n = simp (p, s, t, n)
  refusal_data k (some (array x)) p s t n = simp (p, s, t, n)
  refusal_data k (some (object o)) p s t n =
      unfold inserted in
      (ap (lookup k) (entries-members (inserted (entries o)))
        ∙ lookup-inserted_other k (entries o) p s t)

  refusal_named :
      (d : Option Value)
      → (member_in "plugin" (some (object (step_context debug m i tool d))) ≡ some (string m.name))
        × (member_in "step" (some (object (step_context debug m i tool d)))
            ≡ some (number (decimal i)))
        × (member_in "step_tool" (some (object (step_context debug m i tool d)))
            ≡ some (string tool))
  unfolding lookup
  refusal_named none = (refl, refl, refl)
  refusal_named (some null) = (refl, refl, refl)
  refusal_named (some (boolean b)) = (refl, refl, refl)
  refusal_named (some (number x)) = (refl, refl, refl)
  refusal_named (some (string x)) = (refl, refl, refl)
  refusal_named (some (array x)) = (refl, refl, refl)
  refusal_named (some (object o)) =
      unfold inserted in (rw (entries-members (inserted (entries o))) (lookup-inserted (entries o)))

  pub step_dispatch_error-IsRefusal :
      (e : ErrorData) → IsRefusal debug m i tool e (step_dispatch_error debug m i tool e)
  unfolding step_dispatch_error
  step_dispatch_error-IsRefusal e =
      let (plugin, index, name) = refusal_named e.details in
      record {
        code = refl;
        message = refl;
        plugin = plugin;
        index = index;
        tool_name = name;
        others = λ k p s t n. refusal_data k e.details p s t n;
      }
