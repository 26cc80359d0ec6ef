-- ===== src/Tools/Replies.antt =====
-- src/tools/mod.rs and src/error.rs: the errors of a call, and what is kept of its result. An error's
-- code is the magnitude of the negative JSON-RPC code.
use ultranix_mcp.Prelude.{
  if◌then◌else◌, ◌==◌, nat_eq, string_eq, ◌⧺◌, ℕ, String, Bool, Option, none, some, [], ◌∷◌,
}
use ultranix_mcp.Prelude.Dict.{lookup}
use ultranix_mcp.Prelude.Decimal.{decimal}
use ultranix_mcp.Json.{Value, string, number, object, entries, members, text_of}

pub record ErrorData : Type 0 where
  pub code : ℕ
  pub message : String
  pub details : Option Value

-- A result's `is_error == Some(true)`, and its first content block when that is a text.
pub data Reply : Type 0 where
  success : Bool → Option String → Reply
  failure : ErrorData → Reply

-- src/error.rs `codes`, and JSON-RPC's MethodNotFound
abbrev pub method_not_found : ℕ
method_not_found = 32601

abbrev pub consent_required_code : ℕ
consent_required_code = 32015

abbrev pub read_only_mode : ℕ
read_only_mode = 32018

abbrev pub not_in_tool_list : ℕ
not_in_tool_list = 32019

unfoldable pub policy_denied : String → String → ErrorData
policy_denied tool reason =
    let readonly = reason == "readonly_mode" in
    record {
      code = if readonly then read_only_mode else not_in_tool_list;
      message = tool ⧺ " denied: " ⧺ reason;
      details = some (
          object (
            members (
              ("kind", string (if readonly then "ReadOnlyMode" else "NotInToolList"))
              ∷ ("denial_reason", string reason)
              ∷ [])));
    }

unfoldable pub category_disabled : String → String → ErrorData
category_disabled name category = record {
  code = method_not_found;
  message = "tool disabled by category filter: " ⧺ name;
  details = some (
      object (
        members (
          ("kind", string "CategoryDisabled")
          ∷ ("category", string category)
          ∷ ("tool", string name)
          ∷ [])));
}

unfoldable pub consent_required : String → ℕ → String → ErrorData
consent_required token expires_in tool = record {
  code = consent_required_code;
  message = "consent required: destructive action; retry with consent_token";
  details = some (
      object (
        members (
          ("kind", string "ConsentRequired")
          ∷ ("consent_token", string token)
          ∷ ("expires_in_ms", number (decimal expires_in))
          ∷ ("tool", string tool)
          ∷ [])));
}

unfoldable pub outcome_of : Reply → String
outcome_of (success is_error text) = if is_error then "tool_error" else "ok"
outcome_of (failure e) = if e.code == consent_required_code then "consent_required" else "error"

abbrev or_text : Option String → String → String
or_text none d = d
or_text (some s) d = s

-- `v.get(k)` on any value
abbrev member_of : String → Value → Option Value
member_of k (object ms) = lookup k (entries ms)
member_of k _ = none

-- What serde_json reads a text as, and which numbers it gives as `u64`.
pub record Parser : Type 0 where
  pub from_str : String → Option Value
  pub as_u64 : Value → Option ℕ

abbrev number_of : Parser → Option Value → Option ℕ
number_of p none = none
number_of p (some v) = p.as_u64 v

abbrev plugin_line : Option String → Option ℕ → Option String
plugin_line (some plugin) (some steps) = some ("plugin=" ⧺ plugin ⧺ " steps=" ⧺ decimal steps)
plugin_line _ _ = none

abbrev byte_length : (String → ℕ) → Option String → ℕ
byte_length len none = 0
byte_length len (some s) = len s

module _ (p : Parser) (len : String → ℕ) where
  abbrev parsed : Option String → Option Value
  parsed none = none
  parsed (some t) = p.from_str t

  -- The result of `plugin_run` and of an exposed tool, by its shape.
  abbrev plugin_shape : Option Value → Option String
  plugin_shape none = none
  plugin_shape (some v) =
      plugin_line (text_of (member_of "plugin" v)) (number_of p (member_of "steps_run" v))

  -- `len` is a text's length in bytes.
  abbrev clipboard_line : Option Value → String
  clipboard_line none = "<clipboard read>"
  clipboard_line (some v) =
      "mime="
      ⧺ or_text (text_of (member_of "mime" v)) "?"
      ⧺ " len="
      ⧺ decimal (byte_length len (text_of (member_of "text" v)))

  unfoldable pub result_summary : String → Reply → String
  result_summary tool (success is_error text) = elim (plugin_shape (parsed text)) [
    | some line ↦ line
    | none ↦
        if tool == "clipboard_get"
        then clipboard_line (parsed text)
        else or_text text "<non-text result>"
  ]
  result_summary tool (failure e) = "--" ⧺ decimal e.code ⧺ " " ⧺ e.message
