-- ===== src/History/Redaction.antt =====
-- src/security/history.rs: what of a call's arguments and summary is kept.
use ultranix_mcp.Prelude.{
  leb, if◌then◌else◌, ◌==◌, nat_eq, string_eq, length, is_empty, ◌⧺◌, ℕ, zero, suc, max, String,
  Bool, true, false, not, ◌&&◌, ◌||◌, Option, none, some, [], ◌∷◌,
}
use ultranix_mcp.Prelude.Texts.{char_count}
use ultranix_mcp.Prelude.Decimal.{decimal}
use ultranix_mcp.Prelude.Dict.{Dict, lookup, insert}
use ultranix_mcp.Json.{Value, string, object, entries, members, text_of}
use ultranix_mcp.Tools.Catalog.{category_of}

-- `chars().take(n).collect()`
unfoldable pub take_chars : ℕ → String → String
take_chars zero s = ""
take_chars (suc n) String.[] = ""
take_chars (suc n) (String.◌∷◌ c s) = String.◌∷◌ c (take_chars n s)

unfoldable pub truncate_chars : String → ℕ → String
truncate_chars s max = if leb (char_count s) max then s else take_chars max s

abbrev pub redacted : ℕ → String → String
redacted n what = "<redacted:" ⧺ decimal n ⧺ " " ⧺ what ⧺ ">"

-- `as_object` of an entry
abbrev pub as_object : Option Value → Option (Dict Value)
as_object (some (object ms)) = some (entries ms)
as_object _ = none

abbrev pub redact_text : Option String → Dict Value → Dict Value
redact_text none obj = obj
redact_text (some text) obj = insert "text" (string (redacted (char_count text) "chars")) obj

abbrev pub redact_params : Option (Dict Value) → Dict Value → Dict Value
redact_params none obj = obj
redact_params (some params) obj = insert "params" (string (redacted (length params) "params")) obj

abbrev pub is_none : Option String → Bool
is_none none = true
is_none (some s) = false

unfoldable pub redact_members : String → Dict Value → Dict Value
redact_members tool obj =
    if tool == "type_text" || tool == "clipboard_set"
    then redact_text (text_of (lookup "text" obj)) obj
    else if tool == "plugin_run"
    then redact_params (as_object (lookup "params" obj)) obj
    else if is_none (category_of tool) && not (is_empty obj)
    then ("params", string (redacted (length obj) "params")) ∷ []
    else obj

unfoldable pub redact_args : String → Value → Value
unfolding redact_members
redact_args tool (object ms) = object (members (redact_members tool (entries ms)))
redact_args tool args = args
