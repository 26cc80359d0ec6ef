-- ===== src/Tools/Replay.antt =====
-- src/tools/admin.rs: `replay_action` over the history. `S` is the server's state and `call` the
-- dispatch of a call: `call_tool_secured` on the secured path, `call_tool` on the other. `to_json` is
-- `Value::to_string`, `is_ulid` the parse of an id, and `content` the blocks of a reply as JSON.
pub mod Faithful
use ultranix_mcp.Prelude.{
  ltb, leb, nat_beq, nat_beq_iff, if◌then◌else◌, ltb→lt, leb→le, Equality, ◌==◌, nat_eq, string_eq,
  option_beq, option_beq_iff, Bool-cases, Option-cases, and-eq-true, length, get_elem?, take, drop,
  is_empty, retain, any, all, find, length-append, length-retain-le, length-take, length-drop,
  drop-append, take_prefix, drop_prefix, contains, All, All-append, All-drop, All-retain, All-map,
  All-imp, ◌⧺◌, Result, ok, err, ◌>>=◌, ◌>>◌, ok_or, ensure, to_option, is_ok, Result-cases,
  >>=-eq-ok, >>-eq-ok, ok_or-eq-ok, ensure-eq-ok, ok_injective, ℕ, zero, suc, ◌+◌, ◌-◌, ◌*◌, ◌/◌,
  ◌%◌, ◌^◌, ◌≤◌, ◌<◌, min, max, Char, code, String, ◌≡◌, refl, sym, ap, ◌∙◌, ◌≡⟨◌⟩◌, ◌∎, subst, ◌≢◌,
  ◌↔◌, ◌⊎◌, inl, inr, Bool, true, false, not, ◌&&◌, ◌||◌, Option, none, some, List, [], ◌∷◌, ◌++◌,
  map, reverse, foldl, arith,
}
use ultranix_mcp.Prelude.Texts.{starts_with}
use ultranix_mcp.Json.{
  Value, null, boolean, number, string, array, object, Items, no_items, item, Members, no_members,
  member, members,
}
use ultranix_mcp.Plugins.Running.{invalid_params}
use ultranix_mcp.Tools.Replies.{Reply, success, failure, ErrorData}
use ultranix_mcp.History.Records.{ActionRecord}
use ultranix_mcp.History.Store.{Store}
use ultranix_mcp.History.Opening.{get_by_index, get_by_id}

abbrev pub non_replayable : List String
non_replayable =
    "metrics" ∷ "get_action_history" ∷ "replay_action" ∷ "clear_action_history" ∷ "plugin_list"
    ∷ "plugin_reload" ∷ "screen_stream" ∷ []

-- A placeholder of the history stands in some text of the value.
unfoldable mutual
  pub args_contain_redacted : Value → Bool
  args_contain_redacted (string s) = starts_with "<redacted:" s
  args_contain_redacted (array vs) = items_contain_redacted vs
  args_contain_redacted (object ms) = members_contain_redacted ms
  args_contain_redacted null = false
  args_contain_redacted (boolean b) = false
  args_contain_redacted (number n) = false

  pub items_contain_redacted : Items → Bool
  items_contain_redacted no_items = false
  items_contain_redacted (item v vs) = args_contain_redacted v || items_contain_redacted vs

  pub members_contain_redacted : Members → Bool
  members_contain_redacted no_members = false
  members_contain_redacted (member k v ms) = args_contain_redacted v || members_contain_redacted ms

pub record ReplayParams : Type 0 where
  pub index : Option ℕ
  pub id : Option String

-- `as_object().cloned().unwrap_or_default()`
abbrev pub object_of : Value → Members
object_of (object ms) = ms
object_of _ = no_members

-- Exactly one selector, and an id that parses.
abbrev pub selected : (String → Bool) → Store → ReplayParams → Result String (Option ActionRecord)
selected is_ulid store p = choose p.index p.id
  where
    choose : Option ℕ → Option String → Result String (Option ActionRecord)
    choose (some i) none = ok (get_by_index i store)
    choose none (some id) =
        if is_ulid id
        then ok (get_by_id id store)
        else err "replay_action: id must be a 26-char ULID (Crockford Base32)"
    choose _ _ = err "replay_action: provide exactly one of `index` or `id`"

unfoldable pub replayable : ActionRecord → Result String (String × Members)
replayable rec = do
  ensure (not (contains non_replayable rec.tool))
      ("replay_action: " ⧺ rec.tool ⧺ " is not replayable")
  ensure (not (args_contain_redacted rec.args_json))
      "replay_action: record is redacted - secret arguments were never stored, so the call cannot be faithfully replayed"
  ok (rec.tool, object_of rec.args_json)

module _ {ℓ} {S : Type ℓ} (is_ulid : String → Bool) (call : String → Members → S → S × Reply)
    (to_json : Value → String) (content : Reply → Value) where
  abbrev pub replayed : ActionRecord → S × Reply → S × Reply
  replayed rec (s, failure e) = (s, failure e)
  replayed rec (s, success is_error text) = (
    s,
    success is_error (
        some (
          to_json (
            object (
              members (
                ("replayed", string rec.tool)
                ∷ ("id", string rec.id)
                ∷ ("result", content (success is_error text))
                ∷ []))))),
  )

  abbrev pub with_call : ActionRecord → S → Result String (String × Members) → S × Reply
  with_call rec s (err message) = (s, failure (invalid_params message))
  with_call rec s (ok (tool, args)) = replayed rec (call tool args s)

  abbrev pub with_record : S → Result String (Option ActionRecord) → S × Reply
  with_record s (err message) = (s, failure (invalid_params message))
  with_record s (ok none) =
      (s, failure (invalid_params "replay_action: no history record matches the selector"))
  with_record s (ok (some rec)) = with_call rec s (replayable rec)

  unfoldable pub replay_action : Store → ReplayParams → S → S × Reply
  unfolding replayable
  replay_action store p s = with_record s (selected is_ulid store p)
