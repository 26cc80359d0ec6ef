-- ===== src/Tools/Catalog.antt =====
-- src/tools/mod.rs: the catalog of tools, the category filter, `tools/list`, and the class of
-- destructive calls. A tool definition is its name; schemas and descriptions are left out.
pub mod Laws
use ultranix_mcp.Prelude.{
  ltb, leb, nat_beq, nat_beq_iff, if◌then◌else◌, ltb→lt, leb→le, Equality, ◌==◌, nat_eq, string_eq,
  option_beq, option_beq_iff, Bool-cases, Option-cases, and-eq-true, length, get_elem?, take, drop,
  is_empty, retain, any, all, find, length-append, length-retain-le, length-take, length-drop,
  drop-append, take_prefix, drop_prefix, contains, All, All-append, All-drop, All-retain, All-map,
  ◌⧺◌, Result, ok, err, ◌>>=◌, ◌>>◌, ok_or, ensure, to_option, is_ok, Result-cases, >>=-eq-ok, ℕ,
  zero, suc, ◌+◌, ◌-◌, ◌*◌, ◌/◌, ◌%◌, ◌^◌, ◌≤◌, ◌<◌, min, max, Char, code, String, ◌≡◌, refl, sym,
  ap, ◌∙◌, ◌≡⟨◌⟩◌, ◌∎, subst, ◌≢◌, ◌↔◌, ◌⊎◌, inl, inr, Bool, true, false, not, ◌&&◌, ◌||◌, Option,
  none, some, List, [], ◌∷◌, ◌++◌, map, reverse, foldl, arith,
}
use ultranix_mcp.Prelude.Dict.{Dict, lookup}
use ultranix_mcp.Json.{Value, Members, entries, text_of}
use ultranix_mcp.Security.Policy.{Policy, Role, allows, resolve}

unfoldable pub catalog : Dict (List String)
catalog =
    (
      "mouse",
      "mouse_click" ∷ "mouse_double_click" ∷ "mouse_move" ∷ "mouse_get_position" ∷ "mouse_scroll"
          ∷ "mouse_drag" ∷ "mouse_button_control" ∷ [],
    )
    ∷ ("keyboard", "type_text" ∷ "key_control" ∷ [])
    ∷ (
      "vision",
      "screenshot" ∷ "screen_info" ∷ "screen_highlight" ∷ "color_at" ∷ "set_spatial_focus"
          ∷ "get_ui_tree" ∷ "get_focused_element" ∷ "find_element" ∷ "find_text_on_screen"
          ∷ "find_icon" ∷ "wait_for_ui_element" ∷ "invoke_element" ∷ "screen_record"
          ∷ "screen_stream" ∷ [],
    )
    ∷ ("automation", "sleep" ∷ "mouse_move_path" ∷ "system_command" ∷ "web_query" ∷ [])
    ∷ (
      "admin",
      "window_control" ∷ "get_windows" ∷ "get_active_window" ∷ "metrics" ∷ "get_action_history"
          ∷ "replay_action" ∷ "clear_action_history" ∷ "plugin_list" ∷ "plugin_run"
          ∷ "plugin_reload" ∷ [],
    )
    ∷ ("clipboard", "clipboard_get" ∷ "clipboard_set" ∷ "clipboard_clear" ∷ [])
    ∷ []

-- `find_map` over the catalog
unfoldable pub category_in : Dict (List String) → String → Option String
category_in [] name = none
category_in ((category, names) ∷ rest) name =
    if contains names name then some category else category_in rest name

unfoldable pub category_of : String → Option String
unfolding category_in catalog
category_of name = category_in catalog name

unfoldable pub label_in : Dict (List String) → String → Option String
label_in [] name = none
label_in ((category, names) ∷ rest) name = elim (find (λ n. n == name) names) [
  | some n ↦ some n
  | none ↦ label_in rest name
]

abbrev pub or_unknown : Option String → String
or_unknown none = "__unknown__"
or_unknown (some n) = n

unfoldable pub metric_label : String → String
unfolding label_in catalog
metric_label name = or_unknown (label_in catalog name)

-- The category whose filter shuts the tool out, if one does.
abbrev shut_out : Option String → List String → Option String
shut_out none enabled = none
shut_out (some category) enabled = if contains enabled category then none else some category

unfoldable pub category_gate : String → Option (List String) → Option String
category_gate name none = none
category_gate name (some enabled) = shut_out (category_of name) enabled

abbrev pub in_categories : Option String → List String → Bool
in_categories none enabled = false
in_categories (some category) enabled = contains enabled category

-- `list_tools`, of the tool definitions that `all_tools` answers
unfoldable pub list_tools : List String → Option (List String) → List String
list_tools all none = all
list_tools all (some enabled) = retain (λ t. in_categories (category_of t) enabled) all

unfoldable pub list_tools_for :
    List String → Option (List String) → Option Policy → Option String → List String
unfolding list_tools
list_tools_for all enabled none key_id = list_tools all enabled
list_tools_for all enabled (some policy) key_id =
    retain (λ t. allows (resolve policy key_id) t) (list_tools all enabled)

-- The tools that are destructive whatever their arguments.
abbrev pub destructive_tools : List String
destructive_tools =
    "system_command" ∷ "clear_action_history" ∷ "replay_action" ∷ "clipboard_set"
    ∷ "clipboard_clear" ∷ []

-- `name == "window_control" && args.action == "close"`
unfoldable pub is_close : String → Members → Bool
is_close name args =
    name == "window_control" && option_beq (text_of (lookup "action" (entries args))) (some "close")

unfoldable pub is_destructive : String → Members → Bool
unfolding is_close
is_destructive name args = contains destructive_tools name || is_close name args

-- `UNRECORDED` of src/tools/admin.rs
abbrev pub unrecorded_tools : List String
unrecorded_tools =
    "metrics" ∷ "get_action_history" ∷ "replay_action" ∷ "clear_action_history" ∷ "plugin_list"
    ∷ "plugin_reload" ∷ []

unfoldable pub is_unrecorded : String → Members → Bool
is_unrecorded name args =
    contains unrecorded_tools name
    || name == "screen_stream"
      && (option_beq (text_of (lookup "action" (entries args))) (some "status")
          || option_beq (text_of (lookup "action" (entries args))) (some "latest"))
