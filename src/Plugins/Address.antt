-- ===== src/Plugins/Address.antt =====
-- src/tools/plugin.rs: the two ways to run a plugin, by `plugin_run` and by the tool that it exposes,
-- with the gates of each. A scan that panics is left out.
use ultranix_mcp.Prelude.{
  if◌then◌else◌, nat_eq, string_eq, contains, ◌⧺◌, String, ◌≡◌, refl, Bool, true, false, not, ◌&&◌,
  ◌||◌, Option, none, some, List, [], ◌∷◌, arith,
}
use ultranix_mcp.Prelude.Dict.{Dict}
use ultranix_mcp.Json.{Value, string, object, Members, members}
use ultranix_mcp.Security.Policy.{Policy, Role, resolve, allows, readonly_allowlist}
use ultranix_mcp.Tools.Catalog.{category_of}
use ultranix_mcp.Tools.Replies.{
  Reply, failure, ErrorData, category_disabled, read_only_mode, not_in_tool_list,
}
use ultranix_mcp.Plugins.Manifest.{ToolSpec}
use ultranix_mcp.Plugins.Running.{run_manifest, invalid_params}
use ultranix_mcp.Plugins.Store.{Plugin, Folder, get, by_tool_name}

pub record Caller : Type 0 where
  pub categories : Option (List String)
  pub policy : Policy
  pub key_id : Option String

abbrev or_admin : Option String → String
or_admin none = "admin"
or_admin (some c) = c

-- The category filter of an exposed tool, which is that of `plugin_run`.
unfoldable pub exposed_gate : String → Option (List String) → Option ErrorData
exposed_gate name none = none
exposed_gate name (some cats) =
    let cat = or_admin (category_of "plugin_run") in
    if contains cats cat then none else some (category_disabled name cat)

unfoldable pub plugin_run_denied : String → Role → ErrorData
plugin_run_denied name role =
    let readonly = role.readonly && not (contains readonly_allowlist "plugin_run") in
    let reason = if readonly then "readonly_mode" else "not_in_tool_list" in
    record {
      code = if readonly then read_only_mode else not_in_tool_list;
      message = name ⧺ " denied: " ⧺ reason ⧺ " (plugin tools require plugin_run)";
      details = some (
          object (
            members (
              ("kind", string (if readonly then "ReadOnlyMode" else "NotInToolList"))
              ∷ ("denial_reason", string reason)
              ∷ [])));
    }

abbrev pub denies_tool : Role → Option ToolSpec → Bool
denies_tool role none = false
denies_tool role (some t) = contains role.deny_tools t.name

abbrev pub role_of : Caller → Role
role_of c = resolve c.policy c.key_id

module _ {ℓ} {S : Type ℓ} (call : String → Members → S → S × Reply) (to_json : Value → String)
    (debug : String → String) where
  abbrev pub run_plugin : Plugin → Dict Value → S → S × Reply
  run_plugin p params s = run_manifest call to_json debug p.manifest params s

  abbrev pub gated_by_name : Option Caller → Plugin → Dict Value → S → S × Reply
  gated_by_name none p params s = run_plugin p params s
  gated_by_name (some c) p params s =
      if contains (role_of c).deny_tools p.manifest.name || denies_tool (role_of c) p.manifest.tool
      then (s, failure (plugin_run_denied p.manifest.name (role_of c)))
      else run_plugin p params s

  abbrev pub by_name_found : String → Option Caller → Dict Value → S → Option Plugin → S × Reply
  by_name_found name c params s none =
      (s, failure (invalid_params ("plugin_run: no plugin named " ⧺ debug name)))
  by_name_found name c params s (some p) = gated_by_name c p params s

  unfoldable pub run_by_name : Folder → Option Caller → String → Dict Value → S → S × Reply
  run_by_name f c name params s = by_name_found name c params s (get f name)

  abbrev pub past_gate : Option ErrorData → Caller → String → Plugin → Dict Value → S → S × Reply
  past_gate (some e) c name p args s = (s, failure e)
  past_gate none c name p args s =
      if not (allows (role_of c) "plugin_run") || contains (role_of c).deny_tools p.manifest.name
      then (s, failure (plugin_run_denied name (role_of c)))
      else run_plugin p args s

  abbrev pub exposed_found :
      String → Option Caller → Dict Value → S → Option Plugin → Option (S × Reply)
  exposed_found name c args s none = none
  exposed_found name none args s (some p) = some (run_plugin p args s)
  exposed_found name (some c) args s (some p) =
      some (past_gate (exposed_gate name c.categories) c name p args s)

  -- Nothing, when no plugin exposes the name.
  unfoldable pub run_exposed_tool :
      Folder → Option Caller → String → Dict Value → S → Option (S × Reply)
  run_exposed_tool f c name args s = exposed_found name c args s (by_tool_name f name)

  abbrev IsRefused : S → S × Reply → Type ℓ
  IsRefused s out = (e : ErrorData) × (out ≡ (s, failure e))

  past_gate-IsRefused :
      (o : Option ErrorData) (c : Caller) (name : String) (p : Plugin) (args : Dict Value) (s : S)
      → (not (allows (role_of c) "plugin_run") || contains (role_of c).deny_tools p.manifest.name)
        ≡ true
      → IsRefused s (past_gate o c name p args s)
  past_gate-IsRefused (some e) c name p args s h = (e, refl)
  past_gate-IsRefused none c name p args s h = (plugin_run_denied name (role_of c), rw h refl)

  -- A plugin whose name the caller's role denies runs at neither address, by `plugin_run` with its
  -- name or by the tool that it exposes: both are refused before any step, and the state stays.
  pub denied_at_both :
      (f : Folder) (c : Caller) (name tool : String) (p : Plugin) (args : Dict Value) (s : S)
      → get f name ≡ some p
      → by_tool_name f tool ≡ some p
      → contains (role_of c).deny_tools p.manifest.name ≡ true
      → IsRefused s (run_by_name f (some c) name args s)
        × ((out : S × Reply) × (run_exposed_tool f (some c) tool args s ≡ some out)
            × IsRefused s out)
  unfolding run_by_name run_exposed_tool
  denied_at_both f c name tool p args s e k h = (
    (plugin_run_denied p.manifest.name (role_of c), rw (e, h) refl),
    (
      past_gate (exposed_gate tool c.categories) c tool p args s,
      rw k refl,
      past_gate-IsRefused (exposed_gate tool c.categories) c tool p args s (ground arith),
    ),
  )
