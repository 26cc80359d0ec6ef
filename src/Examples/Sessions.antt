-- ===== src/Examples/Sessions.antt =====
-- Detection, the gate of the HTTP server, replay and the path whitelist at concrete inputs.
use ultranix_mcp.Prelude.{
  if◌then◌else◌, ◌==◌, nat_eq, string_eq, is_empty, any, contains, Result, ok, err, ◌*◌, String,
  ◌≡◌, refl, ◌↔◌, ◌⊎◌, Bool, true, false, none, some, List, [], ◌∷◌,
}
use ultranix_mcp.Json.{number, Members, no_members, member, object}
use ultranix_mcp.Detection.{x11, kde, SessionInfo, plan_backends}
use ultranix_mcp.Detection.Rungs.{is_wlr_capture, is_wlr_input, is_wmctrl, plan_backends_rungs}
use ultranix_mcp.Security.Hashing.{Hashing}
use ultranix_mcp.Prelude.Floats.{one}
use ultranix_mcp.Security.Auth.Keys.{required, ApiKeyStore}
use ultranix_mcp.Http.{GateState, HttpRequest}
use ultranix_mcp.Security.Paths.{
  Component, root_dir, normal, PathBuf, Canonical, PathWhitelistError, no_leaf, outside_roots,
  cursor, path_of, is_under, check_path_with_roots,
}
use ultranix_mcp.Security.Paths.Resolved.{Resolves, check_path_with_roots_iff}
use ultranix_mcp.History.Records.{ActionRecord}
use ultranix_mcp.History.Redaction.{redact_args, redact_members}
use ultranix_mcp.Tools.Catalog.{category_of, category_in, catalog}
use ultranix_mcp.Tools.Replay.{non_replayable, replayable, args_contain_redacted}
use ultranix_mcp.Tools.Replay.Faithful.{replayable-redact_args}

abbrev kde_session : SessionInfo
kde_session = record {
  session_type = x11;
  kind = kde;
  desktop = some "KDE";
  is_hyprland = false;
  wayland_display = none;
  display = some ":0";
}

plan_backends_rungs_example :
    (any is_wlr_capture (plan_backends kde_session).capture ≡ false)
    × (any is_wlr_input (plan_backends kde_session).input ≡ false)
    × (is_empty (plan_backends kde_session).overlay ≡ true)
    × (any is_wmctrl (plan_backends kde_session).window ≡ true)
    × (is_empty (plan_backends kde_session).capture ≡ false)
    × (is_empty (plan_backends kde_session).input ≡ false)
    × (is_empty (plan_backends kde_session).clipboard ≡ false)
    × (is_empty (plan_backends kde_session).ui_automation ≡ false)
    × (is_empty (plan_backends kde_session).window ≡ false)
plan_backends_rungs_example = plan_backends_rungs kde_session

abbrev digest_of : Hashing
digest_of = record { sha256 = λ s. 7 ∷ []; quote = λ s. s }

abbrev gate_keys : ApiKeyStore
gate_keys = record {
  mode = required;
  keys = record { hash = 7 ∷ []; key_id = "07"; expires_at = none; scopes = [] } ∷ [];
}

abbrev gate : GateState
gate = record {
  limiter = record { rps = 10 * one; burst = 20 * one; buckets = []; ops = 0 };
  audit = [];
  rejections = [];
  auth_failures = [];
}

abbrev request : HttpRequest
request = record {
  header_key = some "uxcp_0";
  bearer = none;
  remote = "10.0.0.1";
  request_hash = "00";
}

abbrev slept : Members
slept = member "ms" (number "5") no_members

abbrev sleep_tool : String
sleep_tool = "sleep"

abbrev recorded : ActionRecord
recorded = record {
  id = "a";
  index = 3;
  tool = sleep_tool;
  args_json = object slept;
  result_summary = "ok";
  caller = "c";
  ts = "t";
  duration_ms = 5;
  outcome = "executed";
}

recorded-redact_args : recorded.args_json ≡ redact_args "sleep" (object slept)
unfolding redact_args redact_members category_of category_in catalog
recorded-redact_args = refl

recorded-replayable : replayable recorded ≡ ok ("sleep", slept)
unfolding replayable args_contain_redacted
recorded-replayable = refl

replayable-redact_args_example :
    (sleep_tool ≡ sleep_tool) × (slept ≡ slept) × (contains non_replayable "sleep" ≡ false)
replayable-redact_args_example =
    replayable-redact_args recorded slept slept sleep_tool recorded-redact_args recorded-replayable

-- A file system that has the directory `/tmp` alone.
abbrev is_tmp : List Component → Bool
is_tmp (normal name ∷ root_dir ∷ []) = name == "tmp"
is_tmp _ = false

abbrev disk : PathBuf → Result String Canonical
disk p = if is_tmp p.components then ok ("tmp" ∷ []) else err "not found"

abbrev shot : List Component
shot = normal "tmp" ∷ root_dir ∷ []

abbrev shot_file : String
shot_file = "shot.png"

abbrev allowed : List Canonical
allowed = ("tmp" ∷ []) ∷ []

abbrev shot_path : PathBuf
shot_path = cursor (normal shot_file ∷ shot) false

check_path_with_roots_iff_example :
    ((q : Canonical)
      → (check_path_with_roots disk allowed shot_path ≡ ok q)
        ↔ (Resolves disk shot_path q × (any (λ root. is_under root q) allowed ≡ true)))
    × ((x : PathWhitelistError)
        → check_path_with_roots disk allowed shot_path ≡ err x
        → (x ≡ no_leaf shot_path)
          ⊎ ((q : Canonical) × Resolves disk shot_path q
              × (any (λ root. is_under root q) allowed ≡ false)
              × (x ≡ outside_roots q)))
check_path_with_roots_iff_example = check_path_with_roots_iff disk allowed shot_path

whole_path :
    (check_path_with_roots disk allowed (path_of "/tmp/new/../shot.png")
      ≡ err (no_leaf (path_of "/tmp/new/../shot.png")))
    × (check_path_with_roots disk allowed (path_of "/tmp//a/./b") ≡ ok ("tmp" ∷ "a" ∷ "b" ∷ []))
    × (check_path_with_roots disk allowed (path_of "/etc/passwd")
        ≡ err (no_leaf (path_of "/etc/passwd")))
unfolding check_path_with_roots path_of
whole_path = (refl, refl, refl)
