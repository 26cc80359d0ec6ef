-- ===== src/Tools/Pipeline.antt =====
-- src/tools/mod.rs `call_tool_secured_with_peer`: the gates of a call, its execution, its audit record,
-- its metric sample and its history record. The audit log, the metrics and the history are the lists
-- of what is handed to them, newest first; their faults are logged and change nothing else.
-- Execution is the tools' own: `exec` runs `system_command` and `dispatch` every other tool. A
-- dispatched `replay_action` or `plugin_run` makes secured calls in turn, so it may change the server.
pub mod Branches
pub mod Gates
pub mod Records
pub mod Retry
use ultranix_mcp.Prelude.{
  ltb, leb, nat_beq, nat_beq_iff, if◌then◌else◌, ltb→lt, leb→le, Equality, ◌==◌, nat_eq, string_eq,
  option_beq, option_beq_iff, Bool-cases, Option-cases, and-eq-true, length, get_elem?, take, drop,
  is_empty, retain, any, all, find, length-append, length-retain-le, length-take, length-drop,
  drop-append, take_prefix, drop_prefix, contains, All, All-append, All-drop, All-retain, All-map,
  ◌⧺◌, Result, ok, err, ◌>>=◌, ◌>>◌, ok_or, ensure, to_option, is_ok, Result-cases, >>=-eq-ok, ℕ,
  zero, suc, ◌+◌, ◌-◌, ◌*◌, ◌/◌, ◌%◌, ◌^◌, ◌≤◌, ◌<◌, min, max, Char, code, String, ◌≡◌, refl, sym,
  ap, ◌∙◌, ◌≡⟨◌⟩◌, ◌∎, subst, ◌≢◌, ◌↔◌, ◌⊎◌, inl, inr, Bool, true, false, not, ◌&&◌, ◌||◌, Option,
  none, some, List, [], ◌∷◌, ◌++◌, map, reverse, foldl, arith,
}
use ultranix_mcp.Prelude.Dict.{lookup, insert, remove, is_some}
use ultranix_mcp.Json.{Value, string, object, Members, entries, members, text_of}
use ultranix_mcp.Security.Hashing.{Hashing}
use ultranix_mcp.Security.Canonical.{args_hash}
use ultranix_mcp.Security.Consent.{ConsentGate, Call, Challenge, caller_id, challenge, verify}
use ultranix_mcp.Security.Policy.{Policy, Role, resolve, allows, readonly_allowlist}
use ultranix_mcp.Tools.Catalog.{
  metric_label, category_gate, is_close, is_destructive, is_unrecorded,
}
use ultranix_mcp.Tools.Windows.{Texts, WindowProvider, resolve_close_target}
use ultranix_mcp.Tools.Replies.{
  Reply, success, failure, ErrorData, policy_denied, category_disabled, consent_required,
  outcome_of,
}

pub record Request : Type 0 where
  pub name : String
  pub args : Members
  pub session_id : String
  pub key_id : Option String

pub record AuditEntry : Type 0 where
  pub tool : String
  pub args_hash : String
  pub outcome : String
  pub duration_ms : ℕ
  pub key_id : Option String
  pub caller : String
  pub consent : Option String
  pub denial_reason : Option String

pub record Sample : Type 0 where
  pub label : String
  pub duration : ℕ
  pub outcome : String

pub record NewActionRecord : Type 0 where
  pub tool : String
  pub args : Members
  pub result_summary : String
  pub caller : String
  pub duration_ms : ℕ
  pub outcome : String

-- The `SecurityContext`; `has_history` says whether the history store opens.
pub record Server : Type 0 where
  pub categories : Option (List String)
  pub policy : Policy
  pub allow_destructive : Bool
  pub gate : ConsentGate
  pub has_history : Bool
  pub audit : List AuditEntry
  pub samples : List Sample
  pub actions : List NewActionRecord

-- What a call takes from outside: the clock at its consent steps and at its end, the random bytes of
-- a token, and the window provider.
pub record Moment : Type 0 where
  pub verified_at : ℕ
  pub challenged_at : ℕ
  pub elapsed : ℕ
  pub bytes : List ℕ
  pub window : Option WindowProvider

unfoldable pub denial_reason : Role → String → String
denial_reason role name =
    if role.readonly && not (contains readonly_allowlist name)
    then "readonly_mode"
    else "not_in_tool_list"

-- `record_tool_metric` and `audit_record`
module _ (h : Hashing) where
  abbrev pub entry : Request → String → ℕ → Option String → Option String → AuditEntry
  entry q outcome elapsed consent reason = record {
    tool = q.name;
    args_hash = args_hash h (object q.args);
    outcome = outcome;
    duration_ms = elapsed;
    key_id = q.key_id;
    caller = caller_id q.key_id q.session_id;
    consent = consent;
    denial_reason = reason;
  }

  abbrev pub note : Request → String → ℕ → Option String → Option String → Server → Server
  note q outcome elapsed consent reason s = record s {
    samples =
        record { label = metric_label q.name; duration = elapsed; outcome = outcome } ∷ s.samples;
    audit = entry q outcome elapsed consent reason ∷ s.audit;
  }

  unfoldable pub deny : Moment → Request → Server → Server × Reply
  unfolding denial_reason
  deny m q s =
      let reason = denial_reason (resolve s.policy q.key_id) q.name in
      (note q "denied" m.elapsed none (some reason) s, failure (policy_denied q.name reason))

module _ (t : Texts) where
  abbrev target_with : Option WindowProvider → Members → Option String
  target_with none args = none
  target_with (some w) args = resolve_close_target t w (text_of (lookup "window" (entries args)))

  unfoldable pub resolved_target : Moment → Request → Option String
  resolved_target m q = if is_close q.name q.args then target_with m.window q.args else none

  abbrev pub call_of : Moment → Request → Call
  call_of m q = record {
    key_id = q.key_id;
    session_id = q.session_id;
    tool = q.name;
    args = object q.args;
    target = resolved_target m q;
  }

abbrev pub supplied : Request → Option String
supplied q = text_of (lookup "consent_token" (entries q.args))

-- The consent gate of a destructive call.
module _ (h : Hashing) (t : Texts) where
  abbrev pub verified : Moment → Request → Option String → Server → Server × Bool
  verified m q none s = (s, false)
  verified m q (some token) s =
      let answer = verify h token m.verified_at (call_of t m q) s.gate in
      (record s { gate = answer.0 }, answer.1)

  unfoldable pub consented : Moment → Request → Server → Server × Bool
  consented m q s =
      if is_destructive q.name q.args && not s.allow_destructive
      then verified m q (supplied q) s
      else (s, true)

  unfoldable pub refuse_consent : Moment → Request → Server → Server × Reply
  refuse_consent m q s =
      let noted = note h q "consent_required" m.elapsed none none s in
      let issued = challenge h m.bytes m.challenged_at (call_of t m q) s.gate in
      (
        record noted { gate = issued.0 },
        failure (consent_required issued.1.token issued.1.expires_in q.name),
      )

abbrev pub consent_stamp : Request → Server → Option String
consent_stamp q s =
    if is_destructive q.name q.args
    then some (if s.allow_destructive then "bypassed" else "verified")
    else none

-- The call as it is executed: a bound close names the resolved window.
abbrev bound_args : Option String → Members → Members
bound_args none args = args
bound_args (some id) args = members (insert "window" (string id) (entries args))

module _ (summary : String → Reply → String) where
  abbrev pub action : Moment → Request → Reply → NewActionRecord
  action m q reply = record {
    tool = q.name;
    args = members (remove "consent_token" (entries q.args));
    result_summary = summary q.name reply;
    caller = caller_id q.key_id q.session_id;
    duration_ms = m.elapsed;
    outcome = outcome_of reply;
  }

  unfoldable pub remember : Moment → Request → Reply → Server → Server
  remember m q reply s =
      if not (is_unrecorded q.name q.args) && s.has_history
      then record s { actions = action m q reply ∷ s.actions }
      else s

module _ (h : Hashing) (t : Texts) (summary : String → Reply → String)
    (exec : Members → Server → Reply) (dispatch : Request → Server → Server × Reply) where
  unfoldable pub execute : Moment → Request → Server → Server × Reply
  execute m q s =
      let args = bound_args (resolved_target t m q) q.args in
      if q.name == "system_command" then (s, exec args s) else dispatch (record q { args = args }) s

  -- Execution and the records of it.
  unfoldable pub perform : Moment → Request → Server → Server × Reply
  unfolding execute remember
  perform m q s =
      let done = execute m q s in
      let noted = note h q (outcome_of done.1) m.elapsed (consent_stamp q s) none done.0 in
      (remember summary m q done.1 noted, done.1)

  abbrev pub after_consent : Moment → Request → Server × Bool → Server × Reply
  after_consent m q (s, true) = perform m q s
  after_consent m q (s, false) = refuse_consent h t m q s

  abbrev pub after_policy : Moment → Request → Server → Bool → Server × Reply
  after_policy m q s true = after_consent m q (consented h t m q s)
  after_policy m q s false = deny h m q s

  abbrev pub after_category : Moment → Request → Server → Option String → Server × Reply
  after_category m q s none = after_policy m q s (allows (resolve s.policy q.key_id) q.name)
  after_category m q s (some category) =
      (note h q "error" m.elapsed none none s, failure (category_disabled q.name category))

  unfoldable pub call_tool_secured : Moment → Request → Server → Server × Reply
  call_tool_secured m q s = after_category m q s (category_gate q.name s.categories)
