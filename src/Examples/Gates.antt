-- ===== src/Examples/Gates.antt =====
-- The security pipeline at concrete calls.
use ultranix_mcp.Prelude.{
  ◌==◌, nat_eq, string_eq, ◌≤◌, String, ◌≡◌, refl, ◌≢◌, ◌↔◌, ◌⊎◌, inl, inr, true, false, none, some,
  [], ◌∷◌, arith,
}
use ultranix_mcp.Prelude.Dict.{lookup, insert}
use ultranix_mcp.Json.{string, object, Members, no_members, member, members, null, entries}
use ultranix_mcp.Security.Hashing.{Hashing}
use ultranix_mcp.Security.Consent.{
  ConsentGate, Call, TokenRecord, generate_token, expires_in_ms, verify, challenge, caller_id,
}
use ultranix_mcp.Security.Consent.Laws.{IsBound, verify_iff, verify_single_use, challenge-verify}
use ultranix_mcp.Security.Canonical.{args_hash}
use ultranix_mcp.Security.Canonical.Laws.{args_hash-insert}
use ultranix_mcp.Security.Policy.{default_policy, resolve, allows}
use ultranix_mcp.Tools.Catalog.{category_gate, is_destructive, is_close, is_unrecorded}
use ultranix_mcp.Tools.Windows.{Texts}
use ultranix_mcp.Tools.Replies.{Reply, success, failure, consent_required}
use ultranix_mcp.Tools.Pipeline.{
  Request, Server, Moment, NewActionRecord, resolved_target, consented, execute, perform,
  call_tool_secured,
}
use ultranix_mcp.Tools.Pipeline.Branches.{IsCoherent}
use ultranix_mcp.Tools.Pipeline.Gates.{IsAdmitted, IsRefusal, call-refuses}
use ultranix_mcp.Tools.Pipeline.Records.{IsToldOnce, call-IsToldOnce, perform-history}
use ultranix_mcp.Tools.Pipeline.Retry.{with_token, refused-retry_executes, refused_server}

abbrev hashing : Hashing
hashing = record { sha256 = λ s. 1 ∷ 2 ∷ []; quote = λ s. s }

abbrev texts : Texts
texts = record { lowered = λ s. s; occurs_in = λ s t. s == t }

abbrev summary : String → Reply → String
summary tool r = tool

abbrev exec : Members → Server → Reply
exec args s = success false (some "done")

abbrev other_exec : Members → Server → Reply
other_exec args s = success true none

abbrev dispatch : Request → Server → Server × Reply
dispatch q s = (s, success false (some q.name))

abbrev server : Server
server = record {
  categories = none;
  policy = default_policy;
  allow_destructive = false;
  gate = record { allow_destructive = false; ttl = 60000; tokens = [] };
  has_history = true;
  audit = [];
  samples = [];
  actions = [];
}

abbrev moment : Moment
moment = record { verified_at = 5; challenged_at = 6; elapsed = 1; bytes = 7 ∷ []; window = none }

abbrev later : Moment
later = record {
  verified_at = 900;
  challenged_at = 901;
  elapsed = 1;
  bytes = 8 ∷ [];
  window = none;
}

abbrev copying : Request
copying = record {
  name = "clipboard_set";
  args = member "text" (string "x") no_members;
  session_id = "s";
  key_id = none;
}

abbrev looking : Request
looking = record { name = "screen_info"; args = no_members; session_id = "s"; key_id = some "k" }

server-IsCoherent : IsCoherent server
unfolding IsCoherent
server-IsCoherent = refl

copying_category : category_gate copying.name server.categories ≡ none
unfolding category_gate
copying_category = refl

copying_allowed : allows (resolve server.policy copying.key_id) copying.name ≡ true
unfolding allows resolve
copying_allowed = refl

copying_refused : (consented hashing texts moment copying server).1 ≡ false
unfolding consented is_destructive is_close lookup
copying_refused = refl

same_target :
    resolved_target texts later (with_token (generate_token (7 ∷ [])) copying)
    ≡ resolved_target texts moment copying
unfolding resolved_target is_close
same_target = refl

-- Without a token the copy is not admitted.
copying-blocked : ¬ IsAdmitted hashing texts moment copying server
unfolding is_destructive is_close lookup
copying-blocked a = elim a.consent [
  | inl e ↦ cc
  | inr (inl e) ↦ cc
  | inr (inr c) ↦ cc (c.presented)
]

call-refuses_example :
    IsRefusal (call_tool_secured hashing texts summary exec dispatch moment copying server).1
    × (call_tool_secured hashing texts summary exec dispatch moment copying server
        ≡ call_tool_secured hashing texts summary other_exec dispatch moment copying server)
call-refuses_example =
    call-refuses hashing texts summary exec dispatch moment copying server summary other_exec
      dispatch server-IsCoherent copying-blocked

call-IsToldOnce_example :
    IsToldOnce hashing copying server
      (execute hashing texts summary exec dispatch moment copying
        (consented hashing texts moment copying server).0)
      (call_tool_secured hashing texts summary exec dispatch moment copying server)
call-IsToldOnce_example = call-IsToldOnce hashing texts summary exec dispatch moment copying server

abbrev refused : Server
refused =
    refused_server hashing texts summary exec dispatch moment copying server server-IsCoherent
      copying_category copying_allowed copying_refused

refused-retry_executes_example :
    ((call_tool_secured hashing texts summary exec dispatch moment copying server).1
      ≡ failure (consent_required (generate_token (7 ∷ [])) expires_in_ms "clipboard_set"))
    × ((call_tool_secured hashing texts summary exec dispatch later
          (with_token (generate_token (7 ∷ [])) copying)
          refused).1
        ≡ (execute hashing texts summary exec dispatch later
            (with_token (generate_token (7 ∷ [])) copying)
            (consented hashing texts later
              (with_token (generate_token (7 ∷ [])) copying)
              refused).0).1)
refused-retry_executes_example =
    refused-retry_executes hashing texts summary exec dispatch moment copying server
      server-IsCoherent copying_category copying_allowed copying_refused later (omega arith)
      same_target

-- A call that brings a token.
abbrev tokened : Request
tokened = record looking { args = member "consent_token" (string "t") no_members }

perform-history_example :
    ((perform hashing texts summary exec dispatch moment tokened server).0.actions
      ≡ (execute hashing texts summary exec dispatch moment tokened server).0.actions)
    ⊎ ((a : NewActionRecord) × ((perform hashing texts summary exec dispatch moment tokened
            server).0.actions
          ≡ a ∷ (execute hashing texts summary exec dispatch moment tokened server).0.actions)
        × (a.tool ≡ "screen_info")
        × (is_unrecorded "screen_info" tokened.args ≡ false)
        × (lookup "consent_token" (entries a.args) ≡ none))
perform-history_example =
    perform-history hashing texts summary exec dispatch moment tokened server server

abbrev call : Call
call = record {
  key_id = none;
  session_id = "s";
  tool = "clipboard_clear";
  args = null;
  target = none;
}

abbrev gate : ConsentGate
gate =
    (challenge hashing (7 ∷ []) 6 call
      (record { allow_destructive = false; ttl = 60000; tokens = [] })).0

gate_holds : gate.allow_destructive ≡ false
unfolding challenge
gate_holds = refl

verify_iff_example :
    ((verify hashing "Bw" 9 call gate).1 ≡ true)
    ↔ ((r : TokenRecord) × (lookup "Bw" gate.tokens ≡ some r) × IsBound hashing gate.ttl 9 call r)
verify_iff_example = verify_iff hashing "Bw" 9 call gate gate_holds

verify_single_use_example :
    ((verify hashing "Bw" 10 call (verify hashing "Bw" 9 call gate).0).1 ≡ false)
    × ((other : String)
        → other ≢ "Bw"
        → lookup other (verify hashing "Bw" 9 call gate).0.tokens ≡ lookup other gate.tokens)
verify_single_use_example = verify_single_use hashing "Bw" 9 call gate gate_holds 10 call

challenge-verify_example :
    ((verify hashing
        (challenge hashing (8 ∷ []) 20 call gate).1.token
        30
        call
        (challenge hashing (8 ∷ []) 20 call gate).0).1
      ≡ true)
    ↔ ((10 ≤ gate.ttl)
        × (caller_id none "s" ≡ caller_id none "s")
        × (call.tool ≡ call.tool)
        × (args_hash hashing null ≡ args_hash hashing null)
        × (call.target ≡ call.target))
challenge-verify_example = challenge-verify hashing (8 ∷ []) 20 30 call call gate gate_holds

args_hash-insert_example :
    args_hash hashing (object (members (insert "consent_token" (string "t") [])))
    ≡ args_hash hashing (object (members []))
args_hash-insert_example = args_hash-insert hashing (string "t") []
