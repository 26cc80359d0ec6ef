-- ===== src/Tools/Pipeline/Retry.antt =====
-- A consent challenge and its retry with the token.
use ultranix_mcp.Prelude.{
  ◌==◌, nat_eq, string_eq, ◌-◌, ◌≤◌, String, ◌≡◌, refl, sym, ap, ◌∙◌, subst, inr, true, false, none,
  some,
}
use ultranix_mcp.Prelude.Dict.{lookup, insert, lookup-insert, lookup-insert_self}
use ultranix_mcp.Json.{string, Members, object, entries, members, entries-members, members-entries}
use ultranix_mcp.Security.Hashing.{Hashing}
use ultranix_mcp.Security.Canonical.{args_hash}
use ultranix_mcp.Security.Canonical.Laws.{args_hash-insert}
use ultranix_mcp.Security.Consent.{generate_token, challenge, scope, expires_in_ms}
use ultranix_mcp.Security.Policy.{resolve, allows}
use ultranix_mcp.Tools.Catalog.{category_gate, is_destructive, is_close}
use ultranix_mcp.Tools.Windows.{Texts}
use ultranix_mcp.Tools.Replies.{Reply, failure, consent_required}
use ultranix_mcp.Tools.Pipeline.{
  Request, Server, Moment, call_of, supplied, resolved_target, consented, refuse_consent, execute,
  call_tool_secured,
}
use ultranix_mcp.Tools.Pipeline.Branches.{
  IsCoherent, IsConsented, SameSettings, consented-SameSettings, call_refused,
}
use ultranix_mcp.Tools.Pipeline.Gates.{call-executes}

-- The request of a retry: the token joins the arguments.
abbrev pub with_token : String → Request → Request
with_token token q = record q {
  args = members (insert "consent_token" (string token) (entries q.args));
}

module _ (token : String) (q : Request) where
  supplied-with_token : supplied (with_token token q) ≡ some token
  supplied-with_token =
      rw
        (
          entries-members (insert "consent_token" (string token) (entries q.args)),
          lookup-insert_self "consent_token" (string token) (entries q.args),
        )
        refl

  lookup-with_token :
      (k : String)
      → ("consent_token" == k) ≡ false
      → lookup k (entries (with_token token q).args) ≡ lookup k (entries q.args)
  lookup-with_token k e =
      rw
        (
          entries-members (insert "consent_token" (string token) (entries q.args)),
          lookup-insert "consent_token" k (string token) (entries q.args),
          e,
        )
        refl

  is_destructive-with_token :
      is_destructive q.name (with_token token q).args ≡ is_destructive q.name q.args
  unfolding is_destructive is_close
  is_destructive-with_token = rw (lookup-with_token "action" refl) refl

  args_hash-with_token :
      (h : Hashing) → args_hash h (object (with_token token q).args) ≡ args_hash h (object q.args)
  args_hash-with_token h =
      args_hash-insert h (string token) (entries q.args)
      ∙ ap (λ ms. args_hash h (object ms)) (members-entries q.args)

-- What a refusal for want of consent leaves.
module _ (h : Hashing) (t : Texts) (m : Moment) (q : Request) (s : Server) where
  abbrev issued : String
  issued = generate_token m.bytes

  refuse_consent-reply :
      (refuse_consent h t m q s).1 ≡ failure (consent_required issued expires_in_ms q.name)
  unfolding refuse_consent challenge
  refuse_consent-reply = refl

  refuse_consent-lookup :
      lookup issued (refuse_consent h t m q s).0.gate.tokens
      ≡ some (scope h m.challenged_at (call_of t m q))
  unfolding refuse_consent challenge
  refuse_consent-lookup = lookup-insert_self issued _ _

  refuse_consent-SameSettings : SameSettings s (refuse_consent h t m q s).0
  unfolding refuse_consent challenge
  refuse_consent-SameSettings = record {
    same_ttl = refl;
    same_gate = refl;
    same_bypass = refl;
    same_categories = refl;
    same_policy = refl;
  }

SameSettings_trans : (s u v : Server) → SameSettings s u → SameSettings u v → SameSettings s v
SameSettings_trans s u v a b = record {
  same_ttl = b.same_ttl ∙ a.same_ttl;
  same_gate = b.same_gate ∙ a.same_gate;
  same_bypass = b.same_bypass ∙ a.same_bypass;
  same_categories = b.same_categories ∙ a.same_categories;
  same_policy = b.same_policy ∙ a.same_policy;
}

module _ (h : Hashing) (t : Texts) (summary : String → Reply → String)
    (exec : Members → Server → Reply) (dispatch : Request → Server → Server × Reply) (m : Moment)
    (q : Request) (s : Server) (coherent : IsCoherent s)
    (in_category : category_gate q.name s.categories ≡ none)
    (allowed : allows (resolve s.policy q.key_id) q.name ≡ true)
    (refused : (consented h t m q s).1 ≡ false) where
  abbrev pub refused_server : Server
  refused_server = (call_tool_secured h t summary exec dispatch m q s).0

  refused-eq :
      call_tool_secured h t summary exec dispatch m q s
      ≡ refuse_consent h t m q (consented h t m q s).0
  refused-eq = call_refused h t summary exec dispatch m q s in_category allowed refused

  refused-SameSettings : SameSettings s refused_server
  refused-SameSettings =
      subst (λ r. SameSettings s r.0) (sym refused-eq)
        (SameSettings_trans s (consented h t m q s).0 _ (consented-SameSettings h t m q s)
          (refuse_consent-SameSettings h t m q (consented h t m q s).0))

  module _ (later : Moment) (in_time : later.verified_at - m.challenged_at ≤ s.gate.ttl)
      (same_target : resolved_target t later (with_token (generate_token m.bytes) q)
        ≡ resolved_target t m q) where
    abbrev pub retry : Request
    retry = with_token (generate_token m.bytes) q

    retry-IsConsented : IsConsented h t later retry refused_server
    unfolding scope
    retry-IsConsented = record {
      token = generate_token m.bytes;
      presented = supplied-with_token (generate_token m.bytes) q;
      held = scope h m.challenged_at (call_of t m q);
      found =
          ap (λ r. lookup (generate_token m.bytes) r.0.gate.tokens) refused-eq
          ∙ refuse_consent-lookup h t m q (consented h t m q s).0;
      bound = record {
        young =
            subst (λ n. later.verified_at - m.challenged_at ≤ n) (sym refused-SameSettings.same_ttl)
              in_time;
        caller = refl;
        tool = refl;
        args = sym (args_hash-with_token (generate_token m.bytes) q h);
        target = sym same_target;
      };
    }

    -- On a server whose gate has the server's bypass flag, a call that passes the category filter
    -- and its caller's role and is refused for want of consent is answered with a token. The same
    -- call with that token among its arguments, from the same caller, for the same window and
    -- within the gate's time, is executed next and gets the tool's reply.
    pub refused-retry_executes :
        ((call_tool_secured h t summary exec dispatch m q s).1
          ≡ failure (consent_required (generate_token m.bytes) expires_in_ms q.name))
        × ((call_tool_secured h t summary exec dispatch later retry refused_server).1
            ≡ (execute h t summary exec dispatch later retry
                (consented h t later retry refused_server).0).1)
    unfolding IsCoherent
    refused-retry_executes = (
      ap (λ r. r.1) refused-eq ∙ (refuse_consent-reply h t m q (consented h t m q s).0),
      call-executes h t summary exec dispatch later retry refused_server
          (refused-SameSettings.same_gate ∙ coherent ∙ sym refused-SameSettings.same_bypass)
          (record {
            in_category =
                ap (category_gate q.name) refused-SameSettings.same_categories ∙ in_category;
            allowed =
                ap (λ p. allows (resolve p q.key_id) q.name) refused-SameSettings.same_policy
                ∙ allowed;
            consent = inr (inr retry-IsConsented);
          }),
    )
