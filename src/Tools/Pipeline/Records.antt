-- ===== src/Tools/Pipeline/Records.antt =====
-- One audit record and one metric sample for every call.
use ultranix_mcp.Prelude.{
  nat_eq, string_eq, Bool-cases, Option-cases, and-eq-true, String, ◌≡◌, refl, ap, ◌∙◌, ◌⊎◌, inl,
  inr, Bool, true, false, not, ◌&&◌, Option, none, ◌∷◌, arith,
}
use ultranix_mcp.Prelude.Dict.{lookup, remove, lookup-remove_self}
use ultranix_mcp.Json.{Members, object, entries, entries-members}
use ultranix_mcp.Security.Hashing.{Hashing}
use ultranix_mcp.Security.Canonical.{args_hash}
use ultranix_mcp.Security.Consent.{caller_id}
use ultranix_mcp.Security.Policy.{resolve, allows}
use ultranix_mcp.Tools.Catalog.{category_gate, is_unrecorded, metric_label}
use ultranix_mcp.Tools.Windows.{Texts}
use ultranix_mcp.Tools.Replies.{Reply, outcome_of}
use ultranix_mcp.Tools.Pipeline.{
  Request, Server, Moment, AuditEntry, Sample, NewActionRecord, note, consent_stamp, consented,
  refuse_consent, action, remember, execute, perform, deny, call_tool_secured,
}
use ultranix_mcp.Tools.Pipeline.Branches.{
  consented_frame, call_shut, call_denied, call_refused, call_performed,
}
use ultranix_mcp.Tools.Pipeline.Gates.{
  IsRefusal, deny-IsRefusal, refuse_consent-IsRefusal, category_disabled-IsRefusal,
}

not-eq-true : (b : Bool) → not b ≡ true → b ≡ false
not-eq-true true h = cc
not-eq-true false h = refl

-- One audit record and one metric sample tell of this call and its outcome.
pub record IsRecorded (h : Hashing) (q : Request) (outcome : String) (before after : Server)
    : Type 0 where
  pub told : AuditEntry
  pub counted : Sample
  pub audit_grew : after.audit ≡ told ∷ before.audit
  pub samples_grew : after.samples ≡ counted ∷ before.samples
  pub tool : told.tool ≡ q.name
  pub args_hash : told.args_hash ≡ args_hash h (object q.args)
  pub caller : (told.key_id ≡ q.key_id) × (told.caller ≡ caller_id q.key_id q.session_id)
  pub same_outcome : (told.outcome ≡ outcome) × (counted.outcome ≡ outcome)
  pub label : counted.label ≡ metric_label q.name

module _ (h : Hashing) (m : Moment) (q : Request) where
  note-IsRecorded :
      (outcome : String) (consent reason : Option String) (s u : Server)
      → u.audit ≡ (note h q outcome m.elapsed consent reason s).audit
      → u.samples ≡ (note h q outcome m.elapsed consent reason s).samples
      → IsRecorded h q outcome s u
  note-IsRecorded outcome consent reason s u a b = record {
    told = _;
    counted = _;
    audit_grew = a;
    samples_grew = b;
    tool = refl;
    args_hash = refl;
    caller = (refl, refl);
    same_outcome = (refl, refl);
    label = refl;
  }

  IsRecorded-before :
      (outcome : String) (s v u : Server)
      → v.audit ≡ s.audit
      → v.samples ≡ s.samples
      → IsRecorded h q outcome v u
      → IsRecorded h q outcome s u
  IsRecorded-before outcome s v u a b r = record {
    told = r.told;
    counted = r.counted;
    tool = r.tool;
    args_hash = r.args_hash;
    caller = r.caller;
    same_outcome = r.same_outcome;
    label = r.label;
    audit_grew = r.audit_grew ∙ ap (λ l. r.told ∷ l) a;
    samples_grew = r.samples_grew ∙ ap (λ l. r.counted ∷ l) b;
  }

  deny-IsRecorded : (s : Server) → IsRecorded h q "denied" s (deny h m q s).0
  unfolding deny
  deny-IsRecorded s = note-IsRecorded "denied" none _ s (deny h m q s).0 refl refl

  refuse_consent-IsRecorded :
      (t : Texts) (s : Server) → IsRecorded h q "consent_required" s (refuse_consent h t m q s).0
  unfolding refuse_consent
  refuse_consent-IsRecorded t s =
      note-IsRecorded "consent_required" none none s (refuse_consent h t m q s).0 refl refl

-- How a call is recorded: a refused one on the server as it was, and an executed one on the server as
-- the tool left it.
pub IsToldOnce : Hashing → Request → Server → Server × Reply → Server × Reply → Type 0
IsToldOnce h q s executed answer =
    ((outcome : String) × ((outcome ≡ "error")
        ⊎ (outcome ≡ "denied")
        ⊎ (outcome ≡ "consent_required"))
      × IsRefusal answer.1
      × IsRecorded h q outcome s answer.0)
    ⊎ ((answer.1 ≡ executed.1) × IsRecorded h q (outcome_of answer.1) executed.0 answer.0)

module _ (h : Hashing) (t : Texts) (summary : String → Reply → String)
    (exec : Members → Server → Reply) (dispatch : Request → Server → Server × Reply) (m : Moment)
    (q : Request) (s : Server) where
  perform-reply :
      (u : Server)
      → (perform h t summary exec dispatch m q u).1 ≡ (execute h t summary exec dispatch m q u).1
  unfolding perform
  perform-reply u = refl

  remember-frame :
      (reply : Reply) (u : Server)
      → ((remember summary m q reply u).audit ≡ u.audit)
        × ((remember summary m q reply u).samples ≡ u.samples)
  unfolding remember
  remember-frame reply u = ground arith

  perform-IsRecorded :
      (u : Server)
      → IsRecorded h q
          (outcome_of (perform h t summary exec dispatch m q u).1)
          (execute h t summary exec dispatch m q u).0
          (perform h t summary exec dispatch m q u).0
  unfolding perform
  perform-IsRecorded u =
      let reply : Reply = (execute h t summary exec dispatch m q u).1 in
      note-IsRecorded h m q (outcome_of reply) (consent_stamp q u) none
        (execute h t summary exec dispatch m q u).0 (perform h t summary exec dispatch m q u).0
        (remember-frame reply _).0 (remember-frame reply _).1

  -- Every call, refused or executed, leaves exactly one audit record and one metric sample of its own,
  -- with its tool, the hash of its arguments, its caller and its outcome. A refused call adds them to
  -- what the server held; an executed call adds them to what the tool left, whose reply it returns.
  pub call-IsToldOnce :
      IsToldOnce h q s
        (execute h t summary exec dispatch m q (consented h t m q s).0)
        (call_tool_secured h t summary exec dispatch m q s)
  unfolding IsToldOnce
  call-IsToldOnce = elim (Option-cases (category_gate q.name s.categories)) [
    | inr (category, e) ↦ rw (call_shut h t summary exec dispatch m q s category e) (
        inl (
          "error",
          inl refl,
          category_disabled-IsRefusal h t m q s category,
          note-IsRecorded h m q "error" none none s _ refl refl,
        ))
    | inl e ↦ elim (Bool-cases (allows (resolve s.policy q.key_id) q.name)) [
      | inr a ↦
          rw (call_denied h t summary exec dispatch m q s e a)
            (inl ("denied", inr (inl refl), deny-IsRefusal h t m q s, deny-IsRecorded h m q s))
      | inl a ↦ elim (Bool-cases (consented h t m q s).1) [
        | inr c ↦
            let (audit, samples, actions, bypass) = consented_frame h t m q s in
            rw (call_refused h t summary exec dispatch m q s e a c) (
              inl (
                "consent_required",
                inr (inr refl),
                refuse_consent-IsRefusal h t m q (consented h t m q s).0,
                IsRecorded-before h m q "consent_required" s (consented h t m q s).0 _ audit samples
                    (refuse_consent-IsRecorded h m q t (consented h t m q s).0),
              ))
        | inl c ↦ rw (call_performed h t summary exec dispatch m q s e a c) (
            inr (perform-reply (consented h t m q s).0, perform-IsRecorded (consented h t m q s).0))
      ]
    ]
  ]

  remember-actions :
      (reply : Reply) (u : Server)
      → ((remember summary m q reply u).actions ≡ u.actions)
        ⊎ ((remember summary m q reply u).actions ≡ action summary m q reply ∷ u.actions)
          × (is_unrecorded q.name q.args ≡ false)
  unfolding remember
  remember-actions reply u =
      elim (Bool-cases (not (is_unrecorded q.name q.args) && u.has_history)) [
        | inl e ↦ inr (rw e refl, not-eq-true _ (and-eq-true _ _ e).0)
        | inr e ↦ inl (rw e refl)
      ]

  -- What an executed call adds to the history, if anything, is one record, of a tool that is recorded,
  -- and it never holds the consent token.
  pub perform-history :
      (u : Server)
      → ((perform h t summary exec dispatch m q u).0.actions
          ≡ (execute h t summary exec dispatch m q u).0.actions)
        ⊎ ((a : NewActionRecord) × ((perform h t summary exec dispatch m q u).0.actions
              ≡ a ∷ (execute h t summary exec dispatch m q u).0.actions)
            × (a.tool ≡ q.name)
            × (is_unrecorded q.name q.args ≡ false)
            × (lookup "consent_token" (entries a.args) ≡ none))
  unfolding perform
  perform-history u = elim (remember-actions (execute h t summary exec dispatch m q u).1 _) [
    | inl same ↦ inl same
    | inr (grew, recorded) ↦ inr (
      _,
      grew,
      refl,
      recorded,
      rw (entries-members (remove "consent_token" (entries q.args)))
          (lookup-remove_self "consent_token" (entries q.args)),
    )
  ]
