-- ===== src/Tools/Pipeline/Gates.antt =====
-- The gates of a call: what is executed, and what a refusal is.
use ultranix_mcp.Prelude.{
  ◌==◌, nat_eq, string_eq, Bool-cases, Option-cases, String, ◌≡◌, refl, sym, ap, ◌∙◌, subst, ◌⊎◌,
  inl, inr, true, false, none,
}
use ultranix_mcp.Json.{Members}
use ultranix_mcp.Security.Hashing.{Hashing}
use ultranix_mcp.Security.Policy.{resolve, allows}
use ultranix_mcp.Tools.Catalog.{category_gate, is_destructive}
use ultranix_mcp.Tools.Windows.{Texts}
use ultranix_mcp.Tools.Replies.{
  Reply, failure, ErrorData, category_disabled, policy_denied, consent_required, method_not_found,
  consent_required_code, read_only_mode, not_in_tool_list,
}
use ultranix_mcp.Tools.Pipeline.{
  Request, Server, Moment, consented, refuse_consent, execute, perform, deny, denial_reason,
  call_tool_secured,
}
use ultranix_mcp.Tools.Pipeline.Branches.{
  IsCoherent, IsConsented, consented_free, consented_iff, call_shut, call_denied, call_refused,
  call_performed,
}

-- What a call needs to be executed.
pub record IsAdmitted (h : Hashing) (t : Texts) (m : Moment) (q : Request) (s : Server)
    : Type 0 where
  pub in_category : category_gate q.name s.categories ≡ none
  pub allowed : allows (resolve s.policy q.key_id) q.name ≡ true
  pub consent :
      (is_destructive q.name q.args ≡ false) ⊎ (s.allow_destructive ≡ true) ⊎ IsConsented h t m q s

module _ (h : Hashing) (t : Texts) (m : Moment) (q : Request) (s : Server)
    (coherent : IsCoherent s) where
  consented-passes :
      (is_destructive q.name q.args ≡ false) ⊎ (s.allow_destructive ≡ true) ⊎ IsConsented h t m q s
      → (consented h t m q s).1 ≡ true
  consented-passes (inl free) = ap (λ r. r.1) (consented_free h t m q s (inl free))
  consented-passes (inr (inl free)) = ap (λ r. r.1) (consented_free h t m q s (inr free))
  consented-passes (inr (inr c)) = elim (Bool-cases s.allow_destructive) [
    | inl free ↦ ap (λ r. r.1) (consented_free h t m q s (inr free))
    | inr gated ↦ elim (Bool-cases (is_destructive q.name q.args)) [
      | inl d ↦ (consented_iff h t m q s coherent d gated).1 c
      | inr d ↦ ap (λ r. r.1) (consented_free h t m q s (inl d))
    ]
  ]

  passes-consented :
      (consented h t m q s).1 ≡ true
      → (is_destructive q.name q.args ≡ false)
        ⊎ (s.allow_destructive ≡ true)
        ⊎ IsConsented h t m q s
  passes-consented passed = elim (Bool-cases s.allow_destructive) [
    | inl free ↦ inr (inl free)
    | inr gated ↦ elim (Bool-cases (is_destructive q.name q.args)) [
      | inl d ↦ inr (inr ((consented_iff h t m q s coherent d gated).0 passed))
      | inr d ↦ inl d
    ]
  ]

-- The codes of the gates' refusals.
pub IsRefusal : Reply → Type 0
IsRefusal r =
    (e : ErrorData) × (r ≡ failure e)
    × ((e.code ≡ method_not_found)
        ⊎ (e.code ≡ read_only_mode)
        ⊎ (e.code ≡ not_in_tool_list)
        ⊎ (e.code ≡ consent_required_code))

module _ (h : Hashing) (t : Texts) (m : Moment) (q : Request) (s : Server) where
  pub deny-IsRefusal : IsRefusal (deny h m q s).1
  unfolding deny IsRefusal policy_denied
  deny-IsRefusal =
      elim (Bool-cases (denial_reason (resolve s.policy q.key_id) q.name == "readonly_mode")) [
        | inl e ↦ (_, refl, rw e (inr (inl refl)))
        | inr e ↦ (_, refl, rw e (inr (inr (inl refl))))
      ]

  pub refuse_consent-IsRefusal : IsRefusal (refuse_consent h t m q s).1
  unfolding refuse_consent IsRefusal consent_required
  refuse_consent-IsRefusal = (_, refl, inr (inr (inr refl)))

  pub category_disabled-IsRefusal :
      (category : String) → IsRefusal (failure (category_disabled q.name category))
  unfolding IsRefusal category_disabled
  category_disabled-IsRefusal category = (_, refl, inl refl)

-- A blocked call comes to a refusal that is the same for all tools.
blocked-IsRefusal :
    (h : Hashing) (t : Texts) (m : Moment) (q : Request) (s : Server)
    → IsCoherent s
    → ¬ IsAdmitted h t m q s
    → (answer : Server × Reply) × IsRefusal answer.1
      × ((summary : String → Reply → String) (exec : Members → Server → Reply)
            (dispatch : Request → Server → Server × Reply)
          → call_tool_secured h t summary exec dispatch m q s ≡ answer)
blocked-IsRefusal h t m q s coherent blocked =
    elim (Option-cases (category_gate q.name s.categories)) [
      | inr (category, e) ↦ (
        _,
        category_disabled-IsRefusal h t m q s category,
        λ summary exec dispatch. call_shut h t summary exec dispatch m q s category e,
      )
      | inl e ↦ elim (Bool-cases (allows (resolve s.policy q.key_id) q.name)) [
        | inr a ↦ (
          _,
          deny-IsRefusal h t m q s,
          λ summary exec dispatch. call_denied h t summary exec dispatch m q s e a,
        )
        | inl a ↦ elim (Bool-cases (consented h t m q s).1) [
          | inr c ↦ (
            _,
            refuse_consent-IsRefusal h t m q (consented h t m q s).0,
            λ summary exec dispatch. call_refused h t summary exec dispatch m q s e a c,
          )
          | inl c ↦ absurd (
              blocked (record {
                in_category = e;
                allowed = a;
                consent = passes-consented h t m q s coherent c;
              }))
        ]
      ]
    ]

module _ (h : Hashing) (t : Texts) (summary : String → Reply → String)
    (exec : Members → Server → Reply) (dispatch : Request → Server → Server × Reply) (m : Moment)
    (q : Request) (s : Server) where
  call-admitted :
      IsCoherent s
      → IsAdmitted h t m q s
      → call_tool_secured h t summary exec dispatch m q s
        ≡ perform h t summary exec dispatch m q (consented h t m q s).0
  call-admitted coherent a =
      call_performed h t summary exec dispatch m q s a.in_category a.allowed
        (consented-passes h t m q s coherent a.consent)

  -- On a server whose gate has the server's bypass flag, a call that passes the category filter,
  -- its caller's role and the consent gate is executed, in the state that the consent step leaves,
  -- and its caller gets the tool's own reply.
  pub call-executes :
      IsCoherent s
      → IsAdmitted h t m q s
      → (call_tool_secured h t summary exec dispatch m q s).1
        ≡ (execute h t summary exec dispatch m q (consented h t m q s).0).1
  unfolding perform
  call-executes coherent a = ap (λ r. r.1) (call-admitted coherent a)

  -- On a server whose gate has the server's bypass flag, a call that fails the category filter,
  -- its caller's role or the consent gate is answered with a refusal, and neither the tools nor
  -- the summary of their results have a part in the reply or in the state it leaves.
  pub call-refuses :
      (other_summary : String → Reply → String) (other_exec : Members → Server → Reply)
      (other_dispatch : Request → Server → Server × Reply)
      → IsCoherent s
      → ¬ IsAdmitted h t m q s
      → IsRefusal (call_tool_secured h t summary exec dispatch m q s).1
        × (call_tool_secured h t summary exec dispatch m q s
            ≡ call_tool_secured h t other_summary other_exec other_dispatch m q s)
  call-refuses other_summary other_exec other_dispatch coherent blocked =
      let (answer, refusal, same) = blocked-IsRefusal h t m q s coherent blocked in
      (
        subst (λ r. IsRefusal r.1) (sym (same summary exec dispatch)) refusal,
        same summary exec dispatch ∙ sym (same other_summary other_exec other_dispatch),
      )
