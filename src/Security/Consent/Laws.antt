-- ===== src/Security/Consent/Laws.antt =====
-- A consent token is bound to its call, lives for the gate's time, and is spent by its first use.
use ultranix_mcp.Prelude.{
  nat_eq, string_eq, option_beq_iff, Option-cases, ℕ, ◌-◌, ◌≤◌, String, ◌≡◌, sym, ◌∙◌, ◌≢◌, ◌↔◌,
  inl, inr, true, false, some, List, arith,
}
use text.Mathlib.TextEquality.{eq_iff}
use ultranix_mcp.Prelude.Dict.{
  lookup, remove, lookup-insert_self, lookup-remove, lookup-remove_self,
}
use ultranix_mcp.Security.Hashing.{Hashing}
use ultranix_mcp.Security.Canonical.{args_hash}
use ultranix_mcp.Security.Consent.{
  TokenRecord, ConsentGate, Call, caller_id, generate_token, scope, challenge, admits, admits_found,
  verify,
}

-- The scope that a call is bound to, and its age.
pub record IsBound (h : Hashing) (ttl now : ℕ) (c : Call) (r : TokenRecord) : Type 0 where
  pub young : now - r.issued ≤ ttl
  pub caller : r.caller ≡ caller_id c.key_id c.session_id
  pub tool : r.tool ≡ c.tool
  pub args : r.args ≡ args_hash h c.args
  pub target : r.resolved_target ≡ c.target

module _ (h : Hashing) (ttl now : ℕ) (c : Call) (r : TokenRecord) where
  admits_sound : admits h ttl now c r ≡ true → IsBound h ttl now c r
  unfolding admits
  admits_sound e = ground (
    arith,
    eq_iff r.caller (caller_id c.key_id c.session_id),
    eq_iff r.tool c.tool,
    eq_iff r.args (args_hash h c.args),
    option_beq_iff r.resolved_target c.target,
  )

  admits_complete : IsBound h ttl now c r → admits h ttl now c r ≡ true
  unfolding admits
  admits_complete b = ground (
    arith,
    eq_iff r.caller (caller_id c.key_id c.session_id),
    eq_iff r.tool c.tool,
    eq_iff r.args (args_hash h c.args),
    option_beq_iff r.resolved_target c.target,
  )

module _ (h : Hashing) (token : String) (now : ℕ) (c : Call) (g : ConsentGate)
    (gated : g.allow_destructive ≡ false) where
  verify_answer : (verify h token now c g).1 ≡ admits_found h g.ttl now c (lookup token g.tokens)
  unfolding verify
  verify_answer = ground arith

  verify_tokens : (verify h token now c g).0.tokens ≡ remove token g.tokens
  unfolding verify
  verify_tokens = ground arith

  verify_gated : (verify h token now c g).0.allow_destructive ≡ false
  unfolding verify
  verify_gated = ground arith

module _ (h : Hashing) (token : String) (now : ℕ) (c : Call) (g : ConsentGate)
    (gated : g.allow_destructive ≡ false) where
  -- With the gate in force, a call passes exactly when the presented token is held and its record is
  -- young enough and bound to the caller, the tool, the hash of the arguments and the target.
  pub verify_iff :
      ((verify h token now c g).1 ≡ true)
      ↔ ((r : TokenRecord) × (lookup token g.tokens ≡ some r) × IsBound h g.ttl now c r)
  verify_iff = elim (Option-cases (lookup token g.tokens)) [
    | inl missing ↦ (λ e. ground (arith, verify_answer h token now c g gated), λ (r, found, b). cc)
    | inr (r, found) ↦ (
      λ e. (
        r,
        found,
        admits_sound h g.ttl now c r (ground (arith, verify_answer h token now c g gated)),
      ),
      λ (s, held, b).
          ground (arith, verify_answer h token now c g gated, admits_complete h g.ttl now c s b),
    )
  ]

  -- With the gate in force, whatever the answer, the token is spent: presented again, by whoever
  -- and with whatever call, it is refused. Every other token keeps its record, an expired one too.
  pub verify_single_use :
      (later : ℕ) (d : Call)
      → ((verify h token later d (verify h token now c g).0).1 ≡ false)
        × ((other : String)
            → other ≢ token
            → lookup other (verify h token now c g).0.tokens ≡ lookup other g.tokens)
  verify_single_use later d = (
    verify_answer h token later d _ (verify_gated h token now c g gated)
        ∙ rw (verify_tokens h token now c g gated) (rw (lookup-remove_self token g.tokens)),
    λ other differs.
        rw (verify_tokens h token now c g gated)
          (ground (arith, lookup-remove token other g.tokens, eq_iff token other)),
  )

module _ (h : Hashing) (bytes : List ℕ) (now later : ℕ) (c d : Call) (g : ConsentGate)
    (gated : g.allow_destructive ≡ false) where
  abbrev issued_token : String
  issued_token = (challenge h bytes now c g).1.token

  challenge_answer :
      (verify h issued_token later d (challenge h bytes now c g).0).1
      ≡ admits h g.ttl later d (scope h now c)
  unfolding challenge
  challenge_answer =
      verify_answer h issued_token later d (challenge h bytes now c g).0 gated
      ∙ rw (lookup-insert_self (generate_token bytes) (scope h now c))

  -- The token of a challenge, presented on the next call: it passes exactly when the call has the
  -- challenged scope and comes within the gate's time.
  pub challenge-verify :
      ((verify h issued_token later d (challenge h bytes now c g).0).1 ≡ true) ↔ (
        (later - now ≤ g.ttl)
        × (caller_id c.key_id c.session_id ≡ caller_id d.key_id d.session_id)
        × (c.tool ≡ d.tool)
        × (args_hash h c.args ≡ args_hash h d.args)
        × (c.target ≡ d.target))
  unfolding scope
  challenge-verify = (
    λ e.
        let b = admits_sound h g.ttl later d (scope h now c) (sym challenge_answer ∙ e) in
        (b.young, b.caller, b.tool, b.args, b.target),
    λ (young, caller, tool, args, target).
        challenge_answer
        ∙ admits_complete h g.ttl later d (scope h now c)
            (record { young = young; caller = caller; tool = tool; args = args; target = target }),
  )
