-- ===== src/Tools/Pipeline/Branches.antt =====
-- The branches of `call_tool_secured`, and what the consent step leaves alone.
use ultranix_mcp.Prelude.{
  nat_eq, string_eq, Bool-cases, Option-cases, ℕ, String, ◌≡◌, refl, sym, ◌∙◌, ◌↔◌, ◌⊎◌, inl, inr,
  true, false, not, ◌&&◌, Option, none, some, arith,
}
use ultranix_mcp.Prelude.Dict.{lookup}
use ultranix_mcp.Json.{Members}
use ultranix_mcp.Security.Hashing.{Hashing}
use ultranix_mcp.Security.Consent.{ConsentGate, Call, verify}
use ultranix_mcp.Security.Consent.Laws.{IsBound, verify_iff}
use ultranix_mcp.Security.Consent.{TokenRecord}
use ultranix_mcp.Security.Policy.{resolve, allows}
use ultranix_mcp.Tools.Catalog.{category_gate, is_destructive}
use ultranix_mcp.Tools.Windows.{Texts}
use ultranix_mcp.Tools.Replies.{Reply, failure, category_disabled}
use ultranix_mcp.Tools.Pipeline.{
  Request, Server, Moment, note, call_of, supplied, verified, consented, refuse_consent, perform,
  deny, call_tool_secured,
}

-- The gate's bypass flag is the server's, as `SecurityContext::new` sets both.
unfoldable pub IsCoherent : Server → Type 0
IsCoherent s = s.gate.allow_destructive ≡ s.allow_destructive

-- The token that a destructive call presents is held and bound to the call.
pub record IsConsented (h : Hashing) (t : Texts) (m : Moment) (q : Request) (s : Server)
    : Type 0 where
  pub token : String
  pub presented : supplied q ≡ some token
  pub held : TokenRecord
  pub found : lookup token s.gate.tokens ≡ some held
  pub bound : IsBound h s.gate.ttl m.verified_at (call_of t m q) held

-- What the consent step answers and changes.
module _ (h : Hashing) (t : Texts) (m : Moment) (q : Request) (s : Server) where
  pub consented_free :
      (is_destructive q.name q.args ≡ false) ⊎ (s.allow_destructive ≡ true)
      → consented h t m q s ≡ (s, true)
  unfolding consented
  consented_free (inl e) = rw e refl
  consented_free (inr e) = elim (Bool-cases (is_destructive q.name q.args)) [
    | inl d ↦ rw (d, e) refl
    | inr d ↦ rw d refl
  ]

  consented_gated :
      is_destructive q.name q.args ≡ true
      → s.allow_destructive ≡ false
      → consented h t m q s ≡ verified h t m q (supplied q) s
  unfolding consented
  consented_gated d e = rw (d, e) refl

  consented-none :
      is_destructive q.name q.args ≡ true
      → s.allow_destructive ≡ false
      → supplied q ≡ none
      → (consented h t m q s).1 ≡ false
  consented-none d e given = rw (consented_gated d e) (rw given refl)

  consented-some :
      (token : String)
      → is_destructive q.name q.args ≡ true
      → s.allow_destructive ≡ false
      → supplied q ≡ some token
      → (consented h t m q s).1 ≡ (verify h token m.verified_at (call_of t m q) s.gate).1
  consented-some token d e given = rw (consented_gated d e) (rw given refl)

-- With the gate in force, the consent step passes exactly the calls that are consented to.
module _ (h : Hashing) (t : Texts) (m : Moment) (q : Request) (s : Server) where
  pub consented_iff :
      IsCoherent s
      → is_destructive q.name q.args ≡ true
      → s.allow_destructive ≡ false
      → ((consented h t m q s).1 ≡ true) ↔ IsConsented h t m q s
  unfolding IsCoherent
  consented_iff coherent d e = elim (Option-cases (supplied q)) [
    | inl given ↦ (λ passed. cc (consented-none h t m q s d e given), λ c. cc (c.presented))
    | inr (token, given) ↦ (
      λ passed.
          let (r, found, bound) =
            (verify_iff h token m.verified_at (call_of t m q) s.gate (coherent ∙ e)).0
              (sym (consented-some h t m q s token d e given) ∙ passed) in
          record { token = token; presented = given; held = r; found = found; bound = bound },
      λ c.
          consented-some h t m q s c.token d e c.presented
          ∙ (verify_iff h c.token m.verified_at (call_of t m q) s.gate (coherent ∙ e)).1
              (c.held, c.found, c.bound),
    )
  ]

-- Only the gate changes in the consent step.
module _ (h : Hashing) (t : Texts) (m : Moment) (q : Request) where
  verified_frame :
      (o : Option String) (s : Server)
      → ((verified h t m q o s).0.audit ≡ s.audit)
        × ((verified h t m q o s).0.samples ≡ s.samples)
        × ((verified h t m q o s).0.actions ≡ s.actions)
        × ((verified h t m q o s).0.allow_destructive ≡ s.allow_destructive)
  verified_frame none s = (refl, refl, refl, refl)
  verified_frame (some token) s = (refl, refl, refl, refl)

  pub consented_frame :
      (s : Server)
      → ((consented h t m q s).0.audit ≡ s.audit)
        × ((consented h t m q s).0.samples ≡ s.samples)
        × ((consented h t m q s).0.actions ≡ s.actions)
        × ((consented h t m q s).0.allow_destructive ≡ s.allow_destructive)
  unfolding consented
  consented_frame s = elim (Bool-cases (is_destructive q.name q.args && not s.allow_destructive)) [
    | inl e ↦ rw e (verified_frame (supplied q) s)
    | inr e ↦ rw e (refl, refl, refl, refl)
  ]

-- Whether a gate serves a server of the same settings.
pub record SameSettings (s u : Server) : Type 0 where
  pub same_ttl : u.gate.ttl ≡ s.gate.ttl
  pub same_gate : u.gate.allow_destructive ≡ s.gate.allow_destructive
  pub same_bypass : u.allow_destructive ≡ s.allow_destructive
  pub same_categories : u.categories ≡ s.categories
  pub same_policy : u.policy ≡ s.policy

abbrev pub kept_settings :
    (s : Server) (g : ConsentGate)
    → g.ttl ≡ s.gate.ttl
    → g.allow_destructive ≡ s.gate.allow_destructive
    → SameSettings s (record s { gate = g })
kept_settings s g a b = record {
  same_ttl = a;
  same_gate = b;
  same_bypass = refl;
  same_categories = refl;
  same_policy = refl;
}

verify-settings :
    (h : Hashing) (token : String) (now : ℕ) (c : Call) (g : ConsentGate)
    → ((verify h token now c g).0.ttl ≡ g.ttl)
      × ((verify h token now c g).0.allow_destructive ≡ g.allow_destructive)
unfolding verify
verify-settings h token now c g = ground arith

module _ (h : Hashing) (t : Texts) (m : Moment) (q : Request) where
  verified-SameSettings : (o : Option String) (s : Server) → SameSettings s (verified h t m q o s).0
  verified-SameSettings none s = kept_settings s s.gate refl refl
  verified-SameSettings (some token) s =
      let (a, b) = verify-settings h token m.verified_at (call_of t m q) s.gate in
      kept_settings s _ a b

  pub consented-SameSettings : (s : Server) → SameSettings s (consented h t m q s).0
  unfolding consented
  consented-SameSettings s =
      elim (Bool-cases (is_destructive q.name q.args && not s.allow_destructive)) [
        | inl e ↦ rw e (verified-SameSettings (supplied q) s)
        | inr e ↦ rw e (kept_settings s s.gate refl refl)
      ]

-- What a call comes to on each branch.
module _ (h : Hashing) (t : Texts) (summary : String → Reply → String)
    (exec : Members → Server → Reply) (dispatch : Request → Server → Server × Reply) (m : Moment)
    (q : Request) (s : Server) where
  pub call_shut :
      (category : String)
      → category_gate q.name s.categories ≡ some category
      → call_tool_secured h t summary exec dispatch m q s
        ≡ (note h q "error" m.elapsed none none s, failure (category_disabled q.name category))
  unfolding call_tool_secured
  call_shut category e = rw e refl

  pub call_denied :
      category_gate q.name s.categories ≡ none
      → allows (resolve s.policy q.key_id) q.name ≡ false
      → call_tool_secured h t summary exec dispatch m q s ≡ deny h m q s
  unfolding call_tool_secured
  call_denied e a = rw (e, a) refl

  pub call_refused :
      category_gate q.name s.categories ≡ none
      → allows (resolve s.policy q.key_id) q.name ≡ true
      → (consented h t m q s).1 ≡ false
      → call_tool_secured h t summary exec dispatch m q s
        ≡ refuse_consent h t m q (consented h t m q s).0
  unfolding call_tool_secured
  call_refused e a c = rw (e, a, c) refl

  pub call_performed :
      category_gate q.name s.categories ≡ none
      → allows (resolve s.policy q.key_id) q.name ≡ true
      → (consented h t m q s).1 ≡ true
      → call_tool_secured h t summary exec dispatch m q s
        ≡ perform h t summary exec dispatch m q (consented h t m q s).0
  unfolding call_tool_secured
  call_performed e a c = rw (e, a, c) refl
