-- ===== src/Security/Consent.antt =====
-- src/security/consent.rs: the gate that hands out single-use tokens for destructive calls.
-- Time is an argument of each call (a monotonic clock in milliseconds); the random bytes of a token
-- are an argument too. The mutex makes each call one step on the gate.
pub mod Laws
use ultranix_mcp.Prelude.{
  ltb, leb, nat_beq, nat_beq_iff, if◌then◌else◌, ltb→lt, leb→le, Equality, ◌==◌, nat_eq, string_eq,
  option_beq, option_beq_iff, Bool-cases, Option-cases, and-eq-true, length, get_elem?, take, drop,
  is_empty, retain, any, all, find, length-append, length-retain-le, length-take, length-drop,
  drop-append, take_prefix, drop_prefix, contains, All, All-append, All-drop, All-retain, All-map,
  Result, ok, err, ◌>>=◌, ◌>>◌, ok_or, ensure, to_option, is_ok, Result-cases, >>=-eq-ok, ℕ, zero,
  suc, ◌+◌, ◌-◌, ◌*◌, ◌/◌, ◌%◌, ◌^◌, ◌≤◌, ◌<◌, min, max, Char, code, String, ◌≡◌, refl, sym, ap,
  ◌∙◌, ◌≡⟨◌⟩◌, ◌∎, subst, ◌≢◌, ◌↔◌, ◌⊎◌, inl, inr, Bool, true, false, not, ◌&&◌, ◌||◌, Option, none,
  some, List, [], ◌∷◌, ◌++◌, map, reverse, foldl, arith,
}
use ultranix_mcp.Prelude.Dict.{Dict, lookup, insert, remove}
use ultranix_mcp.Json.{Value}
use ultranix_mcp.Security.Hashing.{Hashing}
use ultranix_mcp.Security.Canonical.{args_hash}
use ultranix_mcp.Security.Token.{base64url}

abbrev pub expires_in_ms : ℕ
expires_in_ms = 60000

pub record Challenge : Type 0 where
  pub token : String
  pub expires_in : ℕ

pub record TokenRecord : Type 0 where
  pub caller : String
  pub tool : String
  pub args : String
  pub resolved_target : Option String
  pub issued : ℕ

pub record ConsentGate : Type 0 where
  pub allow_destructive : Bool
  pub ttl : ℕ
  pub tokens : Dict TokenRecord

unfoldable pub new : Bool → ConsentGate
new allow_destructive = record {
  allow_destructive = allow_destructive;
  ttl = expires_in_ms;
  tokens = [];
}

-- What a call says of itself.
pub record Call : Type 0 where
  pub key_id : Option String
  pub session_id : String
  pub tool : String
  pub args : Value
  pub target : Option String

unfoldable pub caller_id : Option String → String → String
caller_id none session_id = session_id
caller_id (some k) session_id = k

-- `issued.elapsed()`: a clock that has not moved past `issued` gives 0.
abbrev pub elapsed : ℕ → TokenRecord → ℕ
elapsed now r = now - r.issued

unfoldable pub generate_token : List ℕ → String
generate_token bytes = base64url bytes

unfoldable pub scope : Hashing → ℕ → Call → TokenRecord
unfolding caller_id
scope h now c = record {
  caller = caller_id c.key_id c.session_id;
  tool = c.tool;
  args = args_hash h c.args;
  resolved_target = c.target;
  issued = now;
}

-- `challenge_inner`; `challenge` passes no target and `challenge_for_target` passes one.
unfoldable pub challenge : Hashing → List ℕ → ℕ → Call → ConsentGate → ConsentGate × Challenge
unfolding scope
challenge h bytes now c g =
    let live = retain (λ e. leb (elapsed now e.1) g.ttl) g.tokens in
    let token = generate_token bytes in
    (
      record g { tokens = insert token (scope h now c) live },
      record { token = token; expires_in = expires_in_ms },
    )

-- A record admits a call: it is young enough and every part of its scope is the call's.
unfoldable pub admits : Hashing → ℕ → ℕ → Call → TokenRecord → Bool
unfolding caller_id
admits h ttl now c r =
    leb (elapsed now r) ttl
    && r.caller == caller_id c.key_id c.session_id
    && r.tool == c.tool
    && r.args == args_hash h c.args
    && option_beq r.resolved_target c.target

abbrev pub admits_found : Hashing → ℕ → ℕ → Call → Option TokenRecord → Bool
admits_found h ttl now c none = false
admits_found h ttl now c (some r) = admits h ttl now c r

unfoldable pub verify : Hashing → String → ℕ → Call → ConsentGate → ConsentGate × Bool
verify h token now c g = if g.allow_destructive then (g, true) else (
  record g { tokens = remove token g.tokens },
  admits_found h g.ttl now c (lookup token g.tokens),
)
