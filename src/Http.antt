-- ===== src/Http.antt =====
-- src/server.rs: `http_gate`, the middleware in front of `/mcp`, over the keys of src/security/auth.rs
-- and the rate limiter. The audit log and the metrics are the lists of what is handed to them, newest
-- first; faults of the audit are logged and change nothing else.
pub mod Admission
use ultranix_mcp.Prelude.{
  ltb, leb, nat_beq, nat_beq_iff, if◌then◌else◌, ltb→lt, leb→le, Equality, ◌==◌, nat_eq, string_eq,
  option_beq, option_beq_iff, Bool-cases, Option-cases, and-eq-true, length, get_elem?, take, drop,
  is_empty, retain, any, all, find, length-append, length-retain-le, length-take, length-drop,
  drop-append, take_prefix, drop_prefix, contains, All, All-append, All-drop, All-retain, All-map,
  All-imp, ◌⧺◌, Result, ok, err, ◌>>=◌, ◌>>◌, ok_or, ensure, to_option, is_ok, Result-cases,
  >>=-eq-ok, >>-eq-ok, ok_or-eq-ok, ensure-eq-ok, ok_injective, ℕ, zero, suc, ◌+◌, ◌-◌, ◌*◌, ◌/◌,
  ◌%◌, ◌^◌, ◌≤◌, ◌<◌, min, max, Char, code, String, ◌≡◌, refl, sym, ap, ◌∙◌, ◌≡⟨◌⟩◌, ◌∎, subst, ◌≢◌,
  ◌↔◌, ◌⊎◌, inl, inr, Bool, true, false, not, ◌&&◌, ◌||◌, Option, none, some, List, [], ◌∷◌, ◌++◌,
  map, reverse, foldl, arith,
}
use ultranix_mcp.Security.Hashing.{Hashing}
use ultranix_mcp.Prelude.Floats.{fdiv, one, ceil_u64}
use ultranix_mcp.Security.RateLimit.{RateLimiter, check}
use ultranix_mcp.Security.Auth.Keys.{
  AuthMode, required, disabled, KeyIdentity, AuthFailure, reason, ApiKeyStore,
}
use ultranix_mcp.Security.Auth.Gate.{authenticate_verbose}

pub record GateRecord : Type 0 where
  pub outcome : String
  pub request_hash : String
  pub caller : String

-- The limiter, and what the gate has reported: rejections by kind, and failures by reason.
pub record GateState : Type 0 where
  pub limiter : RateLimiter
  pub audit : List GateRecord
  pub rejections : List String
  pub auth_failures : List String

-- A request: its credentials, its sender's address and the hash of its request line.
pub record HttpRequest : Type 0 where
  pub header_key : Option String
  pub bearer : Option String
  pub remote : String
  pub request_hash : String

-- A request that passes carries the identity on.
pub data Response : Type 0 where
  passed : Option String → Response
  unauthorized : String → Response
  too_many_requests : ℕ → Response

abbrev pub or_remote : Option String → String → String
or_remote none remote = remote
or_remote (some id) remote = id

-- The whole seconds of one refill, at least one.
unfoldable pub retry_after : ℕ → ℕ
unfolding fdiv one ceil_u64
retry_after rps = max 1 (ceil_u64 (fdiv one rps))

module _ (h : Hashing) (keys : ApiKeyStore) (has_security : Bool) where
  abbrev pub audited : String → String → HttpRequest → GateState → GateState
  audited outcome caller q s =
      if has_security
      then record s {
        audit =
            record { outcome = outcome; request_hash = q.request_hash; caller = caller } ∷ s.audit;
      }
      else s

  abbrev pub refuse_auth : AuthFailure → HttpRequest → GateState → GateState × Response
  refuse_auth f q s = (
    audited "auth_rejected" q.remote q (record s {
      rejections = "auth" ∷ s.rejections;
      auth_failures = reason f ∷ s.auth_failures;
    }),
    unauthorized (reason f),
  )

  abbrev pub limited :
      ℕ
      → Option String
      → String
      → HttpRequest
      → GateState
      → RateLimiter × Bool
      → GateState × Response
  limited rps key_id identity q s (limiter, true) = (record s { limiter = limiter }, passed key_id)
  limited rps key_id identity q s (limiter, false) = (
    audited "rate_limited" identity q
        (record s { limiter = limiter; rejections = "rate_limit" ∷ s.rejections }),
    too_many_requests (retry_after rps),
  )

  -- The rate limit under an identity.
  abbrev pub rate_gate : ℕ → Option String → String → HttpRequest → GateState → GateState × Response
  rate_gate now key_id identity q s =
      limited s.limiter.rps key_id identity q s (check identity now s.limiter)

  abbrev pub after_auth :
      ℕ → HttpRequest → GateState → Result AuthFailure KeyIdentity → GateState × Response
  after_auth now q s (ok id) = rate_gate now id.key_id (or_remote id.key_id q.remote) q s
  after_auth now q s (err f) = refuse_auth f q s

  abbrev pub by_auth_mode : AuthMode → ℕ → ℕ → HttpRequest → GateState → GateState × Response
  by_auth_mode disabled at_ now q s = rate_gate now none q.remote q s
  by_auth_mode required at_ now q s =
      after_auth now q s (authenticate_verbose h keys q.header_key q.bearer at_)

  -- `at_` is the time of the keys' clock, and `now` that of the limiter's.
  unfoldable pub http_gate : ℕ → ℕ → HttpRequest → GateState → GateState × Response
  unfolding retry_after
  http_gate at_ now q s = by_auth_mode keys.mode at_ now q s
