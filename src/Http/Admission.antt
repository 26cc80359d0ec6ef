-- ===== src/Http/Admission.antt =====
-- Who passes the gate, and what each answer of it leaves.
use ultranix_mcp.Prelude.{
  if◌then◌else◌, nat_eq, string_eq, length, ok, err, ℕ, ◌+◌, ◌≤◌, String, ◌≡◌, ◌⊎◌, Bool, true,
  false, Option, none, ◌∷◌,
}
use ultranix_mcp.Security.Hashing.{Hashing}
use ultranix_mcp.Security.RateLimit.{check}
use ultranix_mcp.Security.Auth.Keys.{
  required, disabled, KeyIdentity, AuthFailure, reason, ApiKeyStore,
}
use ultranix_mcp.Security.Auth.Gate.{authenticate_verbose}
use ultranix_mcp.Http.{
  GateState, HttpRequest, Response, passed, unauthorized, too_many_requests, or_remote,
}

module _ (h : Hashing) (keys : ApiKeyStore) (has_security : Bool) (at_ now : ℕ) (q : HttpRequest)
    (s : GateState) where
  -- The identity is what authentication gives, or none when authentication is off.
  abbrev pub IsCaller : Option String → Type 0
  IsCaller k =
      ((keys.mode ≡ disabled) × (k ≡ none))
      ⊎ ((keys.mode ≡ required)
          × (id : KeyIdentity) × (authenticate_verbose h keys q.header_key q.bearer at_ ≡ ok id)
          × (k ≡ id.key_id))

  abbrev told : ℕ
  told = if has_security then 1 else 0

  -- What an answer says of the request and of the state that it leaves.
  abbrev pub IsJust : GateState × Response → Type 0
  IsJust (t, passed k) =
      IsCaller k
      × (check (or_remote k q.remote) now s.limiter ≡ (t.limiter, true))
      × (t.audit ≡ s.audit)
      × (t.rejections ≡ s.rejections)
  IsJust (t, unauthorized r) =
      ((f : AuthFailure) × (authenticate_verbose h keys q.header_key q.bearer at_ ≡ err f)
        × (r ≡ reason f))
      × (t.limiter ≡ s.limiter)
      × (length t.audit ≡ length s.audit + told)
      × (t.rejections ≡ "auth" ∷ s.rejections)
  IsJust (t, too_many_requests n) =
      ((k : Option String) × IsCaller k
        × (check (or_remote k q.remote) now s.limiter ≡ (t.limiter, false)))
      × (1 ≤ n)
      × (length t.audit ≡ length s.audit + told)
      × (t.rejections ≡ "rate_limit" ∷ s.rejections)
