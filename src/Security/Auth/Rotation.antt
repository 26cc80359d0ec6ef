-- ===== src/Security/Auth/Rotation.antt =====
-- What a rotation does to the keys that were held, and that the new key is accepted.
use ultranix_mcp.Prelude.{
  if◌then◌else◌, ◌==◌, nat_eq, string_eq, Bool-cases, Option-cases, length, All, ok, is_ok, ℕ, ◌≤◌,
  ◌<◌, String, ◌≡◌, refl, sym, ap, ◌∙◌, inl, inr, Bool, true, false, Option, none, some, List, [],
  ◌∷◌, ◌++◌, map, arith,
}
use ultranix_mcp.Security.Hashing.{Hashing}
use ultranix_mcp.Security.Auth.Compare.{ct_eq, ct_eq_iff}
use ultranix_mcp.Security.Auth.Keys.{
  required, StoredKey, ApiKeyStore, is_valid_key, key_id, bytes_eq,
}
use ultranix_mcp.Security.Auth.Format.{IsByte, keygen-valid}
use ultranix_mcp.Security.Auth.First.{IsDigest, ct_eq-same}
use ultranix_mcp.Security.Auth.Gate.{
  extract_credential, last_match, verdict, check_presented, authenticate_verbose, keygen, retire_at,
  retire, fresh_key, rotate,
}

last_match-last :
    (hash : List ℕ) (found : Option StoredKey) (keys : List StoredKey) (k : StoredKey)
    → last_match hash found (keys ++ k ∷ [])
      ≡ (if ct_eq hash k.hash then some k else last_match hash found keys)
unfolding last_match
last_match-last hash found [] k = refl
last_match-last hash found (j ∷ keys) k =
    last_match-last hash (if ct_eq hash j.hash then some j else found) keys k

abbrev retired : (StoredKey → StoredKey) → Option StoredKey → Option StoredKey
retired f none = none
retired f (some k) = some (f k)

retired-if :
    (f : StoredKey → StoredKey) (b : Bool) (k : StoredKey) (found : Option StoredKey)
    → (if b then some (f k) else retired f found) ≡ retired f (if b then some k else found)
retired-if f true k found = refl
retired-if f false k found = refl

module _ (at_ : ℕ) where
  last_match-retire :
      (hash : List ℕ) (found : Option StoredKey) (keys : List StoredKey)
      → last_match hash (retired (retire at_) found) (map (retire at_) keys)
        ≡ retired (retire at_) (last_match hash found keys)
  unfolding last_match
  last_match-retire hash found [] = refl
  last_match-retire hash found (k ∷ keys) =
      ap (λ o. last_match hash o (map (retire at_) keys))
        (retired-if (retire at_) (ct_eq hash k.hash) k found)
      ∙ last_match-retire hash (if ct_eq hash k.hash then some k else found) keys

  -- Before its end the overlap changes no verdict, and from then on none admits.
  verdict-soon :
      (now : ℕ) (found : Option StoredKey)
      → now < at_
      → verdict now (retired (retire at_) found) ≡ verdict now found
  verdict-soon now none lt = refl
  verdict-soon now (some k) lt = elim (Option-cases k.expires_at) [
    | inl e ↦ rw e (ground arith)
    | inr (x, e) ↦ rw e (ground arith)
  ]

  verdict-late :
      (now : ℕ) (found : Option StoredKey)
      → at_ ≤ now
      → is_ok (verdict now (retired (retire at_) found)) ≡ false
  verdict-late now none le = refl
  verdict-late now (some k) le = elim (Option-cases k.expires_at) [
    | inl e ↦ rw e (ground arith)
    | inr (x, e) ↦ rw e (ground arith)
  ]

module _ (h : Hashing) (digest : IsDigest h) (latest now grace : ℕ) (bytes : List ℕ)
    (store : ApiKeyStore) where
  abbrev rotated : ApiKeyStore
  rotated = (rotate h latest now grace bytes store).0

  -- A key that is not the new one is looked for among those held.
  rotated-held :
      (p : String)
      → (h.sha256 (keygen bytes) == h.sha256 p) ≡ false
      → last_match (h.sha256 p) none rotated.keys
        ≡ retired (retire (retire_at latest now grace)) (last_match (h.sha256 p) none store.keys)
  unfolding rotate
  rotated-held p other =
      rw
        (last_match-last (h.sha256 p) none (map (retire (retire_at latest now grace)) store.keys)
          (fresh_key h (keygen bytes)))
        (rw (ct_eq-same h digest p (keygen bytes), other)
          (last_match-retire (retire_at latest now grace) (h.sha256 p) none store.keys))

  rotated-new :
      last_match (h.sha256 (keygen bytes)) none rotated.keys ≡ some (fresh_key h (keygen bytes))
  unfolding rotate
  rotated-new =
      rw
        (last_match-last (h.sha256 (keygen bytes)) none
          (map (retire (retire_at latest now grace)) store.keys) (fresh_key h (keygen bytes)))
        (rw ((ct_eq_iff (h.sha256 (keygen bytes)) (h.sha256 (keygen bytes)) refl).1 refl) refl)

  soon_same :
      (soon : ℕ) (p : String)
      → (h.sha256 (keygen bytes) == h.sha256 p) ≡ false
      → soon < retire_at latest now grace
      → check_presented h soon rotated.keys (some p) ≡ check_presented h soon store.keys (some p)
  soon_same soon p other lt =
      rw
        (
          rotated-held p other,
          verdict-soon (retire_at latest now grace) soon (last_match (h.sha256 p) none store.keys)
              lt,
        )
        refl

  late_refused :
      (late : ℕ) (p : String)
      → (h.sha256 (keygen bytes) == h.sha256 p) ≡ false
      → retire_at latest now grace ≤ late
      → is_ok (check_presented h late rotated.keys (some p)) ≡ false
  late_refused late p other le = elim (Bool-cases (is_valid_key p)) [
    | inl valid ↦
        rw (valid, rotated-held p other)
          (verdict-late (retire_at latest now grace) late (last_match (h.sha256 p) none store.keys)
            le)
    | inr invalid ↦ rw invalid refl
  ]

  required_answer :
      (s : ApiKeyStore) (header_key bearer : Option String) {p : String} (now : ℕ)
      → s.mode ≡ required
      → extract_credential header_key bearer ≡ some p
      → authenticate_verbose h s header_key bearer now ≡ check_presented h now s.keys (some p)
  unfolding authenticate_verbose
  required_answer s header_key bearer now mode old = rw (mode, old) refl

  -- After a rotation, a request with a key other than the new one is answered until the end of the
  -- overlap as it was before the rotation, and from then on it is refused. A request with the new
  -- key is accepted at every time, under the new key's identity and without a limit of scopes. The
  -- end of the overlap is the grace after the rotation, or chrono's latest time when that is sooner.
  pub rotate_overlap :
      (header_key bearer new_header new_bearer : Option String) (p : String) (soon late time : ℕ)
      → store.mode ≡ required
      → extract_credential header_key bearer ≡ some p
      → extract_credential new_header new_bearer ≡ some (keygen bytes)
      → (h.sha256 (keygen bytes) == h.sha256 p) ≡ false
      → length bytes ≡ 32
      → All IsByte bytes
      → soon < retire_at latest now grace
      → retire_at latest now grace ≤ late
      → (authenticate_verbose h rotated header_key bearer soon
          ≡ authenticate_verbose h store header_key bearer soon)
        × (is_ok (authenticate_verbose h rotated header_key bearer late) ≡ false)
        × (authenticate_verbose h rotated new_header new_bearer time
            ≡ ok (record { key_id = some (key_id h (keygen bytes)); scopes = [] }))
  rotate_overlap header_key bearer new_header new_bearer p soon late time mode old new other e b lt
        le =
      let mode₁ : rotated.mode ≡ required = unfold rotate in mode in
      let valid = keygen-valid bytes e b in
      (
        required_answer rotated header_key bearer soon mode₁ old
            ∙ soon_same soon p other lt
            ∙ sym (required_answer store header_key bearer soon mode old),
        rw (required_answer rotated header_key bearer late mode₁ old)
            (late_refused late p other le),
        required_answer rotated new_header new_bearer time mode₁ new ∙ rw (valid, rotated-new) refl,
      )
