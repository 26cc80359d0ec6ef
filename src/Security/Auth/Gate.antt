-- ===== src/Security/Auth/Gate.antt =====
-- src/security/auth.rs: the authentication of a request, and the rotation of the key set.
use ultranix_mcp.Prelude.{
  leb, nat_beq, if◌then◌else◌, nat_eq, string_eq, retain, ◌⧺◌, Result, ok, err, to_option, ℕ, ◌+◌,
  min, code, String, Bool, false, not, ◌||◌, Option, none, some, List, [], ◌∷◌, ◌++◌, map,
}
use ultranix_mcp.Prelude.Texts.{is_empty_text, is_whitespace, is_ascii_uppercase, trim}
use ultranix_mcp.Security.Hashing.{Hashing, hex}
use ultranix_mcp.Security.Auth.Compare.{ct_eq}
use ultranix_mcp.Security.Auth.Keys.{
  AuthMode, required, disabled, KeyIdentity, AuthFailure, missing, malformed, unknown, expired,
  StoredKey, ApiKeyStore, key_prefix, is_valid_key, key_id, bytes_eq,
}

-- `to_ascii_lowercase` of a code point
abbrev lowercase : ℕ → ℕ
lowercase c = if is_ascii_uppercase c then c + 32 else c

-- The first characters compared with a lowercase ASCII text regardless of case: what is after them.
unfoldable pub strip_ignoring_case : String → String → Option String
strip_ignoring_case String.[] s = some s
strip_ignoring_case (String.◌∷◌ p ps) String.[] = none
strip_ignoring_case (String.◌∷◌ p ps) (String.◌∷◌ c s) =
    let rest = strip_ignoring_case ps s in
    if nat_beq (lowercase (code c)) (code p) then rest else none

abbrev pub begins_with_space : String → Bool
begins_with_space String.[] = false
begins_with_space (String.◌∷◌ c s) = is_whitespace (code c)

-- A scheme is stripped when it stands alone or before whitespace.
abbrev pub without_scheme : String → Option String → String
without_scheme b none = b
without_scheme b (some rest) = if is_empty_text rest || begins_with_space rest then trim rest else b

unfoldable pub bearer_token : Option String → Option String
unfolding strip_ignoring_case trim
bearer_token none = none
bearer_token (some value) =
    let b = trim value in
    let token = without_scheme b (strip_ignoring_case "bearer" b) in
    if is_empty_text token then none else some token

abbrev pub header_token : Option String → Option String
header_token none = none
header_token (some value) = if is_empty_text (trim value) then none else some (trim value)

abbrev pub or_bearer : Option String → Option String → Option String
or_bearer (some k) bearer = some k
or_bearer none bearer = bearer_token bearer

unfoldable pub extract_credential : Option String → Option String → Option String
extract_credential header_key bearer = or_bearer (header_token header_key) bearer

-- The scan of the whole key set keeps the last match.
unfoldable pub last_match : List ℕ → Option StoredKey → List StoredKey → Option StoredKey
last_match hash found [] = found
last_match hash found (k ∷ keys) =
    last_match hash (if ct_eq hash k.hash then some k else found) keys

abbrev pub is_over : Option ℕ → ℕ → Bool
is_over none now = false
is_over (some e) now = leb e now

abbrev pub expiry : Option ℕ → ℕ
expiry none = 0
expiry (some e) = e

-- The verdict on the key that was found. `expiry` is read where there is one.
abbrev pub verdict : ℕ → Option StoredKey → Result AuthFailure KeyIdentity
verdict now none = err unknown
verdict now (some k) =
    if is_over k.expires_at now
    then err (expired k.key_id (expiry k.expires_at))
    else ok (record { key_id = some k.key_id; scopes = k.scopes })

-- The end of the overlap. chrono answers its latest time where the sum is beyond it.
abbrev pub retire_at : ℕ → ℕ → ℕ → ℕ
retire_at latest now grace = if leb (now + grace) latest then now + grace else latest

abbrev pub sooner : Option ℕ → ℕ → ℕ
sooner none at_ = at_
sooner (some e) at_ = min e at_

abbrev pub retire : ℕ → StoredKey → StoredKey
retire at_ k = record k { expires_at = some (sooner k.expires_at at_) }

-- The identities of the keys that are valid, and of those that have expired.
unfoldable pub active_key_ids : ℕ → List StoredKey → List String
active_key_ids now keys = map (λ k. k.key_id) (retain (λ k. not (is_over k.expires_at now)) keys)

unfoldable pub expired_key_ids : ℕ → List StoredKey → List String
expired_key_ids now keys = map (λ k. k.key_id) (retain (λ k. is_over k.expires_at now) keys)

pub record RotationResult : Type 0 where
  pub new_key : String
  pub new_key_id : String
  pub old_keys_expire_at : ℕ

-- `keygen`: `bytes` are the 32 of the operating system's generator
unfoldable pub keygen : List ℕ → String
keygen bytes = key_prefix ⧺ hex bytes

-- Without authentication every request passes, without an identity.
abbrev pub by_mode : AuthMode → Result AuthFailure KeyIdentity → Result AuthFailure KeyIdentity
by_mode disabled r = ok (record { key_id = none; scopes = [] })
by_mode required r = r

module _ (h : Hashing) where
  abbrev pub check_presented : ℕ → List StoredKey → Option String → Result AuthFailure KeyIdentity
  check_presented now keys none = err missing
  check_presented now keys (some presented) =
      if is_valid_key presented
      then verdict now (last_match (h.sha256 presented) none keys)
      else err malformed

  unfoldable pub authenticate_verbose :
      ApiKeyStore → Option String → Option String → ℕ → Result AuthFailure KeyIdentity
  unfolding last_match extract_credential
  authenticate_verbose store header_key bearer now =
      by_mode store.mode (check_presented now store.keys (extract_credential header_key bearer))

  unfoldable pub authenticate : ApiKeyStore → Option String → Option String → ℕ → Option KeyIdentity
  unfolding authenticate_verbose
  authenticate store header_key bearer now =
      to_option (authenticate_verbose store header_key bearer now)

  abbrev pub fresh_key : String → StoredKey
  fresh_key key = record {
    hash = h.sha256 key;
    key_id = key_id h key;
    expires_at = none;
    scopes = [];
  }

  unfoldable pub rotate :
      (latest now grace : ℕ) → List ℕ → ApiKeyStore → ApiKeyStore × RotationResult
  unfolding keygen
  rotate latest now grace bytes store =
      let at_ = retire_at latest now grace in
      let new_key = keygen bytes in
      (
        record store { keys = map (retire at_) store.keys ++ fresh_key new_key ∷ [] },
        record { new_key = new_key; new_key_id = key_id h new_key; old_keys_expire_at = at_ },
      )
