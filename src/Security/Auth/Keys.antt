-- ===== src/Security/Auth/Keys.antt =====
-- src/security/auth.rs: the format of keys, the records of the configuration, and the key set. A time
-- is its distance from the earliest that chrono represents.
use ultranix_mcp.Prelude.{
  leb, nat_beq, nat_beq_iff, if◌then◌else◌, Equality, nat_eq, string_eq, and-eq-true, contains, ℕ,
  String, ◌≡◌, refl, ◌↔◌, Bool, true, false, not, ◌&&◌, ◌||◌, Option, none, some, List, [], ◌∷◌,
}
use ultranix_mcp.Prelude.Texts.{all_chars, is_ascii_digit, is_ascii_lowercase, trim, strip_prefix}
use ultranix_mcp.History.Redaction.{take_chars}
use ultranix_mcp.Security.Hashing.{Hashing, hex}
use ultranix_mcp.Security.Sanitize.{byte_len}

abbrev pub key_prefix : String
key_prefix = "uxcp_"

abbrev pub key_hex_len : ℕ
key_hex_len = 64

pub data AuthMode : Type 0 where
  required : AuthMode
  disabled : AuthMode

pub record KeyIdentity : Type 0 where
  pub key_id : Option String
  pub scopes : List String

pub data AuthFailure : Type 0 where
  missing : AuthFailure
  malformed : AuthFailure
  unknown : AuthFailure
  expired : String → ℕ → AuthFailure

-- `AuthFailure::reason`
abbrev pub reason : AuthFailure → String
reason missing = "missing"
reason malformed = "malformed"
reason unknown = "unknown"
reason (expired key_id expires_at) = "expired_key"

pub record RawRecord : Type 0 where
  pub key : String
  pub declared_key_id : Option String
  pub expires_at : Option ℕ
  pub scopes : List String

pub record StoredKey : Type 0 where
  pub hash : List ℕ
  pub key_id : String
  pub expires_at : Option ℕ
  pub scopes : List String

pub record ApiKeyStore : Type 0 where
  pub mode : AuthMode
  pub keys : List StoredKey

abbrev pub is_hex_char : ℕ → Bool
is_hex_char b = is_ascii_digit b || is_ascii_lowercase b && leb b 102

abbrev pub is_hex_64 : Option String → Bool
is_hex_64 none = false
is_hex_64 (some digits) = nat_beq (byte_len digits) key_hex_len && all_chars is_hex_char digits

unfoldable pub is_valid_key : String → Bool
is_valid_key key = is_hex_64 (strip_prefix key_prefix key)

abbrev pub beq_bytes : List ℕ → List ℕ → Bool
beq_bytes [] [] = true
beq_bytes [] (y ∷ ys) = false
beq_bytes (x ∷ xs) [] = false
beq_bytes (x ∷ xs) (y ∷ ys) = nat_beq x y && beq_bytes xs ys

pub beq_bytes_iff : (x y : List ℕ) → (beq_bytes x y ≡ true) ↔ (x ≡ y)
beq_bytes_iff [] [] = (λ h. refl, λ h. refl)
beq_bytes_iff [] (y ∷ ys) = (λ h. cc, λ h. cc)
beq_bytes_iff (x ∷ xs) [] = (λ h. cc, λ h. cc)
beq_bytes_iff (x ∷ xs) (y ∷ ys) = (
  λ h.
      let (here, rest) = and-eq-true _ _ h in
      cc ((nat_beq_iff x y).0 here, (beq_bytes_iff xs ys).0 rest),
  λ h. rw ((nat_beq_iff x y).1 (cc h), (beq_bytes_iff xs ys).1 (cc h)) refl,
)

-- Digests are compared whole where the source hashes or derives their equality.
instance abbrev pub bytes_eq : Equality (List ℕ)
bytes_eq = record { same = beq_bytes; same_iff = beq_bytes_iff }

module _ (h : Hashing) where
  unfoldable pub key_id : String → String
  key_id key = take_chars 8 (hex (h.sha256 key))

  -- A malformed key and a later duplicate are skipped.
  abbrev pub is_skipped : List (List ℕ) → RawRecord → Bool
  is_skipped seen r = not (is_valid_key (trim r.key)) || contains seen (h.sha256 (trim r.key))

  -- The declared identity gives way to the computed one.
  abbrev pub stored : RawRecord → StoredKey
  stored r = record {
    hash = h.sha256 (trim r.key);
    key_id = key_id (trim r.key);
    expires_at = r.expires_at;
    scopes = r.scopes;
  }

  -- The loop over the records, with the digests seen.
  unfoldable pub records_from : List (List ℕ) → List RawRecord → List StoredKey
  records_from seen [] = []
  records_from seen (r ∷ records) =
      let skip = is_skipped seen r in
      let rest = records_from (if skip then seen else h.sha256 (trim r.key) ∷ seen) records in
      if skip then rest else stored r ∷ rest

  unfoldable pub records_to_keys : List RawRecord → List StoredKey
  unfolding records_from
  records_to_keys records = records_from [] records
