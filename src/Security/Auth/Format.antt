-- ===== src/Security/Auth/Format.antt =====
-- That a generated key has the format of keys.
use ultranix_mcp.Prelude.{
  nat_beq_iff, nat_eq, string_eq, and-eq-true, length, All, ◌⧺◌, ℕ, zero, suc, ◌+◌, ◌*◌, ◌/◌, ◌%◌,
  ◌<◌, code, String, ◌≡◌, refl, Bool, true, some, List, [], ◌∷◌, arith,
}
use ultranix_mcp.Prelude.Texts.{all_chars, strip_prefix, nil-append, cons-append}
use ultranix_mcp.Prelude.Decimal.{digit_at}
use ultranix_mcp.Security.Hashing.{hex, hex_digits}
use ultranix_mcp.Security.Sanitize.{byte_len}
use ultranix_mcp.Security.Auth.Keys.{key_prefix, is_hex_char, is_valid_key}
use ultranix_mcp.Security.Auth.Gate.{keygen}

byte_len-append : (s t : String) → byte_len (s ⧺ t) ≡ byte_len s + byte_len t
unfolding byte_len
byte_len-append String.[] t = rw nil-append (omega arith)
byte_len-append (String.◌∷◌ c s) t = rw cons-append (omega (arith, byte_len-append s t))

all_chars-append :
    (p : ℕ → Bool) (s t : String)
    → all_chars p s ≡ true
    → all_chars p t ≡ true
    → all_chars p (s ⧺ t) ≡ true
all_chars-append p String.[] t h k = rw nil-append k
all_chars-append p (String.◌∷◌ c s) t h k =
    let (here, rest) = and-eq-true (p (code c)) (all_chars p s) h in
    rw cons-append (rw here (all_chars-append p s t rest k))

-- One character of the table
abbrev IsDigit : String → Type 0
IsDigit s = (byte_len s ≡ 1) × (all_chars is_hex_char s ≡ true)

All-digit_at :
    (table : List String) (i : ℕ)
    → All IsDigit table
    → i < length table
    → IsDigit (digit_at table i)
All-digit_at [] i h lt = absurd (omega arith)
All-digit_at (d ∷ table) zero h lt = h.0
All-digit_at (d ∷ table) (suc i) h lt = All-digit_at table i h.1 (omega arith)

hex_digits-IsDigit : All IsDigit hex_digits
unfolding byte_len
hex_digits-IsDigit =
    let one : (1 ≡ 1) × (true ≡ true) = (refl, refl) in
    (
      one,
      (
        one,
        (
          one,
          (
            one,
            (one, (one, (one, (one, (one, (one, (one, (one, (one, (one, (one, (one, tt)))))))))))),
          ),
        ),
      ),
    )

abbrev pub IsByte : ℕ → Type 0
IsByte b = b < 256

hex-format :
    (bytes : List ℕ)
    → All IsByte bytes
    → (byte_len (hex bytes) ≡ 2 * length bytes) × (all_chars is_hex_char (hex bytes) ≡ true)
unfolding hex
hex-format [] h = (unfold byte_len in refl, refl)
hex-format (b ∷ bytes) h =
    let (len, ok_rest) = hex-format bytes h.1 in
    let (len₁, ok₁) = All-digit_at hex_digits (b / 16) hex_digits-IsDigit (omega (arith, h.0)) in
    let (len₂, ok₂) = All-digit_at hex_digits (b % 16) hex_digits-IsDigit (omega arith) in
    (
      rw (byte_len-append, byte_len-append, len, len₁, len₂) (omega arith),
      all_chars-append is_hex_char (digit_at hex_digits (b / 16))
          (digit_at hex_digits (b % 16) ⧺ hex bytes) ok₁
          (all_chars-append is_hex_char (digit_at hex_digits (b % 16)) (hex bytes) ok₂ ok_rest),
    )

pub strip_prefix-append : (p s : String) → strip_prefix p (p ⧺ s) ≡ some s
unfolding strip_prefix
strip_prefix-append String.[] s = rw nil-append refl
strip_prefix-append (String.◌∷◌ c p) s =
    rw cons-append (rw ((nat_beq_iff (code c) (code c)).1 refl) (strip_prefix-append p s))

-- A key generated from 32 bytes is a well-formed key.
pub keygen-valid :
    (bytes : List ℕ) → length bytes ≡ 32 → All IsByte bytes → is_valid_key (keygen bytes) ≡ true
unfolding keygen is_valid_key
keygen-valid bytes e h =
    let (len, ok_chars) = hex-format bytes h in
    rw (strip_prefix-append key_prefix (hex bytes), len, e, ok_chars) refl
