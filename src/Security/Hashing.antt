-- ===== src/Security/Hashing.antt =====
-- What the security layer takes from other crates: SHA-256 (`sha2`) and serde_json's string writer.
-- Digests are printed by `hex` of src/security/consent.rs (`hex_lower` in auth.rs, `sha256_hex` in
-- audit.rs): two lowercase digits to a byte.
use ultranix_mcp.Prelude.{nat_eq, string_eq, ℕ, ◌/◌, ◌%◌, String, ◌≡◌, refl, List, [], ◌∷◌}
use Prim.Native.String
use ultranix_mcp.Prelude.Decimal.{digit_at}

-- `sha256` reads the bytes of a text and answers 32 bytes; `quote` is `serde_json::to_string`.
pub record Hashing : Type 0 where
  pub sha256 : String → List ℕ
  pub quote : String → String

abbrev pub hex_digits : List String
hex_digits =
    "0" ∷ "1" ∷ "2" ∷ "3" ∷ "4" ∷ "5" ∷ "6" ∷ "7" ∷ "8" ∷ "9" ∷ "a" ∷ "b" ∷ "c" ∷ "d" ∷ "e" ∷ "f"
    ∷ []

unfoldable pub hex : List ℕ → String
hex [] = ""
hex (b ∷ bs) =
    String.◌++◌ (digit_at hex_digits (b / 16)) (String.◌++◌ (digit_at hex_digits (b % 16)) (hex bs))

pub sha256_hex : Hashing → String → String
unfolding hex
sha256_hex h s = hex (h.sha256 s)

hex_test : hex (0 ∷ 255 ∷ 16 ∷ []) ≡ "00ff10"
unfolding hex
hex_test = refl
