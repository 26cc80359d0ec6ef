-- ===== src/Security/Token.antt =====
-- src/security/consent.rs: `base64url` and the token made with it.
use ultranix_mcp.Prelude.{
  nat_eq, string_eq, All, ℕ, ◌+◌, ◌*◌, ◌/◌, ◌%◌, ◌<◌, String, ◌≡◌, refl, List, [], ◌∷◌, arith,
}
use Prim.Native.String
use ultranix_mcp.Prelude.Decimal.{digit_at}

abbrev alphabet : List String
alphabet =
    "A" ∷ "B" ∷ "C" ∷ "D" ∷ "E" ∷ "F" ∷ "G" ∷ "H" ∷ "I" ∷ "J" ∷ "K" ∷ "L" ∷ "M" ∷ "N" ∷ "O" ∷ "P"
    ∷ "Q" ∷ "R" ∷ "S" ∷ "T" ∷ "U" ∷ "V" ∷ "W" ∷ "X" ∷ "Y" ∷ "Z" ∷ "a" ∷ "b" ∷ "c" ∷ "d" ∷ "e" ∷ "f"
    ∷ "g" ∷ "h" ∷ "i" ∷ "j" ∷ "k" ∷ "l" ∷ "m" ∷ "n" ∷ "o" ∷ "p" ∷ "q" ∷ "r" ∷ "s" ∷ "t" ∷ "u" ∷ "v"
    ∷ "w" ∷ "x" ∷ "y" ∷ "z" ∷ "0" ∷ "1" ∷ "2" ∷ "3" ∷ "4" ∷ "5" ∷ "6" ∷ "7" ∷ "8" ∷ "9" ∷ "-" ∷ "_"
    ∷ []

-- `chunks(3)` with the missing bytes read as 0: a full chunk gives four digits, a short one two or
-- three. Bytes are numbers below 256, and `n >> k & 63` is `n / 2 ^ k % 64`.
unfoldable pub sextets : List ℕ → List ℕ
sextets [] = []
sextets (a ∷ []) = let n = a * 65536 in (n / 262144 % 64) ∷ (n / 4096 % 64) ∷ []
sextets (a ∷ b ∷ []) =
    let n = a * 65536 + b * 256 in (n / 262144 % 64) ∷ (n / 4096 % 64) ∷ (n / 64 % 64) ∷ []
sextets (a ∷ b ∷ c ∷ rest) =
    let n = a * 65536 + b * 256 + c in
    (n / 262144 % 64) ∷ (n / 4096 % 64) ∷ (n / 64 % 64) ∷ (n % 64) ∷ sextets rest

abbrev render : List ℕ → String
render [] = ""
render (d ∷ ds) = String.◌++◌ (digit_at alphabet d) (render ds)

pub base64url : List ℕ → String
unfolding sextets
base64url bytes = render (sextets bytes)

-- The bytes that a row of digits stands for, by the definition of base64 in RFC 4648.
unfoldable pub octets : List ℕ → List ℕ
octets (p ∷ q ∷ r ∷ s ∷ rest) =
    let n = p * 262144 + q * 4096 + r * 64 + s in
    (n / 65536) ∷ (n / 256 % 256) ∷ (n % 256) ∷ octets rest
octets (p ∷ q ∷ r ∷ []) =
    let n = p * 262144 + q * 4096 + r * 64 in (n / 65536) ∷ (n / 256 % 256) ∷ []
octets (p ∷ q ∷ []) = let n = p * 262144 + q * 4096 in (n / 65536) ∷ []
octets (p ∷ []) = []
octets [] = []

-- The digits of a row of bytes give the bytes back, so two different rows of random bytes never
-- share their digits; each digit is an index of the alphabet.
pub octets-sextets :
    (bytes : List ℕ)
    → All (λ b. b < 256) bytes
    → (octets (sextets bytes) ≡ bytes) × All (λ d. d < 64) (sextets bytes)
unfolding octets sextets
octets-sextets [] h = (refl, tt)
octets-sextets (a ∷ []) h = ground arith
octets-sextets (a ∷ b ∷ []) h = ground arith
octets-sextets (a ∷ b ∷ c ∷ rest) h = ground (arith, octets-sextets rest h.1.1.1)

base64url_test : base64url (0 ∷ 255 ∷ 16 ∷ 7 ∷ []) ≡ "AP8QBw"
unfolding base64url
base64url_test = refl
