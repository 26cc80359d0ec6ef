-- ===== src/Security/Sanitize.antt =====
-- src/security/sanitize.rs: the checks of one argument and of one identifier.
use ultranix_mcp.Prelude.{
  ltb, leb, if◌then◌else◌, ◌==◌, nat_eq, string_eq, Bool-cases, contains, Result, ok, err, ℕ, ◌+◌,
  ◌≤◌, code, String, ◌≡◌, inl, inr, Bool, false, ◌&&◌, ◌||◌, List, [], ◌∷◌, arith,
}

abbrev pub max_arg_len : ℕ
max_arg_len = 65536

abbrev pub max_ident_len : ℕ
max_ident_len = 256

-- ; & | ` $ ( ) { } [ ] < >
abbrev pub deny_chars : List ℕ
deny_chars = 59 ∷ 38 ∷ 124 ∷ 96 ∷ 36 ∷ 40 ∷ 41 ∷ 123 ∷ 125 ∷ 91 ∷ 93 ∷ 60 ∷ 62 ∷ []

pub data SanitizeError : Type 0 where
  metacharacter : ℕ → SanitizeError
  control_char : ℕ → SanitizeError
  too_long : SanitizeError
  bad_ident_char : ℕ → SanitizeError
  bad_ident_len : ℕ → SanitizeError

-- The number of bytes of a code point in UTF-8.
abbrev utf8_len : ℕ → ℕ
utf8_len c = if ltb c 128 then 1 else if ltb c 2048 then 2 else if ltb c 65536 then 3 else 4

-- `len`
unfoldable pub byte_len : String → ℕ
byte_len String.[] = 0
byte_len (String.◌∷◌ c s) = utf8_len (code c) + byte_len s

-- `is_control`: the code points below the space, and those from DEL to U+009F
abbrev pub is_control : ℕ → Bool
is_control c = ltb c 32 || leb 127 c && ltb c 160

unfoldable pub sanitize_chars : String → Result SanitizeError (Unit {0})
sanitize_chars String.[] = ok tt
sanitize_chars (String.◌∷◌ c s) =
    let rest = sanitize_chars s in
    if contains deny_chars (code c)
    then err (metacharacter (code c))
    else if is_control (code c)
    then err (control_char (code c))
    else rest

unfoldable pub sanitize_arg : String → Result SanitizeError (Unit {0})
unfolding sanitize_chars
sanitize_arg arg = if ltb max_arg_len (byte_len arg) then err too_long else sanitize_chars arg

-- An ASCII letter or digit, or one of _ - . : @
abbrev pub is_ident_char : ℕ → Bool
is_ident_char c =
    leb 48 c && ltb c 58
    || leb 65 c && ltb c 91
    || leb 97 c && ltb c 123
    || contains (95 ∷ 45 ∷ 46 ∷ 58 ∷ 64 ∷ []) c

unfoldable pub ident_chars : String → Result SanitizeError (Unit {0})
ident_chars String.[] = ok tt
ident_chars (String.◌∷◌ c s) =
    let rest = ident_chars s in
    if is_ident_char (code c) then rest else err (bad_ident_char (code c))

unfoldable pub validate_identifier : String → Result SanitizeError (Unit {0})
unfolding ident_chars
validate_identifier ident =
    if ident == "" || ltb max_ident_len (byte_len ident)
    then err (bad_ident_len (byte_len ident))
    else if ident == "." || ident == ".."
    then err (bad_ident_char 46)
    else ident_chars ident

-- Every character of a text passes a test of its code point.
abbrev pub AllChars : (ℕ → Type 0) → String → Type 0
AllChars P String.[] = Unit
AllChars P (String.◌∷◌ c s) = P (code c) × AllChars P s

abbrev pub IsHarmless : ℕ → Type 0
IsHarmless c = (contains deny_chars c ≡ false) × (is_control c ≡ false)

sanitize_chars-IsHarmless : (s : String) → sanitize_chars s ≡ ok tt → AllChars IsHarmless s
unfolding sanitize_chars
sanitize_chars-IsHarmless String.[] h = tt
sanitize_chars-IsHarmless (String.◌∷◌ c s) h = elim (Bool-cases (contains deny_chars (code c))) [
  | inl e ↦ let bad : ⊥ = ground arith in absurd bad
  | inr e ↦ elim (Bool-cases (is_control (code c))) [
    | inl f ↦ let bad : ⊥ = ground arith in absurd bad
    | inr f ↦ ((e, f), sanitize_chars-IsHarmless s (ground arith))
  ]
]

-- An argument that passes is within the length, and none of its characters is a shell metacharacter
-- or a control.
pub sanitize_arg_sound :
    (arg : String)
    → sanitize_arg arg ≡ ok tt
    → (byte_len arg ≤ max_arg_len) × AllChars IsHarmless arg
unfolding sanitize_arg
sanitize_arg_sound arg h = elim (Bool-cases (ltb max_arg_len (byte_len arg))) [
  | inl e ↦ let bad : ⊥ = ground arith in absurd bad
  | inr e ↦ (ground arith, sanitize_chars-IsHarmless arg (ground arith))
]
