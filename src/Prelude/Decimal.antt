-- ===== src/Prelude/Decimal.antt =====
-- How numbers print in decimal.
use Prim.Native.Nat.{ℕ, zero, suc, ◌/◌, ◌%◌}
use Prim.Native.String.{String}
use mathlib.Core.Path.{◌≡◌, refl}
use mathlib.Core.List.{List, [], ◌∷◌}
use ultranix_mcp.Prelude.Tests.{ltb, if◌then◌else◌, ◌⧺◌}

abbrev decimal_digits : List String
decimal_digits = "0" ∷ "1" ∷ "2" ∷ "3" ∷ "4" ∷ "5" ∷ "6" ∷ "7" ∷ "8" ∷ "9" ∷ []

-- The digit at an index of a table, which the index is within.
abbrev pub digit_at : List String → ℕ → String
digit_at [] i = ""
digit_at (d ∷ ds) zero = d
digit_at (d ∷ ds) (suc i) = digit_at ds i

unfoldable digits : ℕ → ℕ → String
digits zero n = ""
digits (suc fuel) n =
    let front = digits fuel (n / 10) in
    (if ltb n 10 then "" else front) ⧺ digit_at decimal_digits (n % 10)

-- Twenty digits hold every 64-bit number.
unfoldable pub decimal : ℕ → String
unfolding digits
decimal n = digits 20 n

decimal_test : decimal 60000 ≡ "60000"
unfolding decimal
decimal_test = refl
