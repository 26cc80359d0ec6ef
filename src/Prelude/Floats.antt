-- ===== src/Prelude/Floats.antt =====
-- Rust's `f64` where it is not negative: a float is the number of times that it holds 2^-1074, the
-- least positive one. Infinity is whatever reaches 2^1024. An operation rounds its exact result, a
-- fraction, to the nearest float, and to the even one of two.
pub mod Rounding
pub mod Operations
use ultranix_mcp.Prelude.Tests.{ltb, if◌then◌else◌, Bool-cases}
use Prim.Native.Nat.{ℕ, zero, suc, ◌+◌, ◌-◌, ◌*◌, ◌/◌, ◌%◌, ◌^◌, ◌≤◌, ◌<◌, min}
use native.Mathlib.Nat.{
  div-add-mod', pow-suc, mul_comm, le-div_iff_mul-le, le_of_mul-le-mul_right,
  lt_of_mul-lt-mul_right, mul_assoc, mul_left_comm,
}
use mathlib.Core.Path.{◌≡◌, refl, sym, ap, ◌∙◌, subst}
use mathlib.Core.Logic.{inl, inr}
use mathlib.Core.Bool.{Bool, true, ◌&&◌}
use native.Mathlib.Omega.{arith}

-- 2^53, the first number that 53 bits do not write
abbrev pub significands : ℕ
significands = 9007199254740992

unfoldable pub half_even : ℕ → ℕ → ℕ
half_even num den =
    let q = num / den in
    let r = num % den in if ltb (2 * r) den then q else if ltb den (2 * r) then q + 1 else q + q % 2

-- While the fraction needs more than 53 bits, the unit is doubled.
unfoldable pub fit : ℕ → ℕ → ℕ → ℕ
fit zero num den = half_even num den
fit (suc fuel) num den =
    let wide = 2 * fit fuel num (2 * den) in
    if ltb num (significands * den) then half_even num den else wide

-- A number that 53 bits write, in some unit.
unfoldable pub is_float : ℕ → ℕ → Bool
is_float zero m = true
is_float (suc fuel) m =
    let halved = is_float fuel (m / 2) in
    if ltb m significands then true else (ltb (m % 2) 1 && halved)

-- A float's units reach far past 2^1024; so much doubling is enough for a product.
abbrev pub doublings : ℕ
doublings = 4096

-- 1.0
unfoldable pub one : ℕ
one = 2 ^ 1074

unfoldable pub rounded : ℕ → ℕ → ℕ
unfolding fit
rounded num den = fit doublings num den

unfoldable pub is_f64 : ℕ → Bool
unfolding is_float
is_f64 m = is_float doublings m

unfoldable pub is_finite : ℕ → Bool
is_finite m = ltb m (2 ^ 2098)

-- The operations on floats; `fsub` of a smaller one from a larger.
unfoldable pub fadd : ℕ → ℕ → ℕ
unfolding rounded
fadd a b = rounded (a + b) 1

unfoldable pub fsub : ℕ → ℕ → ℕ
unfolding rounded
fsub a b = rounded (a - b) 1

unfoldable pub fmul : ℕ → ℕ → ℕ
unfolding rounded one
fmul a b = rounded (a * b) one

unfoldable pub fdiv : ℕ → ℕ → ℕ
unfolding rounded one
fdiv a b = rounded (a * one) b

-- `as f64`
unfoldable pub from_nat : ℕ → ℕ
unfolding rounded one
from_nat n = rounded (n * one) 1

-- `Duration::as_secs_f64`, of nanoseconds
unfoldable pub as_secs : ℕ → ℕ
unfolding fadd fdiv from_nat
as_secs ns =
    fadd (from_nat (ns / 1000000000)) (fdiv (from_nat (ns % 1000000000)) (from_nat 1000000000))

-- `.ceil()` and `as u64`, the greatest of which is taken for what is larger
unfoldable pub ceil_u64 : ℕ → ℕ
unfolding one
ceil_u64 a = min ((a + one - 1) / one) (2 ^ 64 - 1)
