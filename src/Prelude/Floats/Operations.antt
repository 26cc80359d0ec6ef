-- ===== src/Prelude/Floats/Operations.antt =====
-- The operations on floats: their bounds, and where they are exact.
use Prim.Native.Nat.{ℕ, ◌+◌, ◌-◌, ◌*◌, ◌^◌, ◌≤◌, ◌<◌}
use mathlib.Core.Path.{◌≡◌, refl, ap, ◌∙◌}
use mathlib.Core.Bool.{true}
use native.Mathlib.Omega.{arith}
use ultranix_mcp.Prelude.Floats.{
  significands, half_even, fit, is_float, doublings, one, rounded, is_f64, fadd, fsub, fmul, fdiv,
  from_nat, as_secs,
}
use ultranix_mcp.Prelude.Floats.Rounding.{
  fit-le, fit-ge, fit-is_float, fit-exact, sub-is_float, small_is_float,
}

pub fsub-le : (a b m : ℕ) → is_f64 m ≡ true → a ≤ m → fsub a b ≤ m
unfolding fsub rounded is_f64
fsub-le a b m f h = fit-le doublings (a - b) 1 m (omega arith) f (omega (arith, h))

pub le-fadd : (a b m : ℕ) → is_f64 m ≡ true → m ≤ b → m ≤ fadd a b
unfolding fadd rounded is_f64
le-fadd a b m f h = fit-ge doublings (a + b) 1 m (omega arith) f (omega (arith, h))

pub one-is_f64 : is_f64 one ≡ true
unfolding is_f64 is_float one
one-is_f64 = refl

one_positive : 0 < one
unfolding one
one_positive = omega arith

pub fmul-is_f64 : (a b : ℕ) → is_f64 (fmul a b) ≡ true
unfolding fmul rounded is_f64
fmul-is_f64 a b = fit-is_float doublings (a * b) one one_positive

pub from_nat-is_f64 : (n : ℕ) → is_f64 (from_nat n) ≡ true
unfolding from_nat rounded is_f64
from_nat-is_f64 n = fit-is_float doublings (n * one) 1 (omega arith)

-- Below 2^53 a request's token is taken away without rounding.
pub fsub-exact :
    (t : ℕ)
    → is_f64 t ≡ true
    → one ≤ t
    → t < significands * one
    → (fsub t one ≡ t - one) × (is_f64 (t - one) ≡ true)
unfolding fsub rounded is_f64 one
fsub-exact t f h b =
    let float = sub-is_float doublings 1074 t f h b in
    (fit-exact doublings (t - 2 ^ 1074) float, float)

as_secs-zero : as_secs 0 ≡ 0
unfolding as_secs fadd fdiv from_nat rounded fit half_even one
as_secs-zero = refl

fmul-zero : (rps : ℕ) → fmul 0 rps ≡ 0
unfolding fmul rounded
fmul-zero rps = omega (
  arith,
  fit-le doublings (0 * rps) one 0 one_positive (small_is_float doublings 0 refl) (omega arith),
)

-- A refill of no time adds nothing.
pub fadd-nothing : (t rps : ℕ) → is_f64 t ≡ true → fadd t (fmul (as_secs 0) rps) ≡ t
unfolding fadd rounded is_f64
fadd-nothing t rps f =
    ap (λ n. fit doublings (t + fmul n rps) 1) as_secs-zero
    ∙ ap (λ n. fit doublings (t + n) 1) (fmul-zero rps)
    ∙ ap (λ n. fit doublings n 1) (omega arith)
    ∙ fit-exact doublings t f
