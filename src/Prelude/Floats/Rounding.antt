-- ===== src/Prelude/Floats/Rounding.antt =====
-- Rounding keeps the order, floats as they are, and gives floats.
use ultranix_mcp.Prelude.Tests.{ltb, Bool-cases}
use Prim.Native.Nat.{ℕ, zero, suc, ◌+◌, ◌-◌, ◌*◌, ◌/◌, ◌%◌, ◌^◌, ◌≤◌, ◌<◌}
use native.Mathlib.Nat.{
  div-add-mod', pow-suc, mul_comm, le-div_iff_mul-le, le_of_mul-le-mul_right,
  lt_of_mul-lt-mul_right, mul_assoc, mul_left_comm,
}
use mathlib.Core.Path.{◌≡◌, refl, sym, ap, ◌∙◌, subst}
use mathlib.Core.Logic.{inl, inr}
use mathlib.Core.Bool.{true}
use native.Mathlib.Omega.{arith}
use ultranix_mcp.Prelude.Floats.{significands, half_even, fit, is_float}

-- The quotient and the rest of a fraction below a whole number.
below_whole : (q r den m : ℕ) → 0 < den → q * den + r ≤ m * den → (q ≤ m) × (0 < r → q < m)
below_whole q r den m h k = (
  le_of_mul-le-mul_right {k = den} (omega (arith, k)) h,
  λ p. lt_of_mul-lt-mul_right den (omega (arith, k, p)),
)

half_even-le : (num den m : ℕ) → 0 < den → num ≤ m * den → half_even num den ≤ m
unfolding half_even
half_even-le num den m h k =
    let parts : (num / den) * den + num % den ≤ m * den = omega (arith, div-add-mod' num den, k) in
    let (low, lower) = below_whole (num / den) (num % den) den m h parts in
    elim (Bool-cases (ltb (2 * (num % den)) den)) [
      | inl e ↦ rw e low
      | inr e ↦
          let less : num / den < m = lower (ground arith) in
          elim (Bool-cases (ltb den (2 * (num % den)))) [
            | inl f ↦ rw (e, f) (omega (arith, less))
            | inr f ↦ rw (e, f) (omega (arith, less))
          ]
    ]

half_even-ge : (num den m : ℕ) → 0 < den → m * den ≤ num → m ≤ half_even num den
unfolding half_even
half_even-ge num den m h k =
    let low : m ≤ num / den = (le-div_iff_mul-le h).1 k in
    elim (Bool-cases (ltb (2 * (num % den)) den)) [
      | inl e ↦ rw e low
      | inr e ↦ elim (Bool-cases (ltb den (2 * (num % den)))) [
        | inl f ↦ rw (e, f) (omega (arith, low))
        | inr f ↦ rw (e, f) (omega (arith, low))
      ]
    ]

double : (m den : ℕ) → m * (2 * den) ≡ 2 * (m * den)
double m den = mul_left_comm m 2 den

halves : (m h den : ℕ) → m ≡ 2 * h → m * den ≡ h * (2 * den)
halves m h den e = ap (λ x. x * den) e ∙ mul_assoc 2 h den ∙ sym (double h den)

pub small_is_float : (fuel m : ℕ) → ltb m significands ≡ true → is_float fuel m ≡ true
unfolding is_float
small_is_float zero m h = refl
small_is_float (suc fuel) m h = rw h refl

-- A fraction up to a float is not rounded over it.
pub fit-le :
    (fuel num den m : ℕ) → 0 < den → is_float fuel m ≡ true → num ≤ m * den → fit fuel num den ≤ m
unfolding fit is_float
fit-le zero num den m h f k = half_even-le num den m h k
fit-le (suc fuel) num den m h f k = elim (Bool-cases (ltb num (significands * den))) [
  | inl e ↦ rw e (half_even-le num den m h k)
  | inr e ↦
      let wide : significands * den ≤ m * den = ground arith in
      let big : significands ≤ m = le_of_mul-le-mul_right wide h in
      let half : (m ≡ 2 * (m / 2)) × (is_float fuel (m / 2) ≡ true) = ground (arith, big) in
      let below =
        fit-le fuel num (2 * den) (m / 2) (omega (arith, h)) half.1
          (omega (arith, k, halves m (m / 2) den half.0)) in
      rw e (omega (arith, below, half.0))
]

-- A fraction from a float on is not rounded under it.
pub fit-ge :
    (fuel num den m : ℕ) → 0 < den → is_float fuel m ≡ true → m * den ≤ num → m ≤ fit fuel num den
unfolding fit is_float
fit-ge zero num den m h f k = half_even-ge num den m h k
fit-ge (suc fuel) num den m h f k = elim (Bool-cases (ltb num (significands * den))) [
  | inl e ↦ rw e (half_even-ge num den m h k)
  | inr e ↦ elim (Bool-cases (ltb m significands)) [
    | inl small ↦
        let half =
          fit-ge fuel num (2 * den) 4503599627370496 (omega (arith, h)) (small_is_float fuel _ refl)
            (ground arith) in
        rw e (ground (arith, half))
    | inr big ↦
        let half : (m ≡ 2 * (m / 2)) × (is_float fuel (m / 2) ≡ true) = ground arith in
        let above =
          fit-ge fuel num (2 * den) (m / 2) (omega (arith, h)) half.1
            (omega (arith, k, halves m (m / 2) den half.0)) in
        rw e (omega (arith, above, half.0))
  ]
]

half_even-is_float :
    (fuel num den : ℕ)
    → 0 < den
    → num < significands * den
    → is_float fuel (half_even num den) ≡ true
unfolding is_float
half_even-is_float zero num den h k = refl
half_even-is_float (suc fuel) num den h k =
    let le = half_even-le num den significands h (omega (arith, k)) in
    elim (Bool-cases (ltb (half_even num den) significands)) [
      | inl e ↦ rw e refl
      | inr e ↦
          let same : half_even num den ≡ significands = ground (arith, le) in
          rw same (rw (small_is_float fuel 4503599627370496 refl) refl)
    ]

doubled-is_float : (fuel x : ℕ) → is_float fuel x ≡ true → is_float (suc fuel) (2 * x) ≡ true
unfolding is_float
doubled-is_float fuel x h =
    let half : (2 * x) / 2 ≡ x = omega arith in
    let even : (2 * x) % 2 ≡ 0 = omega arith in
    elim (Bool-cases (ltb (2 * x) significands)) [
      | inl e ↦ rw e refl
      | inr e ↦ rw e (rw (half, even, h) refl)
    ]

-- What a fraction is rounded to is a float.
pub fit-is_float : (fuel num den : ℕ) → 0 < den → is_float fuel (fit fuel num den) ≡ true
unfolding fit
fit-is_float zero num den h = unfold is_float in refl
fit-is_float (suc fuel) num den h = elim (Bool-cases (ltb num (significands * den))) [
  | inl e ↦ rw e (half_even-is_float (suc fuel) num den h (ground arith))
  | inr e ↦ rw e (
      doubled-is_float fuel (fit fuel num (2 * den))
        (fit-is_float fuel num (2 * den) (omega (arith, h))))
]

-- A float with a power of two taken away, of which it holds less than 2^53, is a float.
pub sub-is_float :
    (fuel k t : ℕ)
    → is_float fuel t ≡ true
    → 2 ^ k ≤ t
    → t < significands * 2 ^ k
    → is_float fuel (t - 2 ^ k) ≡ true
unfolding is_float
sub-is_float zero k t f h b = refl
sub-is_float (suc fuel) zero t f h b = small_is_float (suc fuel) (t - 1) (ground arith)
sub-is_float (suc fuel) (suc k) t f h b = elim (Bool-cases (ltb t significands)) [
  | inl e ↦ small_is_float (suc fuel) (t - 2 ^ suc k) (ground arith)
  | inr e ↦
      let half : (t ≡ 2 * (t / 2)) × (is_float fuel (t / 2) ≡ true) = ground arith in
      let power : 2 ^ suc k ≡ 2 * 2 ^ k = pow-suc 2 k ∙ mul_comm (2 ^ k) 2 in
      let below =
        sub-is_float fuel k (t / 2) half.1 (omega (arith, half.0, power, h))
          (omega (arith, half.0, power, b)) in
      let same : t - 2 ^ suc k ≡ 2 * (t / 2 - 2 ^ k) = omega (arith, half.0, power) in
      subst (λ n. is_float (suc fuel) n ≡ true) (sym same)
        (doubled-is_float fuel (t / 2 - 2 ^ k) below)
]

-- A float is not rounded.
pub fit-exact : (fuel m : ℕ) → is_float fuel m ≡ true → fit fuel m 1 ≡ m
fit-exact fuel m f = omega (
  arith,
  fit-le fuel m 1 m (omega arith) f (omega arith),
  fit-ge fuel m 1 m (omega arith) f (omega arith),
)
