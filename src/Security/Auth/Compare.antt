-- ===== src/Security/Auth/Compare.antt =====
-- src/security/auth.rs `ct_eq`: the comparison of digests without an early exit, and that it is
-- equality.
use ultranix_mcp.Prelude.{
  nat_beq, nat_beq_iff, nat_eq, string_eq, length, ℕ, zero, suc, ◌/◌, ◌%◌, ◌≤◌, ◌<◌, max, ◌≡◌, refl,
  sym, ap, ◌∙◌, subst, ◌↔◌, ◌⊎◌, inl, inr, Bool, true, List, [], ◌∷◌, arith,
}
use Prim.Native.Nat.{bit_or, bit_xor, bit_or-bitwise, bit_xor-bitwise, digits, differ}

-- What the loop over the pairs of bytes leaves in `diff`.
unfoldable pub fold_diff : ℕ → List ℕ → List ℕ → ℕ
fold_diff diff [] ys = diff
fold_diff diff (x ∷ xs) [] = diff
fold_diff diff (x ∷ xs) (y ∷ ys) = fold_diff (bit_or diff (bit_xor x y)) xs ys

unfoldable pub ct_eq : List ℕ → List ℕ → Bool
unfolding fold_diff
ct_eq a b = nat_beq (fold_diff 0 a b) 0

differ_zero : (x y : ℕ) → differ x y ≡ 0 → x ≡ y
differ_zero zero y h = omega arith
differ_zero (suc x) zero h = omega arith
differ_zero (suc x) (suc y) h = ap suc (differ_zero x y h)

differ_self : (x : ℕ) → differ x x ≡ 0
differ_self zero = refl
differ_self (suc x) = differ_self x

xor_digits_zero : (n a b : ℕ) → a ≤ n → digits (λ y. y) differ n a b ≡ 0 → a ≡ b
xor_digits_zero zero a b le h = omega arith
xor_digits_zero (suc n) zero b le h = omega arith
xor_digits_zero (suc n) (suc a) b le h =
    let half = xor_digits_zero n (suc a / 2) (b / 2) (omega arith) (omega arith) in
    let low = differ_zero (suc a % 2) (b % 2) (omega arith) in omega arith

xor_digits_self : (n a : ℕ) → digits (λ y. y) differ n a a ≡ 0 ⊎ (n < a)
xor_digits_self zero zero = inl refl
xor_digits_self zero (suc a) = inr (omega arith)
xor_digits_self (suc n) zero = inl refl
xor_digits_self (suc n) (suc a) = elim (xor_digits_self n (suc a / 2)) [
  | inl e ↦ inl (rw (e, differ_self (suc a % 2)) refl)
  | inr lt ↦ inr (omega arith)
]

or_digits_zero : (n a b : ℕ) → a ≤ n → digits (λ y. y) max n a b ≡ 0 → (a ≡ 0) × (b ≡ 0)
or_digits_zero zero a b le h = (omega arith, omega arith)
or_digits_zero (suc n) zero b le h = (refl, omega arith)
or_digits_zero (suc n) (suc a) b le h =
    let (half_a, half_b) = or_digits_zero n (suc a / 2) (b / 2) (omega arith) (omega arith) in
    (omega arith, omega arith)

bit_xor-zero_iff : (a b : ℕ) → (bit_xor a b ≡ 0) ↔ (a ≡ b)
bit_xor-zero_iff a b = (
  λ h. xor_digits_zero a a b (omega arith) (sym (bit_xor-bitwise a b) ∙ h),
  λ e. subst (λ y. bit_xor a y ≡ 0) e (bit_xor-bitwise a a ∙ self),
)
  where
    self : digits (λ y. y) differ a a a ≡ 0
    self = elim (xor_digits_self a a) [ inl e ↦ e | inr lt ↦ absurd (omega arith) ]

bit_or-zero_iff : (a b : ℕ) → (bit_or a b ≡ 0) ↔ ((a ≡ 0) × (b ≡ 0))
bit_or-zero_iff a b = (
  λ h. or_digits_zero a a b (omega arith) (sym (bit_or-bitwise a b) ∙ h),
  λ e. rw (e.0, e.1) refl,
)

fold_diff-zero :
    (d : ℕ) (a b : List ℕ) → length a ≡ length b → fold_diff d a b ≡ 0 → (d ≡ 0) × (a ≡ b)
unfolding fold_diff
fold_diff-zero d [] [] e h = (h, refl)
fold_diff-zero d [] (y ∷ ys) e h = absurd (omega arith)
fold_diff-zero d (x ∷ xs) [] e h = absurd (omega arith)
fold_diff-zero d (x ∷ xs) (y ∷ ys) e h =
    let (step, rest) = fold_diff-zero (bit_or d (bit_xor x y)) xs ys (omega arith) h in
    let (start, same) = (bit_or-zero_iff d (bit_xor x y)).0 step in
    (start, λ i. (bit_xor-zero_iff x y).0 same i ∷ rest i)

fold_diff_self : (a : List ℕ) → fold_diff 0 a a ≡ 0
unfolding fold_diff
fold_diff_self [] = refl
fold_diff_self (x ∷ xs) = rw ((bit_xor-zero_iff x x).1 refl) (fold_diff_self xs)

-- On digests of one length the comparison without an early exit answers whether they are equal.
pub ct_eq_iff : (a b : List ℕ) → length a ≡ length b → (ct_eq a b ≡ true) ↔ (a ≡ b)
unfolding ct_eq
ct_eq_iff a b e = (
  λ h. (fold_diff-zero 0 a b e ((nat_beq_iff (fold_diff 0 a b) 0).0 h)).1,
  λ p. subst (λ c. nat_beq (fold_diff 0 a c) 0 ≡ true) p (rw (fold_diff_self a) refl),
)
