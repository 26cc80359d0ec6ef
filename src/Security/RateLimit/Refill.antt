-- ===== src/Security/RateLimit/Refill.antt =====
-- What a bucket admits at one time, and when it has refilled.
use ultranix_mcp.Prelude.{
  leb, leb→le, if◌then◌else◌, Bool-cases, ℕ, zero, suc, ◌+◌, ◌-◌, ◌*◌, ◌≤◌, ◌<◌, min, ◌≡◌, refl, ap,
  ◌∙◌, ◌⊎◌, inl, inr, Bool, true, false, arith,
}
use ultranix_mcp.Prelude.Floats.{one, fadd, fmul, as_secs, is_f64, significands, fsub}
use ultranix_mcp.Prelude.Floats.Operations.{fsub-exact, fadd-nothing, le-fadd, one-is_f64}
use ultranix_mcp.Security.RateLimit.{Bucket, spend, take_token}

spend-paid : (now tokens : ℕ) → one ≤ tokens → (spend now tokens).1 ≡ true
spend-paid now tokens h = ground (arith, h)

-- Where the burst holds a request, a request is admitted if, since the bucket's last use, the
-- refill alone has paid for it, whatever the roundings.
pub take_token_refilled :
    (b : Bucket) (now rps burst : ℕ)
    → one ≤ burst
    → one ≤ fmul (as_secs (now - b.last)) rps
    → (take_token b now rps burst).1 ≡ true
unfolding take_token
take_token_refilled b now rps burst h k =
    let paid = le-fadd b.tokens (fmul (as_secs (now - b.last)) rps) one one-is_f64 k in
    spend-paid now (min (fadd b.tokens (fmul (as_secs (now - b.last)) rps)) burst)
      (omega (arith, paid, h))

-- So many requests on one bucket at one time: the bucket that is left, and how many passed.
unfoldable pub take_times : ℕ → Bucket → ℕ → ℕ → ℕ → Bucket × ℕ
take_times zero b now rps burst = (b, 0)
take_times (suc n) b now rps burst =
    let taken = take_token b now rps burst in
    let rest = take_times n taken.0 now rps burst in (rest.0, (if taken.1 then 1 else 0) + rest.1)

-- The requests that passed and what is left make up what was held, and a request failed only for want
-- of a token.
abbrev pub IsExact : ℕ → ℕ → Bucket × ℕ → Type 0
IsExact n held (left, passed) =
    (passed * one + left.tokens ≡ held) × ((passed ≡ n) ⊎ (left.tokens < one))

take_token-now :
    (b : Bucket) (now rps burst : ℕ)
    → b.last ≡ now
    → is_f64 b.tokens ≡ true
    → b.tokens ≤ burst
    → take_token b now rps burst ≡ spend now b.tokens
unfolding take_token
take_token-now b now rps burst at_once float full =
    let none_passed : now - b.last ≡ 0 = omega (arith, at_once) in
    let held : fadd b.tokens (fmul (as_secs (now - b.last)) rps) ≡ b.tokens =
      ap (λ n. fadd b.tokens (fmul (as_secs n) rps)) none_passed
      ∙ fadd-nothing b.tokens rps float in
    ap (λ n. spend now n) (ap (λ n. min n burst) held ∙ omega (arith, full))

-- One more request's token.
one_more : (passed : ℕ) → (1 + passed) * one ≡ one + passed * one
one_more passed = omega arith

none_more : (passed : ℕ) → (0 + passed) * one ≡ passed * one
none_more passed = omega arith

IsExact-sum :
    (held : ℕ) (left : Bucket) (passed : ℕ)
    → one ≤ held
    → passed * one + left.tokens ≡ held - one
    → (1 + passed) * one + left.tokens ≡ held
IsExact-sum held left passed h sum = omega (arith, one_more passed, sum, h)

spend-enough :
    (now tokens left : ℕ)
    → leb one tokens ≡ true
    → fsub tokens one ≡ left
    → spend now tokens ≡ (record { tokens = left; last = now }, true)
spend-enough now tokens left e same = rw e (ap (λ n. admitted n now) same)
  where
    admitted : ℕ → ℕ → Bucket × Bool
    admitted n now = (record { tokens = n; last = now }, true)

spend-short :
    (now tokens : ℕ)
    → leb one tokens ≡ false
    → spend now tokens ≡ (record { tokens = tokens; last = now }, false)
spend-short now tokens e = rw e refl

IsExact-passed :
    (n held : ℕ) (out : Bucket × ℕ)
    → one ≤ held
    → IsExact n (held - one) out
    → IsExact (suc n) held (out.0, 1 + out.1)
IsExact-passed n held (left, passed) h (sum, inl all) =
    (IsExact-sum held left passed h sum, inl (omega (arith, all)))
IsExact-passed n held (left, passed) h (sum, inr few) =
    (IsExact-sum held left passed h sum, inr few)

IsExact-failed :
    (n held : ℕ) (out : Bucket × ℕ)
    → held < one
    → IsExact n held out
    → IsExact (suc n) held (out.0, 0 + out.1)
IsExact-failed n held (left, passed) h (sum, more) =
    (omega (arith, none_more passed, sum), inr (omega (arith, sum, h)))

not_enough : (tokens : ℕ) → leb one tokens ≡ false → tokens < one
not_enough tokens e = ground arith

-- At the time of its last use, a bucket that holds a float within its burst, of fewer than 2^53 requests,
-- is not rounded: of any number of requests it admits as many as it holds tokens for, each for exactly
-- one token, and refuses one only when it holds less than a token.
pub take_times-IsExact :
    (n : ℕ) (b : Bucket) (now rps burst : ℕ)
    → b.last ≡ now
    → is_f64 b.tokens ≡ true
    → b.tokens ≤ burst
    → burst < significands * one
    → IsExact n b.tokens (take_times n b now rps burst)
unfolding take_times
take_times-IsExact zero b now rps burst e f full small = (omega arith, inl refl)
take_times-IsExact (suc n) b now rps burst e f full small = elim (Bool-cases (leb one b.tokens)) [
  | inl enough ↦
      let held : one ≤ b.tokens = leb→le one b.tokens enough in
      let (left, float) = fsub-exact b.tokens f held (omega (arith, full, small)) in
      let step : take_token b now rps burst
          ≡ (record { tokens = b.tokens - one; last = now }, true) =
        take_token-now b now rps burst e f full
        ∙ spend-enough now b.tokens (b.tokens - one) enough left in
      rw step (
        IsExact-passed n b.tokens
          (take_times n (record { tokens = b.tokens - one; last = now }) now rps burst) held
          (take_times-IsExact n (record { tokens = b.tokens - one; last = now }) now rps burst refl
            float (omega (arith, full)) small))
  | inr short ↦
      let lacking : b.tokens < one = not_enough b.tokens short in
      let step : take_token b now rps burst ≡ (record { tokens = b.tokens; last = now }, false) =
        take_token-now b now rps burst e f full ∙ spend-short now b.tokens short in
      rw step (
        IsExact-failed n b.tokens
          (take_times n (record { tokens = b.tokens; last = now }) now rps burst) lacking
          (take_times-IsExact n (record { tokens = b.tokens; last = now }) now rps burst refl f full
            small))
]
