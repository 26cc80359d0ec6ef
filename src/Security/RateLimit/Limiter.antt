-- ===== src/Security/RateLimit/Limiter.antt =====
-- The limiter's map of buckets: its bound, what its buckets hold, and whom a check touches.
use ultranix_mcp.Prelude.{
  ltb, leb, nat_beq, leb→le, ◌==◌, nat_eq, string_eq, Bool-cases, length, take, any,
  length-retain-le, All, All-retain, All-imp, ℕ, suc, ◌+◌, ◌-◌, ◌%◌, ◌^◌, ◌≤◌, min, String, ◌≡◌,
  inl, inr, Bool, true, ◌||◌, [], ◌∷◌, arith,
}
use text.Mathlib.TextPositions.{eq_refl}
use ultranix_mcp.Prelude.Dict.{
  Dict, lookup, remove, length-insert-le, length-remove-le, All-remove, All-insert,
}
use ultranix_mcp.Prelude.Sorting.{sort, All-sort, length-sort}
use ultranix_mcp.Prelude.Floats.{one, fadd, fmul, as_secs, is_f64}
use ultranix_mcp.Prelude.Floats.Operations.{fsub-le}
use ultranix_mcp.Security.RateLimit.{
  Bucket, RateLimiter, max_identities, spend, take_token, evict_after, gc_every_ops, evict_stale,
  evict_oldest, remove_keys, last_le, bucket_or, swept, check,
}

-- The burst is a float, every bucket holds at most a burst, and there are no more buckets than the cap.
pub record IsBounded (l : RateLimiter) : Type 0 where
  pub few : length l.buckets ≤ max_identities
  pub full : All (λ e. e.1.tokens ≤ l.burst) l.buckets
  pub float : is_f64 l.burst ≡ true

has_key : String → Dict Bucket → Bool
has_key k m = any (λ e. e.0 == k) m

length-remove_key :
    (k : String) (m : Dict Bucket) → has_key k m ≡ true → suc (length (remove k m)) ≤ length m
unfolding has_key remove
length-remove_key k [] h = cc
length-remove_key k ((j, b) ∷ m) h = ground (arith, length-remove_key k m, length-remove-le k m)

All-has_key : (m : Dict Bucket) → All (λ e. has_key e.0 m ≡ true) m
unfolding has_key
All-has_key [] = tt
All-has_key ((j, b) ∷ m) =
    (ground (arith, eq_refl j), All-imp m (λ e h. ground arith) (All-has_key m))

-- Dropping the first of a sorted map that is one too many.
first-few :
    (m xs : Dict Bucket)
    → length m ≡ max_identities + 1
    → length xs ≡ length m
    → All (λ e. has_key e.0 m ≡ true) xs
    → length (remove_keys (take 1 xs) m) ≤ max_identities
first-few m [] h k a = absurd (omega arith)
first-few m ((j, b) ∷ xs) h k a = omega (arith, length-remove_key j m a.0, h)

evict_oldest-few :
    (m : Dict Bucket) → length m ≤ max_identities + 1 → length (evict_oldest m) ≤ max_identities
unfolding evict_oldest
evict_oldest-few m h = elim (Bool-cases (leb (length m) max_identities)) [
  | inl e ↦ rw e (leb→le _ _ e)
  | inr e ↦
      let full : length m ≡ max_identities + 1 = ground arith in
      rw (e, full)
        (first-few m (sort last_le m) full (length-sort last_le m)
          (All-sort last_le _ m (All-has_key m)))
]

remove_keys-All :
    (burst : ℕ) (ks m : Dict Bucket)
    → All (λ e. e.1.tokens ≤ burst) m
    → All (λ e. e.1.tokens ≤ burst) (remove_keys ks m)
remove_keys-All burst [] m h = h
remove_keys-All burst ((k, b) ∷ ks) m h =
    remove_keys-All burst ks (remove k m) (All-remove (λ b. b.tokens ≤ burst) k m h)

evict_oldest-All :
    (burst : ℕ) (m : Dict Bucket)
    → All (λ e. e.1.tokens ≤ burst) m
    → All (λ e. e.1.tokens ≤ burst) (evict_oldest m)
unfolding evict_oldest
evict_oldest-All burst m h = elim (Bool-cases (leb (length m) max_identities)) [
  | inl e ↦ rw e h
  | inr e ↦ rw e (remove_keys-All burst (take (length m - max_identities) (sort last_le m)) m h)
]

swept-All :
    (l : RateLimiter) (now : ℕ)
    → All (λ e. e.1.tokens ≤ l.burst) l.buckets
    → All (λ e. e.1.tokens ≤ l.burst) (swept l now)
unfolding swept evict_stale
swept-All l now h =
    elim (Bool-cases (
      nat_beq (((l.ops + 1) % 2 ^ 64) % gc_every_ops) 0 || ltb max_identities (length l.buckets))) [
        | inl e ↦ rw e (
            All-retain (λ e. e.1.tokens ≤ l.burst) (λ e. leb (now - e.1.last) evict_after) l.buckets
              h)
        | inr e ↦ rw e h
      ]

spend-full :
    (now tokens burst : ℕ)
    → is_f64 burst ≡ true
    → tokens ≤ burst
    → (spend now tokens).0.tokens ≤ burst
spend-full now tokens burst f cap = elim (Bool-cases (leb one tokens)) [
  | inl e ↦ rw e (fsub-le tokens one burst f cap)
  | inr e ↦ rw e cap
]

take_token-full :
    (b : Bucket) (now rps burst : ℕ)
    → is_f64 burst ≡ true
    → (take_token b now rps burst).0.tokens ≤ burst
unfolding take_token
take_token-full b now rps burst f =
    spend-full now (min (fadd b.tokens (fmul (as_secs (now - b.last)) rps)) burst) burst f
      (omega arith)

swept-length : (l : RateLimiter) (now : ℕ) → length (swept l now) ≤ length l.buckets
unfolding swept evict_stale
swept-length l now =
    ground (arith, length-retain-le (λ e. leb (now - e.1.last) evict_after) l.buckets)

-- A check keeps the limiter within its bounds: never more buckets than the cap, whoever calls, and no
-- bucket above the burst, which is a float.
pub check-IsBounded :
    (identity : String) (now : ℕ) (l : RateLimiter)
    → IsBounded l
    → IsBounded (check identity now l).0
unfolding check
check-IsBounded identity now l b = record {
  few =
      evict_oldest-few _
        (omega (arith, b.few, swept-length l now, length-insert-le identity _ (swept l now)));
  full = evict_oldest-All l.burst _ (
      All-insert (λ b. b.tokens ≤ l.burst) identity _ (swept l now)
        (take_token-full (bucket_or (lookup identity (swept l now)) now l.burst) now l.rps l.burst
          b.float)
        (swept-All l now b.full));
  float = b.float;
}
