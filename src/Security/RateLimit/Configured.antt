-- ===== src/Security/RateLimit/Configured.antt =====
-- The limiter that the environment configures.
use ultranix_mcp.Prelude.{
  ltb, leb, ◌==◌, nat_eq, string_eq, Bool-cases, ℕ, ◌≤◌, ◌<◌, max, String, ◌≡◌, refl, inl, inr,
  true, ◌&&◌, Option, none, some, arith,
}
use ultranix_mcp.Prelude.Floats.{fmul, from_nat, is_f64, is_finite, half_even}
use ultranix_mcp.Prelude.Floats.Operations.{fmul-is_f64, from_nat-is_f64}
use ultranix_mcp.Security.RateLimit.{
  RateLimiter, default_rps, default_burst, new, or_default, for_rate, from_env_lookup,
}
use ultranix_mcp.Security.RateLimit.Limiter.{IsBounded}

-- A rate that is positive and finite, a burst of at least the default that is finite, and bounds that
-- hold.
pub record IsConfigured (l : RateLimiter) : Type 0 where
  pub positive : 0 < l.rps
  pub finite : is_finite l.rps ≡ true
  pub ample : default_burst ≤ l.burst
  pub burst_finite : is_finite l.burst ≡ true
  pub bounded : IsBounded l

rps_usable : (0 < default_rps) × (is_finite default_rps ≡ true)
unfolding default_rps is_finite half_even
rps_usable = (omega arith, refl)

burst_usable : (0 < default_burst) × (is_finite default_burst ≡ true)
unfolding default_burst is_finite half_even
burst_usable = (omega arith, refl)

or_default-usable :
    (n d : ℕ)
    → (0 < d) × (is_finite d ≡ true)
    → (0 < or_default (some n) d) × (is_finite (or_default (some n) d) ≡ true)
or_default-usable n d (p, f) = elim (Bool-cases (ltb 0 n && is_finite n)) [
  | inl e ↦ rw e (ground arith, ground arith)
  | inr e ↦ rw e (p, f)
]

or_default-ample :
    (n d : ℕ)
    → is_f64 n ≡ true
    → is_f64 d ≡ true
    → d ≤ n
    → (d ≤ or_default (some n) d) × (is_f64 (or_default (some n) d) ≡ true)
or_default-ample n d f g h = elim (Bool-cases (ltb 0 n && is_finite n)) [
  | inl e ↦ rw e (h, f)
  | inr e ↦ rw e (omega arith, g)
]

default-is_f64 : is_f64 default_burst ≡ true
unfolding default_burst
default-is_f64 = from_nat-is_f64 20

max-is_f64 : (a b : ℕ) → is_f64 a ≡ true → is_f64 b ≡ true → is_f64 (max a b) ≡ true
max-is_f64 a b f g = elim (Bool-cases (leb a b)) [
  | inl e ↦ let same : max a b ≡ b = ground arith in rw same g
  | inr e ↦ let same : max a b ≡ a = ground arith in rw same f
]

new-IsConfigured :
    (r b : ℕ) → is_f64 b ≡ true → default_burst ≤ b → IsConfigured (new (some r) (some b))
unfolding new
new-IsConfigured r b f h =
    let (positive, finite) = or_default-usable r default_rps rps_usable in
    let (sound, burst_finite) = or_default-usable b default_burst burst_usable in
    let (ample, float) = or_default-ample b default_burst f default-is_f64 h in
    record {
      positive = positive;
      finite = finite;
      ample = ample;
      burst_finite = burst_finite;
      bounded = record { few = omega arith; full = tt; float = float };
    }

default-IsConfigured : IsConfigured (new (some default_rps) (some default_burst))
default-IsConfigured = new-IsConfigured default_rps default_burst default-is_f64 (omega arith)

for_rate-IsConfigured :
    (parse : String → Option ℕ) (rate : Option ℕ) → IsConfigured (for_rate parse rate)
for_rate-IsConfigured parse none = default-IsConfigured
for_rate-IsConfigured parse (some rps) = elim (Bool-cases (ltb 0 rps && is_finite rps)) [
  | inl e ↦ rw e (
      new-IsConfigured rps (max default_burst (fmul (from_nat 2) rps))
        (max-is_f64 default_burst (fmul (from_nat 2) rps) default-is_f64
          (fmul-is_f64 (from_nat 2) rps))
        (omega arith))
  | inr e ↦ rw e default-IsConfigured
]

-- Whatever the setting and whatever float it reads as, the limiter of the environment has a positive
-- finite rate, a finite burst of at least 20 requests, and starts within its bounds.
pub from_env_lookup-IsConfigured :
    (parse : String → Option ℕ) (setting : Option String)
    → IsConfigured (from_env_lookup parse setting)
unfolding from_env_lookup
from_env_lookup-IsConfigured parse none = default-IsConfigured
from_env_lookup-IsConfigured parse (some v) = elim (Bool-cases (v == "")) [
  | inl e ↦ rw e default-IsConfigured
  | inr e ↦ rw e (for_rate-IsConfigured parse (parse v))
]
