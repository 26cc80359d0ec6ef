-- ===== src/Security/RateLimit.antt =====
-- src/security/ratelimit.rs: one token bucket to an identity. Rates and tokens are floats, rounded as
-- the source's are, and a time is in nanoseconds. The clock is an argument.
pub mod Refill
pub mod Limiter
pub mod Configured
use ultranix_mcp.Prelude.{
  ltb, leb, nat_beq, nat_beq_iff, if◌then◌else◌, ltb→lt, leb→le, Equality, ◌==◌, nat_eq, string_eq,
  option_beq, option_beq_iff, Bool-cases, Option-cases, and-eq-true, length, get_elem?, take, drop,
  is_empty, retain, any, all, find, length-append, length-retain-le, length-take, length-drop,
  drop-append, take_prefix, drop_prefix, contains, All, All-append, All-drop, All-retain, All-map,
  ◌⧺◌, Result, ok, err, ◌>>=◌, ◌>>◌, ok_or, ensure, to_option, is_ok, Result-cases, >>=-eq-ok, ℕ,
  zero, suc, ◌+◌, ◌-◌, ◌*◌, ◌/◌, ◌%◌, ◌^◌, ◌≤◌, ◌<◌, min, max, Char, code, String, ◌≡◌, refl, sym,
  ap, ◌∙◌, ◌≡⟨◌⟩◌, ◌∎, subst, ◌≢◌, ◌↔◌, ◌⊎◌, inl, inr, Bool, true, false, not, ◌&&◌, ◌||◌, Option,
  none, some, List, [], ◌∷◌, ◌++◌, map, reverse, foldl, arith,
}
use ultranix_mcp.Prelude.Dict.{Dict, lookup, insert, remove}
use ultranix_mcp.Prelude.Sorting.{sort}
use ultranix_mcp.Prelude.Floats.{one, fadd, fsub, fmul, from_nat, as_secs, is_finite}

unfoldable pub default_rps : ℕ
unfolding from_nat
default_rps = from_nat 10

unfoldable pub default_burst : ℕ
unfolding from_nat
default_burst = from_nat 20

abbrev pub evict_after : ℕ
evict_after = 600000000000

abbrev pub max_identities : ℕ
max_identities = 4096

abbrev pub gc_every_ops : ℕ
gc_every_ops = 256

pub record Bucket : Type 0 where
  pub tokens : ℕ
  pub last : ℕ

pub record RateLimiter : Type 0 where
  pub rps : ℕ
  pub burst : ℕ
  pub buckets : Dict Bucket
  pub ops : ℕ

abbrev pub or_default : Option ℕ → ℕ → ℕ
or_default none d = d
or_default (some n) d = if ltb 0 n && is_finite n then n else d

-- A float that is negative or no number is `none`.
unfoldable pub new : Option ℕ → Option ℕ → RateLimiter
new rps burst = record {
  rps = or_default rps default_rps;
  burst = or_default burst default_burst;
  buckets = [];
  ops = 0;
}

-- `parse` reads a trimmed float.
module _ (parse : String → Option ℕ) where
  abbrev pub for_rate : Option ℕ → RateLimiter
  for_rate none = new (some default_rps) (some default_burst)
  for_rate (some rps) =
      if ltb 0 rps && is_finite rps
      then new (some rps) (some (max default_burst (fmul (from_nat 2) rps)))
      else new (some default_rps) (some default_burst)

  unfoldable pub from_env_lookup : Option String → RateLimiter
  from_env_lookup none = new (some default_rps) (some default_burst)
  from_env_lookup (some v) =
      if v == "" then new (some default_rps) (some default_burst) else for_rate (parse v)

abbrev pub spend : ℕ → ℕ → Bucket × Bool
spend now tokens =
    if leb one tokens
    then (record { tokens = fsub tokens one; last = now }, true)
    else (record { tokens = tokens; last = now }, false)

unfoldable pub take_token : Bucket → ℕ → ℕ → ℕ → Bucket × Bool
take_token b now rps burst =
    spend now (min (fadd b.tokens (fmul (as_secs (now - b.last)) rps)) burst)

unfoldable pub evict_stale : Dict Bucket → ℕ → Dict Bucket
evict_stale buckets now = retain (λ e. leb (now - e.1.last) evict_after) buckets

abbrev pub last_le : String × Bucket → String × Bucket → Bool
last_le a b = leb a.1.last b.1.last

abbrev pub remove_keys : Dict Bucket → Dict Bucket → Dict Bucket
remove_keys [] buckets = buckets
remove_keys ((k, b) ∷ rest) buckets = remove_keys rest (remove k buckets)

unfoldable pub evict_oldest : Dict Bucket → Dict Bucket
evict_oldest buckets =
    if leb (length buckets) max_identities
    then buckets
    else remove_keys (take (length buckets - max_identities) (sort last_le buckets)) buckets

-- `or_insert_with`: a new identity starts with a full burst.
abbrev pub bucket_or : Option Bucket → ℕ → ℕ → Bucket
bucket_or none now burst = record { tokens = burst; last = now }
bucket_or (some b) now burst = b

-- The sweep before a check.
unfoldable pub swept : RateLimiter → ℕ → Dict Bucket
swept l now =
    if nat_beq (((l.ops + 1) % 2 ^ 64) % gc_every_ops) 0 || ltb max_identities (length l.buckets)
    then evict_stale l.buckets now
    else l.buckets

unfoldable pub check : String → ℕ → RateLimiter → RateLimiter × Bool
unfolding swept
check identity now l =
    let buckets = swept l now in
    let taken = take_token (bucket_or (lookup identity buckets) now l.burst) now l.rps l.burst in
    (
      record l {
        ops = (l.ops + 1) % 2 ^ 64;
        buckets = evict_oldest (insert identity taken.0 buckets);
      },
      taken.1,
    )
