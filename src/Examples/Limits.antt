-- ===== src/Examples/Limits.antt =====
-- The policy, the catalog, the token codec and the rate limiter at concrete inputs.
use ultranix_mcp.Prelude.{
  if◌then◌else◌, ◌==◌, nat_eq, string_eq, contains, Result, ok, err, ◌*◌, ◌≤◌, ◌<◌, String, ◌≡◌,
  refl, ◌↔◌, ◌⊎◌, true, false, none, some, List, [], ◌∷◌, arith,
}
use ultranix_mcp.Prelude.Dict.{lookup}
use ultranix_mcp.Json.{no_members}
use ultranix_mcp.Security.Policy.{
  Policy, Role, default_role, resolve, allows, readonly_allowlist, with_cli, validate, dangling,
  load_or_default, from_file_and_cli, override_readonly, override_allow, override_deny, is_listed,
}
use ultranix_mcp.Security.Policy.Laws.{from_file_and_cli-resolve, readonly-allows_iff}
use ultranix_mcp.Tools.Catalog.{
  category_gate, category_of, category_in, catalog, list_tools_for, is_destructive,
}
use ultranix_mcp.Tools.Catalog.Laws.{list_tools_for_iff, readonly_excludes_destructive}
use ultranix_mcp.Prelude.Floats.{
  one, fmul, as_secs, fadd, fdiv, from_nat, rounded, fit, half_even, significands, is_f64, is_float,
}
use ultranix_mcp.Security.RateLimit.{Bucket, RateLimiter, take_token, check}
use ultranix_mcp.Security.RateLimit.Refill.{
  take_token_refilled, take_times, IsExact, take_times-IsExact,
}
use ultranix_mcp.Security.RateLimit.Limiter.{IsBounded, check-IsBounded}

abbrev viewer : Role
viewer = record { readonly = true; allow_tools = none; deny_tools = [] }

abbrev keyed : Policy
keyed = record {
  default_role = default_role;
  roles = ("viewer", viewer) ∷ [];
  keys = ("k", "viewer") ∷ [];
}

abbrev load : String → Result String Policy
load path = if path == "good" then ok keyed else err "no such file"

keyed-loads : from_file_and_cli load (some "good") false [] [] ≡ ok keyed
unfolding from_file_and_cli load_or_default validate dangling lookup with_cli override_readonly
    override_allow override_deny
keyed-loads = refl

keyed-lookup : lookup "k" keyed.keys ≡ some "viewer"
unfolding lookup
keyed-lookup = refl

from_file_and_cli-resolve_example :
    (r : Role) × (lookup "viewer" keyed.roles ≡ some r) × (resolve keyed (some "k") ≡ r)
from_file_and_cli-resolve_example =
    from_file_and_cli-resolve load (some "good") false [] [] keyed "k" "viewer" keyed-loads
      keyed-lookup

abbrev typing : List String
typing = "type_text" ∷ []

abbrev nothing : List String
nothing = []

abbrev two_tools : List String
two_tools = "sleep" ∷ "metrics" ∷ []

readonly-allows_iff_example :
    (allows (resolve (with_cli true typing nothing keyed) none) "type_text" ≡ true) ↔ (
      (contains keyed.default_role.deny_tools "type_text" ≡ false)
      × (contains nothing "type_text" ≡ false)
      × ((contains readonly_allowlist "type_text" ≡ true)
          ⊎ (contains typing "type_text" ≡ true)
          ⊎ (is_listed keyed.default_role.allow_tools "type_text" ≡ true)))
readonly-allows_iff_example = readonly-allows_iff keyed typing nothing "type_text"

sleep_category : category_of "sleep" ≡ some "automation"
unfolding category_of category_in catalog
sleep_category = refl

list_tools_for_iff_example :
    (contains (list_tools_for two_tools (some ("admin" ∷ [])) (some keyed) (some "k")) "sleep"
      ≡ true)
    ↔ ((contains two_tools "sleep" ≡ true)
        × (category_gate "sleep" (some ("admin" ∷ [])) ≡ none)
        × (allows (resolve keyed (some "k")) "sleep" ≡ true))
list_tools_for_iff_example =
    list_tools_for_iff two_tools ("admin" ∷ []) keyed (some "k") "sleep" "automation" sleep_category

command_destructive : is_destructive "system_command" no_members ≡ true
unfolding is_destructive
command_destructive = refl

readonly_excludes_destructive_example : allows viewer "system_command" ≡ false
readonly_excludes_destructive_example =
    readonly_excludes_destructive viewer "system_command" no_members refl refl command_destructive

-- A request costs one token; half a second at two a second pays for it.
half_second_pays : one ≤ fmul (as_secs 500000000) (2 * one)
unfolding fmul as_secs one fadd fdiv from_nat rounded fit half_even
half_second_pays = omega arith

one_in_burst : one ≤ 20 * one
one_in_burst = omega arith

take_token_refilled_example :
    (take_token (record { tokens = 0; last = 0 }) 500000000 (2 * one) (20 * one)).1 ≡ true
take_token_refilled_example =
    take_token_refilled (record { tokens = 0; last = 0 }) 500000000 (2 * one) (20 * one)
      one_in_burst half_second_pays

abbrev bucket : Bucket
bucket = record { tokens = 2 * one; last = 0 }

abbrev limiter : RateLimiter
limiter = record { rps = 10 * one; burst = 20 * one; buckets = ("a", bucket) ∷ []; ops = 255 }

burst-is_f64 : is_f64 (20 * one) ≡ true
unfolding is_f64 one is_float
burst-is_f64 = refl

limiter-IsBounded : IsBounded limiter
limiter-IsBounded = record { few = omega arith; full = (omega arith, tt); float = burst-is_f64 }

check-IsBounded_example : IsBounded (check "b" 700000000000 limiter).0
check-IsBounded_example = check-IsBounded "b" 700000000000 limiter limiter-IsBounded

bucket-is_f64 : is_f64 bucket.tokens ≡ true
unfolding is_f64 one is_float
bucket-is_f64 = refl

small_burst : 20 * one < significands * one
unfolding one
small_burst = omega arith

take_times-IsExact_example : IsExact 3 bucket.tokens (take_times 3 bucket 0 (10 * one) (20 * one))
take_times-IsExact_example =
    take_times-IsExact 3 bucket 0 (10 * one) (20 * one) refl bucket-is_f64 (omega arith) small_burst
