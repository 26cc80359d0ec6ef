-- ===== src/Examples/Logs.antt =====
-- The audit log at concrete records, with toy lines.
use ultranix_mcp.Prelude.{
  nat_eq, string_eq, ◌⧺◌, ok, ℕ, String, ◌≡◌, refl, ◌⊎◌, true, false, Option, some, List, [], ◌∷◌,
  arith,
}
use ultranix_mcp.Audit.Opening.{
  LogFiles, open_with_retention, Resumes, open_with_retention-IsChained,
}
use ultranix_mcp.Audit.{
  Journal, AuditLog, genesis, rotated, whole, record_call, verify_from, verify_chain_at, chain_end,
  prune_archives,
}
use ultranix_mcp.Audit.Chain.{
  IsChained, record_call-IsChained, HaveCollision, Keeps, verify_chain_at_unique,
}

-- A line is the hash that it follows.
abbrev toy : Journal String
toy = record { sha256_hex = λ s. "h" ⧺ s; line = λ e prev. prev; claimed = λ s. ok s }

abbrev log : AuditLog
log = record {
  lines = [];
  ended = true;
  archived = false;
  prev_hash = genesis;
  date = 3;
  archives = [];
  retention = some 30;
}

log-IsChained : IsChained toy log
unfolding verify_chain_at verify_from chain_end
log-IsChained = record { verifies = refl; ends = refl }

record_call-IsChained_example : Keeps toy "x" (record_call toy 4 rotated whole "x" log)
record_call-IsChained_example =
    record_call-IsChained toy 4 rotated whole "x" log (λ e prev. refl) tt log-IsChained refl

abbrev one_line : List String
one_line = genesis ∷ []

one_verifies : verify_chain_at toy one_line ≡ ok true
unfolding verify_chain_at verify_from
one_verifies = refl

verify_chain_at_unique_example : (one_line ≡ one_line) ⊎ HaveCollision toy one_line one_line
verify_chain_at_unique_example =
    verify_chain_at_unique toy one_line one_line one_verifies one_verifies refl refl

abbrev dated : String → Option ℕ
dated text = some 3

abbrev hundred : String → ℕ
hundred text = 100

abbrev files : LogFiles
files = record { lines = one_line; ended = true; archives = (1, []) ∷ [] }

abbrev stale_log : AuditLog
stale_log = record {
  lines = [];
  ended = true;
  archived = false;
  prev_hash = genesis;
  date = 4;
  archives = (1, []) ∷ (3, one_line) ∷ [];
  retention = some 30;
}

opens_stale :
    (open_with_retention toy dated hundred 4 (some 30) true true true files).1 ≡ some stale_log
unfolding open_with_retention prune_archives
opens_stale = refl

open_with_retention-IsChained_example :
    IsChained toy stale_log × Resumes toy dated hundred 4 files stale_log
open_with_retention-IsChained_example =
    open_with_retention-IsChained toy dated hundred 4 (some 30) true true true files stale_log
      (omega arith, tt) one_verifies opens_stale
