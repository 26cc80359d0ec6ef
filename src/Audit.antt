-- ===== src/Audit.antt =====
-- src/security/audit.rs: the hash-chained audit log. The open file is the list of its lines, oldest
-- first, without the empty ones that the verifier skips; a day is its number. Archives are the dated
-- files beside it. A call is told how far the file system lets its rotation and its write come.
pub mod Chain
pub mod Opening
use ultranix_mcp.Prelude.{
  ltb, leb, nat_beq, nat_beq_iff, if◌then◌else◌, ltb→lt, leb→le, Equality, ◌==◌, nat_eq, string_eq,
  option_beq, option_beq_iff, Bool-cases, Option-cases, and-eq-true, length, get_elem?, take, drop,
  is_empty, retain, any, all, find, length-append, length-retain-le, length-take, length-drop,
  drop-append, take_prefix, drop_prefix, contains, All, All-append, All-drop, All-retain, All-map,
  All-imp, ◌⧺◌, Result, ok, err, ◌>>=◌, ◌>>◌, ok_or, ensure, to_option, is_ok, Result-cases,
  >>=-eq-ok, ok_or-eq-ok, ensure-eq-ok, ok_injective, ℕ, zero, suc, ◌+◌, ◌-◌, ◌*◌, ◌/◌, ◌%◌, ◌^◌,
  ◌≤◌, ◌<◌, min, max, Char, code, String, ◌≡◌, refl, sym, ap, ◌∙◌, ◌≡⟨◌⟩◌, ◌∎, subst, ◌≢◌, ◌↔◌, ◌⊎◌,
  inl, inr, Bool, true, false, not, ◌&&◌, ◌||◌, Option, none, some, List, [], ◌∷◌, ◌++◌, map,
  reverse, foldl, arith,
}

-- SHA-256 of a line in hexadecimal; the line of a record after a hash, with its time, its tool's name
-- cut to 128 bytes, and its signature when the log has a secret; and the `prev_hash` that a line
-- claims, or why it has none.
pub record Journal (Entry : Type 0) : Type 0 where
  pub sha256_hex : String → String
  pub line : Entry → String → String
  pub claimed : String → Result String String

-- Sixty-four zeros
abbrev pub genesis : String
genesis = "0000000000000000000000000000000000000000000000000000000000000000"

-- `ended` says that the open file ends in a newline, so that the next record starts a line. `archived`
-- says that the open file has been renamed and that nothing is at the live path.
pub record AuditLog : Type 0 where
  pub lines : List String
  pub ended : Bool
  pub archived : Bool
  pub prev_hash : String
  pub date : ℕ
  pub archives : List (ℕ × List String)
  pub retention : Option ℕ

abbrev pub expired : ℕ → ℕ → ℕ × List String → Bool
expired today days a = ltb days (today - a.0)

unfoldable pub prune_archives : ℕ → Option ℕ → List (ℕ × List String) → List (ℕ × List String)
prune_archives today none archives = archives
prune_archives today (some days) archives = retain (λ a. not (expired today days a)) archives

unfoldable pub roll_over : ℕ → AuditLog → AuditLog
unfolding prune_archives
roll_over today l = record l {
  lines = [];
  ended = true;
  prev_hash = genesis;
  date = today;
  archives = prune_archives today l.retention (l.archives ++ (l.date, l.lines) ∷ []);
}

-- How far a rotation comes: to its end; not to the rename; to the rename but not to a new live file; or
-- to the new file, with a part of the expired archives removed.
pub data Rotation : Type 0 where
  rotated : Rotation
  rename_failed : Rotation
  reopen_failed : Rotation
  prune_failed : (ℕ × List String → Bool) → Rotation

-- What reaches the file of a record: its line and newline, or a piece that is short of them.
pub data Write : Type 0 where
  whole : Write
  cut : String → Write

-- A text goes on the last line if the file does not end in a newline.
unfoldable pub glue : List String → String → List String
glue [] text = text ∷ []
glue (x ∷ []) text = (x ⧺ text) ∷ []
glue (x ∷ y ∷ rest) text = x ∷ glue (y ∷ rest) text

abbrev pub extend : Bool → List String → String → List String
extend true lines text = lines ++ text ∷ []
extend false lines text = glue lines text

abbrev pub pruned_by :
    (ℕ × List String → Bool) → ℕ → Option ℕ → List (ℕ × List String) → List (ℕ × List String)
pruned_by removed today none archives = archives
pruned_by removed today (some days) archives =
    retain (λ a. not (expired today days a && removed a)) archives

-- A prune that fails comes after the reset, and leaves the new day's file.
abbrev pub half_pruned : (ℕ × List String → Bool) → ℕ → AuditLog → AuditLog
half_pruned removed today l = record l {
  lines = [];
  ended = true;
  prev_hash = genesis;
  date = today;
  archives = pruned_by removed today l.retention (l.archives ++ (l.date, l.lines) ∷ []);
}

module _ {Entry : Type 0} (j : Journal Entry) where
  abbrev pub written : Write → String → AuditLog → AuditLog × Bool
  written whole text l = (
    record l { lines = extend l.ended l.lines text; ended = true; prev_hash = j.sha256_hex text },
    true,
  )
  written (cut piece) text l =
      if piece == ""
      then (l, false)
      else (record l { lines = extend l.ended l.lines piece; ended = false }, false)

  unfoldable pub append : Write → Entry → AuditLog → AuditLog × Bool
  unfolding glue
  append write entry l = written write (j.line entry l.prev_hash) l

  unfoldable pub rotate_log : Rotation → ℕ → Write → Entry → AuditLog → AuditLog × Bool
  unfolding append roll_over
  rotate_log rotated today write entry l = append write entry (roll_over today l)
  rotate_log rename_failed today write entry l = (l, false)
  rotate_log reopen_failed today write entry l = (record l { archived = true }, false)
  rotate_log (prune_failed removed) today write entry l = (half_pruned removed today l, false)

  -- `record`, whose answer says whether the record was written. The rename needs a live file.
  unfoldable pub record_call : ℕ → Rotation → Write → Entry → AuditLog → AuditLog × Bool
  unfolding append rotate_log
  record_call today rotation write entry l =
      if nat_beq today l.date
      then append write entry l
      else if l.archived
      then (l, false)
      else rotate_log rotation today write entry l

  -- The loop of `verify_chain_at`, from an expected hash.
  unfoldable pub verify_from : String → List String → Result String Bool
  verify_from expected [] = ok true
  verify_from expected (text ∷ rest) =
      let next = verify_from (j.sha256_hex text) rest in
      j.claimed text >>= λ claim. if claim == expected then next else ok false

  unfoldable pub verify_chain_at : List String → Result String Bool
  unfolding verify_from
  verify_chain_at lines = verify_from genesis lines

  -- The hash of the last line, if there is one.
  unfoldable pub chain_end : String → List String → String
  chain_end hash [] = hash
  chain_end hash (text ∷ rest) = chain_end (j.sha256_hex text) rest
