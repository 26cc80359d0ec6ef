-- ===== src/Audit/Opening.antt =====
-- src/security/audit.rs: `open_with_retention`, which archives a stale live file and resumes the chain.
-- `record_date` is the UTC date of a line's timestamp, when the line has one, and `size` its bytes.
-- `rotated`, `pruned` and `opened` say which of the file system's steps succeed; a prune that fails
-- removes nothing, and a folder that cannot be made, where nothing opens, is left out.
use ultranix_mcp.Prelude.{
  leb, nat_beq, nat_beq_iff, if◌then◌else◌, nat_eq, string_eq, All, ok, ℕ, ◌+◌, ◌≤◌, String, ◌≡◌,
  refl, sym, ap, ◌∙◌, subst, ◌≢◌, ◌⊎◌, inl, inr, Bool, true, false, ◌&&◌, ◌||◌, Option, none, some,
  List, [], ◌∷◌, ◌++◌, arith,
}
use ultranix_mcp.Audit.{
  Journal, genesis, AuditLog, prune_archives, verify_chain_at, chain_end, verify_from,
}
use ultranix_mcp.Audit.Chain.{IsChained}

-- The live file and the archives beside it.
pub record LogFiles : Type 0 where
  pub lines : List String
  pub ended : Bool
  pub archives : List (ℕ × List String)

abbrev pub last_line : List String → Option String
last_line [] = none
last_line (text ∷ []) = some text
last_line (text ∷ next ∷ rest) = last_line (next ∷ rest)

abbrev pub hash_or : (String → String) → String → Option String → String
hash_or sha hash none = hash
hash_or sha hash (some text) = sha text

-- A live file of today stays; another is renamed.
abbrev pub archive_by : Bool → Bool → ℕ → LogFiles → Option LogFiles
archive_by true rotated day d = some d
archive_by false true day d =
    some (record { lines = []; ended = true; archives = d.archives ++ (day, d.lines) ∷ [] })
archive_by false false day d = none

abbrev pub archive_stale : ℕ → Bool → Option ℕ → LogFiles → Option LogFiles
archive_stale today rotated none d = some d
archive_stale today rotated (some day) d = archive_by (nat_beq day today) rotated day d

some_injective {ℓ} : {A : Type ℓ} {a b : A} → Path (Option A) (some a) (some b) → a ≡ b
some_injective h = cc

stale_by :
    (today day : ℕ) (d kept : LogFiles) (same rotated : Bool)
    → nat_beq day today ≡ same
    → archive_by same rotated day d ≡ some kept
    → (kept.lines ≡ d.lines) ⊎ ((day ≢ today) × (kept.lines ≡ []))
stale_by today day d kept true rotated e h = inl (ap (λ f. f.lines) (some_injective (sym h)))
stale_by today day d kept false true e h =
    inr (λ same. cc ((nat_beq_iff day today).1 same), ap (λ f. f.lines) (some_injective (sym h)))
stale_by today day d kept false false e h = cc

stale_lines :
    (today : ℕ) (rotated : Bool) (date : Option ℕ) (d kept : LogFiles)
    → archive_stale today rotated date d ≡ some kept
    → (kept.lines ≡ d.lines) ⊎ ((day : ℕ) × (date ≡ some day) × (day ≢ today) × (kept.lines ≡ []))
stale_lines today rotated none d kept h = inl (ap (λ f. f.lines) (some_injective (sym h)))
stale_lines today rotated (some day) d kept h = elim (stale_by today day d kept _ rotated refl h) [
  | inl same ↦ inl same
  | inr (other, empty) ↦ inr (day, refl, other, empty)
]

module _ {Entry : Type 0} (j : Journal Entry) (record_date : String → Option ℕ)
    (size : String → ℕ) where
  abbrev pub file_size : List String → ℕ
  file_size [] = 0
  file_size (text ∷ rest) = size text + 1 + file_size rest

  -- A line that does not fit in the 4096 bytes that are read is cut, and is no JSON.
  abbrev pub first_record_date : List String → Option ℕ
  first_record_date [] = none
  first_record_date (text ∷ rest) = if leb (size text) 4096 then record_date text else none

  -- Of a longer file the last 64 KiB are read, and what stands before the first newline there is dropped.
  abbrev pub fits : List String → String → Bool
  fits lines text = leb (file_size lines) 65536 || leb (size text + 2) 65536

  abbrev pub read_last : List String → Option String → Option String
  read_last lines none = none
  read_last lines (some text) = if fits lines text then some text else none

  unfoldable pub resumed : List String → String
  resumed lines = hash_or j.sha256_hex genesis (read_last lines (last_line lines))

  abbrev pub with_log :
      ℕ → Option ℕ → Bool → Bool → LogFiles → Option LogFiles → LogFiles × Option AuditLog
  with_log today retention pruned opened d none = (d, none)
  with_log today retention pruned opened d (some e) =
      let kept = if pruned then prune_archives today retention e.archives else e.archives in
      (
        record { lines = e.lines; ended = e.ended; archives = kept },
        if pruned && opened
            then some (record {
              lines = e.lines;
              ended = e.ended;
              archived = false;
              prev_hash = resumed e.lines;
              date = today;
              archives = kept;
              retention = retention;
            })
            else none,
      )

  unfoldable pub open_with_retention :
      ℕ → Option ℕ → Bool → Bool → Bool → LogFiles → LogFiles × Option AuditLog
  unfolding resumed
  open_with_retention today retention rotated pruned opened d =
      with_log today retention pruned opened d
        (archive_stale today rotated (first_record_date d.lines) d)

  any_start :
      (one two next : String) (rest : List String)
      → hash_or j.sha256_hex one (last_line (next ∷ rest))
        ≡ hash_or j.sha256_hex two (last_line (next ∷ rest))
  any_start one two next [] = refl
  any_start one two next (text ∷ rest) = any_start one two text rest

  chain_end-last :
      (hash : String) (lines : List String)
      → hash_or j.sha256_hex hash (last_line lines) ≡ chain_end j hash lines
  unfolding chain_end
  chain_end-last hash [] = refl
  chain_end-last hash (text ∷ []) = refl
  chain_end-last hash (text ∷ next ∷ rest) =
      any_start hash (j.sha256_hex text) next rest
      ∙ chain_end-last (j.sha256_hex text) (next ∷ rest)

  fits_small :
      (lines shown : List String)
      → All (λ text. size text ≤ 1024) lines
      → read_last shown (last_line lines) ≡ last_line lines
  fits_small [] shown h = refl
  fits_small (text ∷ []) shown h = ground arith
  fits_small (text ∷ next ∷ rest) shown h = fits_small (next ∷ rest) shown h.1

  resumed-chain_end :
      (lines : List String)
      → All (λ text. size text ≤ 1024) lines
      → resumed lines ≡ chain_end j genesis lines
  unfolding resumed
  resumed-chain_end lines h =
      ap (hash_or j.sha256_hex genesis) (fits_small lines lines h) ∙ chain_end-last genesis lines

  nothing_verifies : verify_chain_at j [] ≡ ok true
  unfolding verify_chain_at verify_from
  nothing_verifies = refl

  -- What an opened log holds: the chain of the live file, or a new one beside the archived file.
  abbrev pub Resumes : ℕ → LogFiles → AuditLog → Type 0
  Resumes today d l =
      (l.lines ≡ d.lines)
      ⊎ ((date : ℕ) × (first_record_date d.lines ≡ some date) × (date ≢ today) × (l.lines ≡ []))

  opened_log :
      (today : ℕ) (retention : Option ℕ) (pruned opened : Bool) (d : LogFiles) (l : AuditLog)
      (e : Option LogFiles)
      → (with_log today retention pruned opened d e).1 ≡ some l
      → (kept : LogFiles) × (e ≡ some kept)
        × (l.lines ≡ kept.lines)
        × (l.prev_hash ≡ resumed kept.lines)
  opened_log today retention pruned opened d l none h = cc
  opened_log today retention true true d l (some kept) h = (
    kept,
    refl,
    ap (λ m. m.lines) (some_injective (sym h)),
    ap (λ m. m.prev_hash) (some_injective (sym h)),
  )
  opened_log today retention true false d l (some kept) h = cc
  opened_log today retention false opened d l (some kept) h = cc

  -- A log that opens over a live file that verifies, whose lines have at most 1024 bytes, is a chain
  -- that verifies and goes on from its last line. It is the live file's, or a new one where the live
  -- file's first record is of another day.
  pub open_with_retention-IsChained :
      (today : ℕ) (retention : Option ℕ) (rotated pruned opened : Bool) (d : LogFiles)
      (l : AuditLog)
      → All (λ text. size text ≤ 1024) d.lines
      → verify_chain_at j d.lines ≡ ok true
      → (open_with_retention today retention rotated pruned opened d).1 ≡ some l
      → IsChained j l × Resumes today d l
  unfolding open_with_retention
  open_with_retention-IsChained today retention rotated pruned opened d l small verified h =
      let (kept, archived, lines, hash) = opened_log today retention pruned opened d l _ h in
      chained l kept lines hash
        (stale_lines today rotated (first_record_date d.lines) d kept archived)
    where
      chained :
          (l : AuditLog) (kept : LogFiles)
          → l.lines ≡ kept.lines
          → l.prev_hash ≡ resumed kept.lines
          → (kept.lines ≡ d.lines)
            ⊎ ((day : ℕ) × (first_record_date d.lines ≡ some day)
                × (day ≢ today)
                × (kept.lines ≡ []))
          → IsChained j l × Resumes today d l
      chained l kept lines hash (inl same) = (
        record {
          verifies = subst (λ t. verify_chain_at j t ≡ ok true) (sym (lines ∙ same)) verified;
          ends =
              ap (chain_end j genesis) (lines ∙ same)
              ∙ sym (resumed-chain_end d.lines small)
              ∙ sym (hash ∙ ap resumed same);
        },
        inl (lines ∙ same),
      )
      chained l kept lines hash (inr (day, dated, other, empty)) = (
        record {
          verifies =
              subst (λ t. verify_chain_at j t ≡ ok true) (sym (lines ∙ empty)) nothing_verifies;
          ends =
              ap (chain_end j genesis) (lines ∙ empty)
              ∙ sym (resumed-chain_end [] tt)
              ∙ sym (hash ∙ ap resumed empty);
        },
        inr (day, dated, other, lines ∙ empty),
      )
