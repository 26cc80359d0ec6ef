-- ===== src/Examples/Histories.antt =====
-- The history at concrete records, with a toy cipher.
use ultranix_mcp.Prelude.{
  ltb, nat_beq, if◌then◌else◌, nat_eq, string_eq, length, take, find, length-append, take_prefix,
  Result, ok, ℕ, ◌+◌, ◌-◌, ◌<◌, ◌≡◌, refl, ap, ◌∙◌, true, false, ◌&&◌, Option, none, some, [], ◌∷◌,
  ◌++◌, arith,
}
use ultranix_mcp.Prelude.Dict.{insert}
use ultranix_mcp.Json.{null, string, object, member, no_members}
use ultranix_mcp.History.Records.{
  Bytes, ActionRecord, NewActionRecord, Cipher, IsCipher, IsStorable,
}
use ultranix_mcp.History.Frames.{
  magic_aad, frame_aad, seal_frame, framed, to_le_bytes, parse_frames,
}
use ultranix_mcp.History.Fuel.{ran_out, parse_frames_terminates}
use ultranix_mcp.History.Framing.{IsSealed}
use ultranix_mcp.History.Sealing.{IsIncreasing, HasNonces}
use ultranix_mcp.History.Coherence.{IsCoherent}
use ultranix_mcp.History.Recording.{append_record-IsCoherent}
use ultranix_mcp.History.Reopening.{append_record-load_bytes}
use ultranix_mcp.History.Opening.{open_empty, load_bytes, partition_point, get_by_index}
use ultranix_mcp.History.Lookups.{get_by_index-find}
use ultranix_mcp.History.Redaction.{redact_args, truncate_chars}
use ultranix_mcp.Prelude.Texts.{char_count}
use ultranix_mcp.History.Secrecy.{with_args, new_record_hides}
use ultranix_mcp.History.Store.{
  Store, v2, Environment, HistoryError, new_record, append_record, keep_from, evict_batch, persist,
  persist_v2, seal_all, append_frame,
}
use ultranix_mcp.Tools.Catalog.{category_of, category_in, catalog}

abbrev tag : Bytes
tag = 0 ∷ 0 ∷ 0 ∷ 0 ∷ 0 ∷ 0 ∷ 0 ∷ 0 ∷ 0 ∷ 0 ∷ 0 ∷ 0 ∷ 0 ∷ 0 ∷ 0 ∷ 0 ∷ []

abbrev taken : ℕ → ActionRecord
taken i = record {
  id = "id";
  index = i;
  tool = "sleep";
  args_json = null;
  result_summary = "ok";
  caller = "s";
  ts = "now";
  duration_ms = 1;
  outcome = "ok";
}

abbrev from_bytes : Bytes → Option ActionRecord
from_bytes [] = none
from_bytes (i ∷ rest) = some (taken i)

-- Ends a short text with a tag; the JSON of a record is its index.
abbrev toy : Cipher
toy = record {
  encrypt = λ key nonce aad plain.
      if nat_beq (length nonce) 12 && ltb (length plain) 100 then some (plain ++ tag) else none;
  decrypt = λ key nonce aad sealed. some (take (length sealed - 16) sealed);
  sha256 = λ bytes. 1 ∷ [];
  to_vec = λ r. r.index ∷ [];
  from_slice = from_bytes;
}

toy-encrypt :
    (nonce plain sealed : Bytes)
    → (if nat_beq (length nonce) 12 && ltb (length plain) 100 then some (plain ++ tag) else none)
      ≡ some sealed
    → (sealed ≡ plain ++ tag) × (length nonce ≡ 12) × (length plain < 100)
toy-encrypt nonce plain sealed h = (ground arith, ground arith, ground arith)

toy-IsCipher : IsCipher toy
toy-IsCipher = record {
  decrypt-encrypt = λ key nonce aad plain sealed h.
      ap (λ s. some (take (length s - 16) s)) (toy-encrypt nonce plain sealed h).0
      ∙ ap some (
          ap (λ n. take n (plain ++ tag)) (omega (arith, length-append plain tag))
          ∙ take_prefix plain tag);
  encrypt_tag = λ key nonce aad plain sealed h.
      omega (arith, ap length (toy-encrypt nonce plain sealed h).0, length-append plain tag);
}

abbrev environment : Environment
environment = record {
  secret = none;
  key_private = true;
  fresh_key = [];
  key_written = true;
  rewritten = true;
  file_opens = true;
  appended = true;
  torn = [];
  path_says = false;
  chmod = true;
  nonces = λ i. 0 ∷ 0 ∷ 0 ∷ 0 ∷ 0 ∷ 0 ∷ 0 ∷ 0 ∷ 0 ∷ 0 ∷ 0 ∷ 0 ∷ [];
  id = "id";
  ts = "now";
}

environment-HasNonces : HasNonces environment
environment-HasNonces i = refl

abbrev entry : NewActionRecord
entry = record {
  tool = "sleep";
  args_json = null;
  result_summary = "ok";
  caller = "s";
  duration_ms = 1;
  outcome = "ok";
}

abbrev empty : Store
empty = open_empty toy 10 none none

empty-IsCoherent : IsCoherent toy [] empty
unfolding open_empty IsIncreasing
empty-IsCoherent = record {
  all = [];
  out = [];
  increasing = tt;
  below = tt;
  readable = tt;
  kept = refl;
  on_disk = λ h. cc;
}

entry-IsStorable : IsStorable toy (new_record environment entry empty.next_index)
unfolding new_record open_empty redact_args truncate_chars char_count
entry-IsStorable = (refl, omega arith)

-- The bytes after one record.
abbrev after : Store × Result HistoryError ActionRecord
after = append_record toy environment [] entry empty

after_ok : append_record toy environment [] entry empty ≡ (after.0, ok (taken 0))
unfolding append_record new_record open_empty redact_args truncate_chars char_count keep_from
    evict_batch persist persist_v2 seal_all seal_frame framed to_le_bytes
after_ok = refl

append_record-IsCoherent_example :
    IsCoherent toy [] after.0
    × (after.0.disk_format ≡ v2)
    × ((taken 0).index ≡ empty.next_index)
    × (after.0.next_index ≡ empty.next_index + 1)
    × (after.0.max_records ≡ empty.max_records)
append_record-IsCoherent_example =
    append_record-IsCoherent toy environment [] toy-IsCipher environment-HasNonces entry empty
      empty-IsCoherent entry-IsStorable after.0 (taken 0) after_ok

append_record-load_bytes_example :
    (bytes : Bytes) × (opened : Store) × (after.0.file ≡ some bytes)
    × (load_bytes toy (λ b. none) empty [] bytes ≡ ok opened)
    × (opened.records ≡ after.0.records)
    × (opened.tail_aad ≡ after.0.tail_aad)
append_record-load_bytes_example =
    append_record-load_bytes toy (λ b. none) [] toy-IsCipher environment entry empty after.0 empty
      (taken 0) environment-HasNonces empty-IsCoherent entry-IsStorable refl after_ok

-- A second record, and the search in the store that holds both.
abbrev after_two : Store × Result HistoryError ActionRecord
after_two = append_record toy environment [] entry after.0

after_two_ok : append_record toy environment [] entry after.0 ≡ (after_two.0, ok (taken 1))
unfolding append_record new_record open_empty redact_args truncate_chars char_count keep_from
    evict_batch persist persist_v2 seal_all append_frame seal_frame framed to_le_bytes
after_two_ok = refl

second-IsStorable : IsStorable toy (new_record environment entry after.0.next_index)
unfolding append_record new_record open_empty redact_args truncate_chars char_count keep_from
    evict_batch persist persist_v2 seal_all append_frame seal_frame framed to_le_bytes
second-IsStorable = (refl, omega arith)

two-IsCoherent : IsCoherent toy [] after_two.0
two-IsCoherent =
    (append_record-IsCoherent toy environment [] toy-IsCipher environment-HasNonces entry after.0
      append_record-IsCoherent_example.0 second-IsStorable after_two.0 (taken 1) after_two_ok).0

get_by_index-find_example :
    get_by_index 1 after_two.0 ≡ find (λ r. nat_beq r.index 1) after_two.0.records
get_by_index-find_example = get_by_index-find toy [] after_two.0 1 two-IsCoherent

found_second : get_by_index 1 after_two.0 ≡ some (taken 1)
unfolding get_by_index partition_point append_record new_record open_empty redact_args
    truncate_chars char_count keep_from evict_batch persist persist_v2 seal_all append_frame
    seal_frame framed to_le_bytes
found_second = refl

-- The store of one record after its file was removed.
abbrev gone : Store
gone = record {
  max_records = 10;
  records = taken 0 ∷ [];
  next_index = 1;
  key = none;
  disk_format = v2;
  tail_aad = 1 ∷ [];
  file = none;
  key_file = none;
}

abbrev failing : Environment
failing = record environment { rewritten = false }

abbrev failed : Store × Result HistoryError ActionRecord
failed = append_record toy failing [] entry empty

abbrev frame : Bytes
frame = framed (environment.nonces 0) ((3 ∷ []) ++ tag)

frame-IsSealed : IsSealed toy [] (magic_aad toy) none (taken 3 ∷ []) frame (frame_aad toy frame)
unfolding IsSealed seal_frame framed to_le_bytes
frame-IsSealed =
    (environment.nonces 0, frame, [], refl, refl, omega arith, refl, refl, (refl, refl))

outside : category_of "deploy_notes" ≡ none
unfolding category_of category_in catalog
outside = refl

same_size : char_count "pass" ≡ char_count "word"
unfolding char_count
same_size = refl

new_record_hides_example :
    (new_record environment (with_args entry "type_text" (insert "text" (string "pass") [])) 4
      ≡ new_record environment (with_args entry "type_text" (insert "text" (string "word") [])) 4)
    × (new_record environment (with_args entry "clipboard_set" (insert "text" (string "pass") [])) 4
        ≡ new_record environment
            (with_args entry "clipboard_set" (insert "text" (string "word") []))
            4)
    × (new_record environment
          (with_args entry "plugin_run" (insert "params" (object (member "k" null no_members)) []))
          4
        ≡ new_record environment
            (with_args entry "plugin_run"
              (insert "params" (object (member "l" (string "x") no_members)) []))
            4)
    × (new_record environment (with_args entry "deploy_notes" (("a", null) ∷ [])) 4
        ≡ new_record environment (with_args entry "deploy_notes" (("b", string "x") ∷ [])) 4)
new_record_hides_example =
    new_record_hides environment entry 4 [] "pass" "word" (member "k" null no_members)
      (member "l" (string "x") no_members) "deploy_notes" (("a", null) ∷ [])
      (("b", string "x") ∷ []) same_size refl outside refl refl

parse_frames_terminates_example : ran_out (parse_frames toy [] (1 ∷ 0 ∷ 0 ∷ 0 ∷ 7 ∷ [])) ≡ false
parse_frames_terminates_example = parse_frames_terminates toy [] (1 ∷ 0 ∷ 0 ∷ 0 ∷ 7 ∷ [])
