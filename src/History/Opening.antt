-- ===== src/History/Opening.antt =====
-- src/security/history.rs: opening the store on what the disk holds, its queries, and clearing it.
use ultranix_mcp.Prelude.{
  ltb, leb, nat_beq, if◌then◌else◌, ◌==◌, nat_eq, string_eq, length, get_elem?, take, drop, retain,
  find, Result, ok, err, ◌>>=◌, ◌>>◌, ok_or, ensure, ℕ, suc, ◌+◌, ◌-◌, max, String, Bool, true,
  false, ◌&&◌, Option, none, some, List, [], ◌∷◌, map, reverse,
}
use ultranix_mcp.History.Records.{Bytes, ActionRecord, Cipher, v2_magic, nonce_len, tag_len}
use ultranix_mcp.History.Frames.{FrameError, magic_aad, parse_frames}
use ultranix_mcp.History.Store.{
  Store, DiskFormat, absent, v1, v2, HistoryError, too_short, decryption_failed,
  unsupported_version, bad_frames, Environment, resolve_key, write_failed,
}

abbrev format_version : ℕ
format_version = 1

unfoldable pub open_empty : Cipher → ℕ → Option Bytes → Option Bytes → Store
open_empty c max_records file key_file = record {
  max_records = max_records;
  records = [];
  next_index = 0;
  key = none;
  disk_format = absent;
  tail_aad = magic_aad c;
  file = file;
  key_file = key_file;
}

abbrev bytes_beq : Bytes → Bytes → Bool
bytes_beq [] [] = true
bytes_beq [] (b ∷ bs) = false
bytes_beq (a ∷ more) [] = false
bytes_beq (a ∷ more) (b ∷ bs) = a == b && bytes_beq more bs

abbrev pub starts_with_magic : Bytes → Bool
starts_with_magic bytes = bytes_beq (take (length v2_magic) bytes) v2_magic

-- The first index that no record has used.
abbrev pub after_all : List ActionRecord → ℕ
after_all [] = 0
after_all (r ∷ rs) = max (r.index + 1) (after_all rs)

-- The first version's file is one text, sealed with no associated data. `payload` reads its JSON:
-- a version and the records.
module _ (c : Cipher) (payload : Bytes → Option (ℕ × List ActionRecord)) where
  unfoldable pub decrypt_payload : Bytes → Bytes → Result HistoryError (ℕ × List ActionRecord)
  decrypt_payload key bytes = do
    ensure (leb (nonce_len + tag_len) (length bytes)) too_short
    plaintext ←
        ok_or (c.decrypt key (take nonce_len bytes) [] (drop nonce_len bytes)) decryption_failed
    ok_or (payload plaintext) decryption_failed

  abbrev pub loaded : DiskFormat → Bytes → Store → List ActionRecord → Store
  loaded format tail s records = record s {
    disk_format = format;
    tail_aad = tail;
    next_index = after_all records;
    records = drop (length records - s.max_records) records;
  }

  abbrev framed_records :
      Store → Result FrameError (List ActionRecord × Bytes) → Result HistoryError Store
  framed_records s (ok (records, tail)) = ok (loaded v2 tail s records)
  framed_records s (err e) = err (bad_frames e)

  unfoldable pub load_bytes : Store → Bytes → Bytes → Result HistoryError Store
  unfolding decrypt_payload
  load_bytes s key bytes =
      if starts_with_magic bytes
      then framed_records s (parse_frames c key (drop (length v2_magic) bytes))
      else do
        (version, records) ← decrypt_payload key bytes
        ensure (nat_beq version format_version) (unsupported_version version)
        ok (loaded v1 s.tail_aad s records)

  unfoldable pub load : Environment → Store → Result HistoryError Store
  unfolding resolve_key load_bytes
  load env s = elim s.file [
    | none ↦ ok s
    | some [] ↦ ok s
    | some (b ∷ bytes) ↦ do (keyed, key) ← resolve_key env false s; load_bytes keyed key (b ∷ bytes)
  ]

-- `clear`: the wiped file is overwritten and removed, or the first of the two that fails stops it.
unfoldable pub clear : Cipher → Bool → Bool → Store → Store × Result HistoryError ℕ
clear c wiped removed s =
    let emptied = record s {
      records = [];
      next_index = 0;
      disk_format = absent;
      tail_aad = magic_aad c;
      file = none;
    } in
    elim s.file [
      | none ↦ (emptied, ok (length s.records))
      | some bytes ↦
          if wiped
          then (if removed
              then (emptied, ok (length s.records))
              else (record s { file = some (map (λ _. 0) bytes) }, err write_failed))
          else (s, err write_failed)
    ]

unfoldable pub list : ℕ → Store → List ActionRecord
list limit s = take limit (reverse s.records)

-- `partition_point` of a predicate that holds of a front part and of nothing after it.
unfoldable pub partition_point : (ActionRecord → Bool) → List ActionRecord → ℕ
partition_point p [] = 0
partition_point p (r ∷ rs) = let rest = partition_point p rs in if p r then suc rest else 0

abbrev pub of_index : ℕ → Option ActionRecord → Option ActionRecord
of_index index none = none
of_index index (some r) = if nat_beq r.index index then some r else none

unfoldable pub get_by_index : ℕ → Store → Option ActionRecord
unfolding partition_point
get_by_index index s =
    of_index index (get_elem? s.records (partition_point (λ r. ltb r.index index) s.records))

-- `lowered` is `to_lowercase` and `occurs_in` is `contains` of a text in a text.
unfoldable pub list_filtered :
    (String → String) → (String → String → Bool) → String → ℕ → Store → List ActionRecord
list_filtered lowered occurs_in needle limit s =
    take limit (retain (λ r. occurs_in needle (lowered r.tool)) (reverse s.records))

unfoldable pub get_by_id : String → Store → Option ActionRecord
get_by_id id s = find (λ r. r.id == id) s.records
