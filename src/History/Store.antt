-- ===== src/History/Store.antt =====
-- src/security/history.rs: the store. Its file and its key file are part of the state; the environment
-- answers the secret, the random bytes, the clock, and which of the writes succeed. A rewrite replaces
-- the file at once (temporary file and rename); a failed append takes back what it wrote, if it can.
use ultranix_mcp.Prelude.{
  ltb, nat_beq, if◌then◌else◌, nat_eq, string_eq, length, drop, Result, ok, err, ◌>>=◌, ◌>>◌, ok_or,
  ensure, ℕ, ◌+◌, ◌-◌, ◌/◌, max, String, Bool, true, false, not, ◌&&◌, ◌||◌, Option, none, some,
  List, [], ◌∷◌, ◌++◌,
}
use ultranix_mcp.History.Records.{
  Bytes, ActionRecord, NewActionRecord, Cipher, result_summary_max, v2_magic,
}
use ultranix_mcp.History.Frames.{magic_aad, frame_aad, seal_frame, FrameError}
use ultranix_mcp.History.Redaction.{redact_args, truncate_chars}

pub data DiskFormat : Type 0 where
  absent : DiskFormat
  v1 : DiskFormat
  v2 : DiskFormat

pub record Store : Type 0 where
  pub max_records : ℕ
  pub records : List ActionRecord
  pub next_index : ℕ
  pub key : Option Bytes
  pub disk_format : DiskFormat
  pub tail_aad : Bytes
  pub file : Option Bytes
  pub key_file : Option Bytes

pub data HistoryError : Type 0 where
  no_secret : HistoryError
  key_exposed : HistoryError
  key_length : HistoryError
  key_unwritable : HistoryError
  encryption_failed : HistoryError
  write_failed : HistoryError
  open_failed : HistoryError
  chmod_failed : HistoryError
  too_short : HistoryError
  decryption_failed : HistoryError
  unsupported_version : ℕ → HistoryError
  bad_frames : FrameError → HistoryError

-- `secret` is the digest of a secret that is set and not empty. `nonces` numbers the random nonces.
-- `path_says` says whether the history file's path holds the words "No such file". `file_opens` says
-- whether a history file that is there opens for an append, and `torn` is what a failed write leaves in
-- it where its length cannot be restored.
pub record Environment : Type 0 where
  pub secret : Option Bytes
  pub key_private : Bool
  pub fresh_key : Bytes
  pub key_written : Bool
  pub rewritten : Bool
  pub file_opens : Bool
  pub appended : Bool
  pub torn : Bytes
  pub path_says : Bool
  pub chmod : Bool
  pub nonces : ℕ → Bytes
  pub id : String
  pub ts : String

unfoldable pub evict_batch : ℕ → ℕ
evict_batch max_records = max (max_records / 10) 1

-- A key file is read after its mode is checked, and must hold 32 bytes.
unfoldable pub stored_key : Environment → Bytes → Result HistoryError Bytes
stored_key env raw = do
  ensure env.key_private key_exposed
  ensure (nat_beq (length raw) 32) key_length
  ok raw

abbrev generated_key : Environment → Bool → Store → Result HistoryError (Store × Bytes)
generated_key env generate s =
    if generate
    then (if env.key_written
        then ok
            (record s { key = some env.fresh_key; key_file = some env.fresh_key }, env.fresh_key)
        else err key_unwritable)
    else err no_secret

abbrev cached : Store → Result HistoryError Bytes → Result HistoryError (Store × Bytes)
cached s (ok key) = ok (record s { key = some key }, key)
cached s (err e) = err e

unfoldable pub resolve_key : Environment → Bool → Store → Result HistoryError (Store × Bytes)
unfolding stored_key
resolve_key env generate s = elim s.key [
  | some key ↦ ok (s, key)
  | none ↦ elim env.secret [
    | some digest ↦ cached s (ok digest)
    | none ↦ elim s.key_file [
      | some raw ↦ cached s (stored_key env raw)
      | none ↦ generated_key env generate s
    ]
  ]
]

-- The errors of an append whose outermost message holds the path.
abbrev pub names_path : HistoryError → Bool
names_path open_failed = true
names_path write_failed = true
names_path chmod_failed = true
names_path _ = false

abbrev pub is_v2 : DiskFormat → Bool
is_v2 v2 = true
is_v2 _ = false

-- The records sealed one after the other: their frames and the chain's end.
module _ (c : Cipher) (env : Environment) (key : Bytes) where
  unfoldable pub seal_all : ℕ → Bytes → List ActionRecord → Result HistoryError (Bytes × Bytes)
  seal_all i aad [] = ok ([], aad)
  seal_all i aad (r ∷ rs) = do
    frame ← ok_or (seal_frame c key (env.nonces i) r aad) encryption_failed
    (out, tail) ← seal_all (i + 1) (frame_aad c frame) rs
    ok (frame ++ out, tail)

  abbrev pub replaced :
      Option Bytes → Result HistoryError (Bytes × Bytes) → Option Bytes × Result HistoryError Bytes
  replaced file (err e) = (file, err e)
  replaced file (ok (out, tail)) =
      if env.rewritten
      then (some (v2_magic ++ out), if env.chmod then ok tail else err chmod_failed)
      else (file, err write_failed)

  -- The file that is left, and the chain's end or what failed.
  unfoldable pub persist_v2 :
      Option Bytes → List ActionRecord → Option Bytes × Result HistoryError Bytes
  unfolding seal_all
  persist_v2 file records = replaced file (seal_all 0 (magic_aad c) records)

  abbrev pub extended : Option Bytes → Option Bytes → Option Bytes × Result HistoryError Bytes
  extended file none = (file, err encryption_failed)
  extended none (some frame) = (none, err open_failed)
  extended (some bytes) (some frame) =
      if not env.file_opens
      then (some bytes, err open_failed)
      else if env.appended
      then (some (bytes ++ frame), if env.chmod then ok (frame_aad c frame) else err chmod_failed)
      else (some (bytes ++ env.torn), err write_failed)

  unfoldable pub append_frame :
      Option Bytes → ActionRecord → Bytes → Option Bytes × Result HistoryError Bytes
  append_frame file r aad = extended file (seal_frame c key (env.nonces 0) r aad)

  -- A rewrite after an append whose error says so. The test reads the outermost message, which is of
  -- the frame, or `open PATH for append`, `append PATH`, `chmod 600 PATH`: it has the words only if
  -- the store's path has them.
  abbrev pub or_rewrite :
      Bool
      → List ActionRecord
      → Option Bytes × Result HistoryError Bytes
      → Option Bytes × Result HistoryError Bytes
  or_rewrite path_says records (file, ok tail) = (file, ok tail)
  or_rewrite path_says records (file, err e) =
      if path_says && names_path e then persist_v2 file records else (file, err e)

  unfoldable pub persist :
      Store → ℕ → List ActionRecord → ActionRecord → Option Bytes × Result HistoryError Bytes
  unfolding persist_v2 append_frame
  persist s keep_from pushed r =
      if ltb 0 keep_from || not (is_v2 s.disk_format)
      then persist_v2 s.file (drop keep_from pushed)
      else or_rewrite env.path_says (drop keep_from pushed) (append_frame s.file r s.tail_aad)

-- How many records go when a record more than the cap is held.
unfoldable pub keep_from : ℕ → ℕ → ℕ
keep_from max_records n =
    if ltb max_records n then n - (max_records - evict_batch max_records) else 0

unfoldable pub new_record : Environment → NewActionRecord → ℕ → ActionRecord
new_record env entry index = record {
  id = env.id;
  index = index;
  tool = entry.tool;
  args_json = redact_args entry.tool entry.args_json;
  result_summary = truncate_chars entry.result_summary result_summary_max;
  caller = entry.caller;
  ts = env.ts;
  duration_ms = entry.duration_ms;
  outcome = entry.outcome;
}

abbrev pub committed :
    Store
    → ActionRecord
    → List ActionRecord
    → Option Bytes × Result HistoryError Bytes
    → Store × Result HistoryError ActionRecord
committed s r kept (file, err e) = (record s { file = file }, err e)
committed s r kept (file, ok tail) = (
  record s {
    records = kept;
    next_index = s.next_index + 1;
    disk_format = v2;
    tail_aad = tail;
    file = file;
  },
  ok r,
)

unfoldable pub append_record :
    Cipher
    → Environment
    → Bytes
    → NewActionRecord
    → Store
    → Store × Result HistoryError ActionRecord
unfolding persist keep_from
append_record c env key entry s =
    let r = new_record env entry s.next_index in
    let pushed = s.records ++ r ∷ [] in
    let keep = keep_from s.max_records (length pushed) in
    committed s r (drop keep pushed) (persist c env key s keep pushed r)

unfoldable pub record_action :
    Cipher → Environment → NewActionRecord → Store → Store × Result HistoryError ActionRecord
unfolding append_record resolve_key
record_action c env entry s = elim (resolve_key env true s) [
  | ok (keyed, key) ↦ append_record c env key entry keyed
  | err e ↦ (s, err e)
]
