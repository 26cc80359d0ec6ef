-- ===== src/History/Frames.antt =====
-- src/security/history.rs: sealing a record into a frame, and parsing a stream of frames.
use ultranix_mcp.Prelude.{
  ltb, leb, nat_eq, string_eq, length, take, drop, Result, ok, err, ◌>>=◌, ◌>>◌, ok_or, ensure, ℕ,
  zero, suc, ◌+◌, ◌*◌, ◌/◌, ◌%◌, ◌^◌, Bool, true, Option, none, some, List, [], ◌∷◌, ◌++◌,
}
use ultranix_mcp.History.Records.{
  Bytes, ActionRecord, Cipher, nonce_len, frame_len_size, tag_len, v2_magic,
}

-- `to_le_bytes` of a `u32`, and `from_le_bytes` of four bytes.
unfoldable pub to_le_bytes : ℕ → Bytes
to_le_bytes n = n % 256 ∷ n / 256 % 256 ∷ n / 65536 % 256 ∷ n / 16777216 % 256 ∷ []

abbrev pub byte_at : Bytes → ℕ → ℕ
byte_at [] i = 0
byte_at (b ∷ bs) zero = b
byte_at (b ∷ bs) (suc i) = byte_at bs i

unfoldable pub from_le_bytes : Bytes → ℕ
from_le_bytes bs =
    byte_at bs 0 + 256 * byte_at bs 1 + 65536 * byte_at bs 2 + 16777216 * byte_at bs 3

unfoldable pub magic_aad : Cipher → Bytes
magic_aad c = c.sha256 v2_magic

unfoldable pub frame_aad : Cipher → Bytes → Bytes
frame_aad c prev_frame = c.sha256 prev_frame

-- `len as u32` keeps the low 32 bits.
unfoldable pub framed : Bytes → Bytes → Bytes
framed nonce ciphertext =
    to_le_bytes ((nonce_len + length ciphertext) % 2 ^ 32) ++ nonce ++ ciphertext

abbrev framed_option : Bytes → Option Bytes → Option Bytes
framed_option nonce none = none
framed_option nonce (some ciphertext) = some (framed nonce ciphertext)

unfoldable pub seal_frame : Cipher → Bytes → Bytes → ActionRecord → Bytes → Option Bytes
seal_frame c key nonce r aad = framed_option nonce (c.encrypt key nonce aad (c.to_vec r))

pub data FrameError : Type 0 where
  truncated_prefix : ℕ → FrameError
  invalid_length : ℕ → FrameError
  truncated_frame : ℕ → FrameError
  decrypt_failed : ℕ → FrameError
  invalid_json : ℕ → FrameError
  non_increasing : ℕ → FrameError
  out_of_fuel : FrameError

abbrev pub follows : Option ℕ → ℕ → Bool
follows none i = true
follows (some prev) i = ltb prev i

-- Where the loop of `parse_frames` stands: the number of frames read, the associated data of the next
-- frame, and the last record's index.
pub record Cursor : Type 0 where
  pub number : ℕ
  pub aad : Bytes
  pub prev_index : Option ℕ

-- One turn of the loop, on bytes that are not empty: the record and the cursor of the rest.
unfoldable pub parse_frame :
    Cipher → Bytes → Cursor → Bytes → Result FrameError (ActionRecord × Cursor × Bytes)
parse_frame c key at bytes = do
  ensure (leb frame_len_size (length bytes)) (truncated_prefix at.number)
  ensure (leb (nonce_len + tag_len) (from_le_bytes (take frame_len_size bytes)))
      (invalid_length at.number)
  ensure (leb (frame_len_size + from_le_bytes (take frame_len_size bytes)) (length bytes))
      (truncated_frame at.number)
  let frame = take (frame_len_size + from_le_bytes (take frame_len_size bytes)) bytes
  let payload = drop frame_len_size frame
  plaintext ←
      ok_or (c.decrypt key (take nonce_len payload) at.aad (drop nonce_len payload))
        (decrypt_failed at.number)
  r ← ok_or (c.from_slice plaintext) (invalid_json at.number)
  ensure (follows at.prev_index r.index) (non_increasing at.number)
  ok (
    r,
    record { number = at.number + 1; aad = frame_aad c frame; prev_index = some r.index },
    drop (frame_len_size + from_le_bytes (take frame_len_size bytes)) bytes,
  )

-- The loop, on fuel; every turn takes bytes off.
unfoldable pub parse_loop :
    ℕ → Cipher → Bytes → Cursor → Bytes → Result FrameError (List ActionRecord × Bytes)
unfolding parse_frame
parse_loop fuel c key at [] = ok ([], at.aad)
parse_loop zero c key at (b ∷ bytes) = err out_of_fuel
parse_loop (suc fuel) c key at (b ∷ bytes) = do
  (r, next, rest) ← parse_frame c key at (b ∷ bytes)
  (records, tail) ← parse_loop fuel c key next rest
  ok (r ∷ records, tail)

unfoldable pub parse_frames : Cipher → Bytes → Bytes → Result FrameError (List ActionRecord × Bytes)
unfolding parse_loop
parse_frames c key bytes =
    parse_loop (length bytes) c key (record { number = 0; aad = magic_aad c; prev_index = none })
      bytes
