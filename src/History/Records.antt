-- ===== src/History/Records.antt =====
-- src/security/history.rs: the records, the numbers of the format, and the cipher it stands on.
use ultranix_mcp.Prelude.{
  nat_eq, string_eq, length, ℕ, ◌+◌, ◌^◌, ◌<◌, String, ◌≡◌, Option, some, List, [], ◌∷◌,
}
use ultranix_mcp.Json.{Value}

abbrev pub Bytes : Type 0
Bytes = List ℕ

pub record ActionRecord : Type 0 where
  pub id : String
  pub index : ℕ
  pub tool : String
  pub args_json : Value
  pub result_summary : String
  pub caller : String
  pub ts : String
  pub duration_ms : ℕ
  pub outcome : String

pub record NewActionRecord : Type 0 where
  pub tool : String
  pub args_json : Value
  pub result_summary : String
  pub caller : String
  pub duration_ms : ℕ
  pub outcome : String

abbrev pub nonce_len : ℕ
nonce_len = 12

abbrev pub frame_len_size : ℕ
frame_len_size = 4

-- The length of a GCM tag, which every ciphertext holds.
abbrev pub tag_len : ℕ
tag_len = 16

abbrev pub result_summary_max : ℕ
result_summary_max = 200

-- "UNXHIST2"
abbrev pub v2_magic : Bytes
v2_magic = 85 ∷ 78 ∷ 88 ∷ 72 ∷ 73 ∷ 83 ∷ 84 ∷ 50 ∷ []

-- AES-256-GCM (`aes-gcm`), SHA-256 (`sha2`) and the JSON of a record (serde_json). `encrypt` and
-- `decrypt` take a key, a nonce, the associated data and a text.
pub record Cipher : Type 0 where
  pub encrypt : Bytes → Bytes → Bytes → Bytes → Option Bytes
  pub decrypt : Bytes → Bytes → Bytes → Bytes → Option Bytes
  pub sha256 : Bytes → Bytes
  pub to_vec : ActionRecord → Bytes
  pub from_slice : Bytes → Option ActionRecord

-- What is relied on: what was encrypted decrypts under the same key, nonce and associated data, and a
-- ciphertext is as long as its text and the tag.
pub record IsCipher (c : Cipher) : Type 0 where
  pub decrypt-encrypt :
      (key nonce aad plain sealed : Bytes)
      → c.encrypt key nonce aad plain ≡ some sealed
      → c.decrypt key nonce aad sealed ≡ some plain
  pub encrypt_tag :
      (key nonce aad plain sealed : Bytes)
      → c.encrypt key nonce aad plain ≡ some sealed
      → length sealed ≡ length plain + tag_len

-- serde_json reads the record back from its JSON, and its frame, of 32 bytes and that JSON, does not
-- reach 4 GiB.
abbrev pub IsStorable : Cipher → ActionRecord → Type 0
IsStorable c r = (c.from_slice (c.to_vec r) ≡ some r) × (length (c.to_vec r) + 32 < 2 ^ 32)
