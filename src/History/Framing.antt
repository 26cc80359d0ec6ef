-- ===== src/History/Framing.antt =====
-- A stream of sealed frames parses back to its records.
use ultranix_mcp.Prelude.{
  leb, nat_eq, string_eq, Option-cases, length, take, drop, length-append, take_prefix, drop_prefix,
  All, ok, ℕ, suc, ◌+◌, ◌-◌, ◌%◌, ◌^◌, ◌≤◌, ◌<◌, ◌≡◌, refl, sym, ap, ◌∙◌, subst, inl, inr, true,
  Option, none, some, List, [], ◌∷◌, ◌++◌, arith,
}
use ultranix_mcp.History.Records.{
  Bytes, ActionRecord, Cipher, IsCipher, IsStorable, nonce_len, frame_len_size, tag_len,
}
use ultranix_mcp.History.Frames.{
  to_le_bytes, from_le_bytes, magic_aad, frame_aad, framed, seal_frame, follows, Cursor,
  parse_frame, parse_loop, parse_frames,
}

from_le_bytes-to_le_bytes : (n : ℕ) → n < 2 ^ 32 → from_le_bytes (to_le_bytes n) ≡ n
unfolding from_le_bytes to_le_bytes
from_le_bytes-to_le_bytes n h = omega arith

-- The bytes are the frames of the records, chained from `aad` to `tail`, with indices that increase.
unfoldable pub IsSealed :
    Cipher → Bytes → Bytes → Option ℕ → List ActionRecord → Bytes → Bytes → Type 0
IsSealed c key aad prev [] bytes tail = (bytes ≡ []) × (tail ≡ aad)
IsSealed c key aad prev (r ∷ rs) bytes tail =
    (nonce : Bytes) × (frame : Bytes) × (rest : Bytes) × (length nonce ≡ nonce_len)
    × (seal_frame c key nonce r aad ≡ some frame)
    × (length frame < 2 ^ 32)
    × (follows prev r.index ≡ true)
    × (bytes ≡ frame ++ rest)
    × IsSealed c key (frame_aad c frame) (some r.index) rs rest tail

pub seal_frame-shape :
    (c : Cipher) (key nonce aad frame : Bytes) (r : ActionRecord)
    → seal_frame c key nonce r aad ≡ some frame
    → (sealed : Bytes) × (c.encrypt key nonce aad (c.to_vec r) ≡ some sealed)
      × (frame ≡ framed nonce sealed)
unfolding seal_frame
seal_frame-shape c key nonce aad frame r h =
    elim (Option-cases (c.encrypt key nonce aad (c.to_vec r))) [
      | inl e ↦ let bad : ⊥ = ground arith in absurd bad
      | inr (sealed, e) ↦ (sealed, e, ground arith)
    ]

pub length-framed :
    (nonce sealed : Bytes)
    → length (framed nonce sealed) ≡ frame_len_size + (length nonce + length sealed)
unfolding framed to_le_bytes
length-framed nonce sealed = omega (arith, length-append nonce sealed)

-- Reading a frame off a stream.
module _ (c : Cipher) (law : IsCipher c) (key nonce sealed : Bytes) (r : ActionRecord) (at : Cursor)
    (rest : Bytes) (fits : length nonce ≡ nonce_len)
    (sealing : c.encrypt key nonce at.aad (c.to_vec r) ≡ some sealed)
    (small : length (framed nonce sealed) < 2 ^ 32) (order : follows at.prev_index r.index ≡ true)
    (readable : IsStorable c r) where
  payload_small : nonce_len + length sealed < 2 ^ 32
  payload_small = omega (arith, small, length-framed nonce sealed, fits)

  announced :
      from_le_bytes (take frame_len_size (framed nonce sealed ++ rest)) ≡ nonce_len + length sealed
  unfolding framed to_le_bytes
  announced =
      from_le_bytes-to_le_bytes ((nonce_len + length sealed) % 2 ^ 32) (omega arith)
      ∙ omega (arith, payload_small)

  frame_size : frame_len_size + (nonce_len + length sealed) ≡ length (framed nonce sealed)
  frame_size = omega (arith, length-framed nonce sealed, fits)

  frame_taken :
      take (frame_len_size + (nonce_len + length sealed)) (framed nonce sealed ++ rest)
      ≡ framed nonce sealed
  frame_taken =
      ap (λ n. take n (framed nonce sealed ++ rest)) frame_size
      ∙ take_prefix (framed nonce sealed) rest

  frame_dropped :
      drop (frame_len_size + (nonce_len + length sealed)) (framed nonce sealed ++ rest) ≡ rest
  frame_dropped =
      ap (λ n. drop n (framed nonce sealed ++ rest)) frame_size
      ∙ drop_prefix (framed nonce sealed) rest

  payload : drop frame_len_size (framed nonce sealed) ≡ nonce ++ sealed
  unfolding framed to_le_bytes
  payload = refl

  nonce_taken : take nonce_len (nonce ++ sealed) ≡ nonce
  nonce_taken = ap (λ n. take n (nonce ++ sealed)) (sym fits) ∙ take_prefix nonce sealed

  nonce_dropped : drop nonce_len (nonce ++ sealed) ≡ sealed
  nonce_dropped = ap (λ n. drop n (nonce ++ sealed)) (sym fits) ∙ drop_prefix nonce sealed

  guards :
      (leb frame_len_size (length (framed nonce sealed ++ rest)) ≡ true)
      × (leb (nonce_len + tag_len) (nonce_len + length sealed) ≡ true)
      × (leb (frame_len_size + (nonce_len + length sealed)) (length (framed nonce sealed ++ rest))
          ≡ true)
  guards =
      let total = length-append (framed nonce sealed) rest in
      let tag = law.encrypt_tag key nonce at.aad (c.to_vec r) sealed sealing in
      (ground (arith, total, frame_size), ground (arith, tag), ground (arith, total, frame_size))

  parse_frame-framed :
      parse_frame c key at (framed nonce sealed ++ rest)
      ≡ ok (
        r,
        record {
          number = at.number + 1;
          aad = frame_aad c (framed nonce sealed);
          prev_index = some r.index;
        },
        rest,
      )
  unfolding parse_frame
  parse_frame-framed =
      rw
        (
          announced,
          guards.0,
          guards.1,
          guards.2,
          frame_taken,
          payload,
          nonce_taken,
          nonce_dropped,
          law.decrypt-encrypt key nonce at.aad (c.to_vec r) sealed sealing,
          readable.0,
          order,
          frame_dropped,
        )
        refl

-- One more turn of the loop.
parse_loop-cons :
    (c : Cipher) (key : Bytes) (fuel : ℕ) (at next : Cursor) (bytes rest tail : Bytes)
    (r : ActionRecord) (rs : List ActionRecord)
    → 0 < length bytes
    → parse_frame c key at bytes ≡ ok (r, next, rest)
    → parse_loop fuel c key next rest ≡ ok (rs, tail)
    → parse_loop (suc fuel) c key at bytes ≡ ok (r ∷ rs, tail)
unfolding parse_loop
parse_loop-cons c key fuel at next [] rest tail r rs h e f = absurd (omega arith)
parse_loop-cons c key fuel at next (b ∷ bytes) rest tail r rs h e f = rw (e, f) refl

parse_loop-sealed :
    (c : Cipher) (key : Bytes) (fuel : ℕ) (at : Cursor) (rs : List ActionRecord)
    (bytes tail : Bytes)
    → IsCipher c
    → All (IsStorable c) rs
    → length bytes ≤ fuel
    → IsSealed c key at.aad at.prev_index rs bytes tail
    → parse_loop fuel c key at bytes ≡ ok (rs, tail)
unfolding parse_loop IsSealed
parse_loop-sealed c key fuel at [] bytes tail law read h (e, f) = rw (e, f) refl
parse_loop-sealed c key fuel at (r ∷ rs) bytes tail law read h
      (nonce, frame, rest, fits, seal, small, order, e, more) =
    let (sealed, sealing, shape) = seal_frame-shape c key nonce at.aad frame r seal in
    let whole : bytes ≡ framed nonce sealed ++ rest = e ∙ ap (λ f. f ++ rest) shape in
    let long : length bytes ≡ frame_len_size + (length nonce + length sealed) + length rest =
      ap length whole
      ∙ length-append (framed nonce sealed) rest
      ∙ ap (λ n. n + length rest) (length-framed nonce sealed) in
    let fuelled : fuel ≡ suc (fuel - 1) = omega (arith, long, h) in
    subst (λ n. parse_loop n c key at bytes ≡ ok (r ∷ rs, tail)) (sym fuelled)
      (parse_loop-cons c key (fuel - 1) at
        (record {
          number = at.number + 1;
          aad = frame_aad c (framed nonce sealed);
          prev_index = some r.index;
        })
        bytes rest tail r rs (omega (arith, long))
        (ap (parse_frame c key at) whole
          ∙ parse_frame-framed c law key nonce sealed r at rest fits sealing
              (subst (λ f. length f < 2 ^ 32) shape small) order read.0)
        (parse_loop-sealed c key (fuel - 1) _ rs rest tail law read.1 (omega (arith, long, h))
          (subst (λ f. IsSealed c key (frame_aad c f) (some r.index) rs rest tail) shape more)))

-- A stream of frames that a key seals, of records that their JSON gives back and with increasing
-- indices, parses back to its records and to the
-- chain's end, under that key.
pub parse_frames-sealed :
    (c : Cipher) (key : Bytes) (rs : List ActionRecord) (bytes tail : Bytes)
    → IsCipher c
    → All (IsStorable c) rs
    → IsSealed c key (magic_aad c) none rs bytes tail
    → parse_frames c key bytes ≡ ok (rs, tail)
unfolding parse_frames
parse_frames-sealed c key rs bytes tail law read h =
    parse_loop-sealed c key (length bytes) _ rs bytes tail law read (omega arith) h
