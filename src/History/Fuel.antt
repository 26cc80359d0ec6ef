-- ===== src/History/Fuel.antt =====
-- That the loop of `parse_frames` has enough turns.
use ultranix_mcp.Prelude.{
  leb, leb→le, nat_eq, string_eq, length, take, drop, length-drop, Result, ok, err, ◌>>=◌, ◌>>◌,
  ok_or, ensure, >>=-eq-ok, ensure-eq-ok, ok_injective, ℕ, zero, suc, ◌+◌, ◌≤◌, ◌<◌, ◌≡◌, refl, ap,
  Bool, true, false, Option, none, some, [], ◌∷◌, arith,
}
use ultranix_mcp.History.Records.{Bytes, ActionRecord, Cipher, frame_len_size, nonce_len, tag_len}
use ultranix_mcp.History.Frames.{
  Cursor, FrameError, truncated_prefix, invalid_length, truncated_frame, decrypt_failed,
  invalid_json, non_increasing, out_of_fuel, follows, parse_frame, parse_loop, parse_frames,
  from_le_bytes, magic_aad,
}

-- A frame that is read takes at least its length prefix off the bytes.
parse_frame-shorter :
    (c : Cipher) (key : Bytes) (at : Cursor) (bytes : Bytes) (r : ActionRecord) (next : Cursor)
    (rest : Bytes)
    → parse_frame c key at bytes ≡ ok (r, next, rest)
    → length rest < length bytes
unfolding parse_frame
parse_frame-shorter c key at bytes r next rest h =
    let size = from_le_bytes (take frame_len_size bytes) in
    let (u, prefix, h₁) =
      >>=-eq-ok (ensure (leb frame_len_size (length bytes)) (truncated_prefix at.number)) _ h in
    let (v, valid, h₂) =
      >>=-eq-ok (ensure (leb (nonce_len + tag_len) size) (invalid_length at.number)) _ h₁ in
    let (w, whole, h₃) =
      >>=-eq-ok (ensure (leb (frame_len_size + size) (length bytes)) (truncated_frame at.number)) _
        h₂ in
    let frame = take (frame_len_size + size) bytes in
    let payload = drop frame_len_size frame in
    let (plain, opened, h₄) =
      >>=-eq-ok
        (ok_or (c.decrypt key (take nonce_len payload) at.aad (drop nonce_len payload))
          (decrypt_failed at.number))
        _ h₃ in
    let (q, parsed, h₅) = >>=-eq-ok (ok_or (c.from_slice plain) (invalid_json at.number)) _ h₄ in
    let (x, increasing, h₆) =
      >>=-eq-ok (ensure (follows at.prev_index q.index) (non_increasing at.number)) _ h₅ in
    let long =
      leb→le (frame_len_size + size) (length bytes)
        (ensure-eq-ok _ (truncated_frame at.number) whole) in
    let cut = ap (λ t. length t.2) (ok_injective h₆) in
    omega (arith, length-drop (frame_len_size + size) bytes, cut, long)

abbrev pub is_fuel : FrameError → Bool
is_fuel out_of_fuel = true
is_fuel _ = false

unfoldable pub ran_out {ℓ} : {A : Type ℓ} → Result FrameError A → Bool
ran_out (err e) = is_fuel e
ran_out (ok a) = false

ran_out-bind {ℓ κ} :
    {A : Type ℓ} {B : Type κ} (m : Result FrameError A) (k : A → Result FrameError B)
    → ran_out m ≡ false
    → ((a : A) → m ≡ ok a → ran_out (k a) ≡ false)
    → ran_out (m >>= k) ≡ false
unfolding ran_out
ran_out-bind (ok a) k h f = f a refl
ran_out-bind (err e) k h f = h

ran_out-ok {ℓ} : {A : Type ℓ} (a : A) → ran_out (ok a) ≡ false
unfolding ran_out
ran_out-ok a = refl

ran_out-guard {ℓ} :
    {A : Type ℓ} (b : Bool) (e : FrameError) (rest : Result FrameError A)
    → is_fuel e ≡ false
    → ran_out rest ≡ false
    → ran_out (ensure b e >> rest) ≡ false
unfolding ran_out
ran_out-guard true e rest h k = k
ran_out-guard false e rest h k = h

ran_out-ok_or {ℓ} :
    {A : Type ℓ} (o : Option A) (e : FrameError) → is_fuel e ≡ false → ran_out (ok_or o e) ≡ false
unfolding ran_out
ran_out-ok_or none e h = h
ran_out-ok_or (some a) e h = refl

ran_out-parse_frame :
    (c : Cipher) (key : Bytes) (at : Cursor) (bytes : Bytes)
    → ran_out (parse_frame c key at bytes) ≡ false
unfolding parse_frame
ran_out-parse_frame c key at bytes =
    let size = from_le_bytes (take frame_len_size bytes) in
    let payload = drop frame_len_size (take (frame_len_size + size) bytes) in
    let plain = c.decrypt key (take nonce_len payload) at.aad (drop nonce_len payload) in
    ran_out-guard (leb frame_len_size (length bytes)) (truncated_prefix at.number) _ refl (
      ran_out-guard (leb (nonce_len + tag_len) size) (invalid_length at.number) _ refl (
        ran_out-guard (leb (frame_len_size + size) (length bytes)) (truncated_frame at.number) _
          refl
          (ran_out-bind (ok_or plain (decrypt_failed at.number)) _
            (ran_out-ok_or plain (decrypt_failed at.number) refl)
            λ text opened.
              ran_out-bind (ok_or (c.from_slice text) (invalid_json at.number)) _
                (ran_out-ok_or (c.from_slice text) (invalid_json at.number) refl)
                λ r read.
                  ran_out-guard (follows at.prev_index r.index) (non_increasing at.number) _ refl
                    (ran_out-ok _))))

ran_out-parse_loop :
    (fuel : ℕ) (c : Cipher) (key : Bytes) (at : Cursor) (bytes : Bytes)
    → length bytes ≤ fuel
    → ran_out (parse_loop fuel c key at bytes) ≡ false
unfolding parse_loop
ran_out-parse_loop fuel c key at [] h = ran_out-ok _
ran_out-parse_loop zero c key at (b ∷ bytes) h = absurd (omega arith)
ran_out-parse_loop (suc fuel) c key at (b ∷ bytes) h =
    ran_out-bind (parse_frame c key at (b ∷ bytes)) _ (ran_out-parse_frame c key at (b ∷ bytes))
      λ t read.
        let shorter = parse_frame-shorter c key at (b ∷ bytes) t.0 t.1 t.2 read in
        ran_out-bind (parse_loop fuel c key t.1 t.2) _
          (ran_out-parse_loop fuel c key t.1 t.2 (omega arith)) λ out tail. ran_out-ok _

-- The loop over the frames of a file ends by itself, on any bytes: a turn that reads a frame leaves
-- fewer bytes, so as many turns as there are bytes are enough, and the model's own limit on the
-- turns is never the reason of a failure.
pub parse_frames_terminates :
    (c : Cipher) (key bytes : Bytes) → ran_out (parse_frames c key bytes) ≡ false
unfolding parse_frames
parse_frames_terminates c key bytes =
    ran_out-parse_loop (length bytes) c key
      (record { number = 0; aad = magic_aad c; prev_index = none }) bytes (omega arith)
