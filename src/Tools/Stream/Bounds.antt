-- ===== src/Tools/Stream/Bounds.antt =====
-- That the rolling window stays within its limits, and what `start` checks of them.
use ultranix_mcp.Prelude.{
  ltb, leb, leb→le, nat_eq, string_eq, Bool-cases, and-eq-true, length, length-append, ok, >>-eq-ok,
  ensure-eq-ok, ℕ, suc, ◌+◌, ◌≤◌, String, ◌≡◌, refl, sym, ap, ◌∙◌, subst, inl, inr, Bool, true,
  false, Option, none, some, List, [], ◌∷◌, ◌++◌, arith,
}
use ultranix_mcp.Tools.Stream.{
  Frame, Entry, StreamState, at_start, entry, evict, append, mirror, written, take_frame,
  SessionMsg, session_cancelled, unsupported, frame_msg, session_failed, Poll, poll_cancelled,
  captured, capture_failed, Exit, goes_on, polled_loop, without_session, session_loop, reported,
  run_stream,
}
use ultranix_mcp.Tools.Stream.Accounts.{total, IsWithin, Fits, evict-IsLeast}
use ultranix_mcp.Tools.Stream.Requests.{
  StreamParams, check_start, is_in, range_message, max_fps, max_max_frames, max_stream_bytes,
}

module _ (max_frames max_bytes : ℕ) (positive : 1 ≤ max_frames) where
  Fits-bounds :
      (size : ℕ) (frames : List Entry)
      → Fits max_frames max_bytes size frames
      → size ≤ max_bytes
      → (length frames + 1 ≤ max_frames) × (total frames + size ≤ max_bytes)
  Fits-bounds size [] h small = (omega arith, omega arith)
  Fits-bounds size (e ∷ es) h small = (omega (arith, h.0), h.1)

  Fits-within :
      (size : ℕ) (frames : List Entry)
      → Fits max_frames max_bytes size frames
      → (length frames ≤ max_frames) × (total frames ≤ max_bytes)
  Fits-within size [] h = (omega arith, omega arith)
  Fits-within size (e ∷ es) h = (omega (arith, h.0), omega (arith, h.1))

  total-append : (xs : List Entry) (e : Entry) → total (xs ++ e ∷ []) ≡ total xs + e.bytes
  total-append [] e = omega arith
  total-append (x ∷ xs) e = omega (arith, total-append xs e)

  mirror-IsWithin :
      (st : StreamState)
      → st.buffered_bytes ≡ total st.frames
      → length st.frames ≤ max_frames
      → total st.frames ≤ max_bytes
      → IsWithin max_frames max_bytes (mirror st)
  unfolding mirror
  mirror-IsWithin st e few small = record {
    accounted = e;
    few_bytes = omega arith;
    few_frames = few;
    reported_bytes = omega arith;
    reported_frames = few;
  }

  room-IsWithin :
      (size n : ℕ) (st : StreamState)
      → IsWithin max_frames max_bytes st
      → IsWithin max_frames max_bytes
          (record (evict max_frames max_bytes size st.frames st) { seq = n })
  room-IsWithin size n st h =
      let least = evict-IsLeast max_frames max_bytes size st.frames st h.accounted in
      let (few, small) =
        Fits-within size (evict max_frames max_bytes size st.frames st).frames least.fits in
      record {
        accounted = least.summed;
        few_bytes = omega (arith, least.summed);
        few_frames = few;
        reported_bytes =
            subst (λ s. s.buffered_bytes ≤ max_bytes) (sym least.same_stats) h.reported_bytes;
        reported_frames =
            subst (λ s. s.buffered_frames ≤ max_frames) (sym least.same_stats) h.reported_frames;
      }

  written-IsWithin :
      (f : Frame) (st : StreamState) (answer : Option String)
      → IsWithin max_frames max_bytes st
      → f.size ≤ max_bytes
      → IsWithin max_frames max_bytes
          (written f (evict max_frames max_bytes f.size st.frames st) answer).0
  unfolding append
  written-IsWithin f st (some e) h small =
      room-IsWithin f.size (suc (evict max_frames max_bytes f.size st.frames st).seq) st h
  written-IsWithin f st none h small =
      let room = evict max_frames max_bytes f.size st.frames st in
      let least = evict-IsLeast max_frames max_bytes f.size st.frames st h.accounted in
      let (few, fits) = Fits-bounds f.size room.frames least.fits small in
      mirror-IsWithin (append f room)
        (ap (λ n. n + f.size) least.summed ∙ sym (total-append room.frames (entry room f)))
        (rw (length-append room.frames (entry room f ∷ [])) few)
        (rw (total-append room.frames (entry room f)) fits)

  take_frame-IsWithin :
      (can_write : ℕ → Option String) (f : Frame) (st : StreamState)
      → IsWithin max_frames max_bytes st
      → IsWithin max_frames max_bytes (take_frame max_frames max_bytes can_write f st).0
  unfolding take_frame
  take_frame-IsWithin can_write f st h = elim (Bool-cases (ltb max_bytes f.size)) [
    | inl large ↦
        let room = room-IsWithin f.size (evict max_frames max_bytes f.size st.frames st).seq st h in
        rw large (
          mirror-IsWithin
            (record (evict max_frames max_bytes f.size st.frames st) {
              dropped = suc (evict max_frames max_bytes f.size st.frames st).dropped;
            })
            room.accounted room.few_frames (omega (arith, room.accounted, room.few_bytes)))
    | inr small ↦ rw small (
        written-IsWithin f st (can_write (suc (evict max_frames max_bytes f.size st.frames st).seq))
          h (ground arith))
  ]

  start-IsWithin : IsWithin max_frames max_bytes at_start
  start-IsWithin = record {
    accounted = refl;
    few_bytes = omega arith;
    few_frames = omega arith;
    reported_bytes = omega arith;
    reported_frames = omega arith;
  }

  module _ (can_write : ℕ → Option String) where
    goes_on-IsWithin :
        (rest : StreamState → StreamState × Option Exit) (out : StreamState × Option String)
        → ((st : StreamState)
            → IsWithin max_frames max_bytes st
            → IsWithin max_frames max_bytes (rest st).0)
        → IsWithin max_frames max_bytes out.0
        → IsWithin max_frames max_bytes (goes_on max_frames max_bytes can_write rest out).0
    goes_on-IsWithin rest (st, none) k h = k st h
    goes_on-IsWithin rest (st, some e) k h = h

    polled_loop-IsWithin :
        (polls : List Poll) (st : StreamState)
        → IsWithin max_frames max_bytes st
        → IsWithin max_frames max_bytes (polled_loop max_frames max_bytes can_write polls st).0
    unfolding polled_loop
    polled_loop-IsWithin [] st h = h
    polled_loop-IsWithin (poll_cancelled ∷ polls) st h = h
    polled_loop-IsWithin (capture_failed e ∷ polls) st h = h
    polled_loop-IsWithin (captured f ∷ polls) st h =
        goes_on-IsWithin (λ s. polled_loop max_frames max_bytes can_write polls s) _
          (λ s k. polled_loop-IsWithin polls s k) (take_frame-IsWithin can_write f st h)

    without_session-IsWithin :
        (window : Bool) (polls : List Poll) (st : StreamState)
        → IsWithin max_frames max_bytes st
        → IsWithin max_frames max_bytes
            (without_session max_frames max_bytes can_write window polls st).0
    unfolding without_session
    without_session-IsWithin true polls st h = h
    without_session-IsWithin false polls st h = polled_loop-IsWithin polls st h

    session_loop-IsWithin :
        (window : Bool) (msgs : List SessionMsg) (polls : List Poll) (st : StreamState)
        → IsWithin max_frames max_bytes st
        → IsWithin max_frames max_bytes
            (session_loop max_frames max_bytes can_write window msgs polls st).0
    unfolding session_loop
    session_loop-IsWithin window [] polls st h = h
    session_loop-IsWithin window (session_cancelled ∷ msgs) polls st h = h
    session_loop-IsWithin window (session_failed e ∷ msgs) polls st h = h
    session_loop-IsWithin window (unsupported ∷ msgs) polls st h =
        without_session-IsWithin window polls st h
    session_loop-IsWithin window (frame_msg f ∷ msgs) polls st h =
        goes_on-IsWithin (λ s. session_loop max_frames max_bytes can_write window msgs polls s) _
          (λ s k. session_loop-IsWithin window msgs polls s k)
          (take_frame-IsWithin can_write f st h)

    reported-IsWithin :
        (out : StreamState × Option Exit)
        → IsWithin max_frames max_bytes out.0
        → IsWithin max_frames max_bytes (reported max_frames max_bytes can_write out).0
    reported-IsWithin (st, none) h = h
    reported-IsWithin (st, some x) h = record {
      accounted = h.accounted;
      few_bytes = h.few_bytes;
      few_frames = h.few_frames;
      reported_bytes = h.reported_bytes;
      reported_frames = h.reported_frames;
    }

    run-IsWithin :
        (session_ok window : Bool) (msgs : List SessionMsg) (polls : List Poll)
        → IsWithin max_frames max_bytes
            (run_stream max_frames max_bytes can_write session_ok window msgs polls).0
    unfolding run_stream
    run-IsWithin true window msgs polls =
        reported-IsWithin _ (session_loop-IsWithin window msgs polls at_start start-IsWithin)
    run-IsWithin false window msgs polls =
        reported-IsWithin _ (without_session-IsWithin window polls at_start start-IsWithin)

check_start-bounds :
    (p : StreamParams)
    → check_start p ≡ ok tt
    → (1 ≤ p.max_frames) × (p.max_frames ≤ 1800) × (p.max_bytes ≤ 536870912)
unfolding check_start
check_start-bounds p h =
    let (fps, h₁) = >>-eq-ok (is_in 1 max_fps p.fps) _ _ h in
    let (frames, h₂) = >>-eq-ok (is_in 1 max_max_frames p.max_frames) _ _ h₁ in
    let bytes =
      ensure-eq-ok (is_in 1 max_stream_bytes p.max_bytes)
        (range_message "max_bytes" max_stream_bytes) h₂ in
    let (low, high) = and-eq-true (leb 1 p.max_frames) (leb p.max_frames 1800) frames in
    let (some_bytes, few) = and-eq-true (leb 1 p.max_bytes) (leb p.max_bytes 536870912) bytes in
    (leb→le _ _ low, leb→le _ _ high, leb→le _ _ few)

-- A stream that `start` accepts keeps its window within the requested frames and bytes, which are at
-- most 1800 frames and 512 MiB, whatever is captured and whichever writes fail: the accounts are
-- those of the frames in the window, and what `status` reports is within the limits too.
pub run_stream-IsWithin :
    (p : StreamParams) (can_write : ℕ → Option String) (session_ok window : Bool)
    (msgs : List SessionMsg) (polls : List Poll)
    → check_start p ≡ ok tt
    → IsWithin p.max_frames p.max_bytes
        (run_stream p.max_frames p.max_bytes can_write session_ok window msgs polls).0
      × (p.max_frames ≤ 1800)
      × (p.max_bytes ≤ 536870912)
run_stream-IsWithin p can_write session_ok window msgs polls h =
    let (positive, few, small) = check_start-bounds p h in
    (
      run-IsWithin p.max_frames p.max_bytes positive can_write session_ok window msgs polls,
      few,
      small,
    )
