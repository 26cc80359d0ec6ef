-- ===== src/Tools/Stream.antt =====
-- src/tools/stream.rs: the capture loop of `screen_stream` with its rolling window of frames. The
-- frames' bytes, the files, the clock and the manifest are left out: a frame is its size and its
-- dimensions, and `can_write` answers whether a frame's file is written. Removing a file can fail
-- without effect on the accounts.
pub mod Accounts
pub mod Bounds
pub mod Requests
use ultranix_mcp.Prelude.{
  ltb, leb, nat_beq, nat_beq_iff, if◌then◌else◌, ltb→lt, leb→le, Equality, ◌==◌, nat_eq, string_eq,
  option_beq, option_beq_iff, Bool-cases, Option-cases, and-eq-true, length, get_elem?, take, drop,
  is_empty, retain, any, all, find, length-append, length-retain-le, length-take, length-drop,
  drop-append, take_prefix, drop_prefix, contains, All, All-append, All-drop, All-retain, All-map,
  All-imp, ◌⧺◌, Result, ok, err, ◌>>=◌, ◌>>◌, ok_or, ensure, to_option, is_ok, Result-cases,
  >>=-eq-ok, >>-eq-ok, ok_or-eq-ok, ensure-eq-ok, ok_injective, ℕ, zero, suc, ◌+◌, ◌-◌, ◌*◌, ◌/◌,
  ◌%◌, ◌^◌, ◌≤◌, ◌<◌, min, max, Char, code, String, ◌≡◌, refl, sym, ap, ◌∙◌, ◌≡⟨◌⟩◌, ◌∎, subst, ◌≢◌,
  ◌↔◌, ◌⊎◌, inl, inr, Bool, true, false, not, ◌&&◌, ◌||◌, Option, none, some, List, [], ◌∷◌, ◌++◌,
  map, reverse, foldl, arith,
}
use ultranix_mcp.Prelude.Texts.{char_count}
use ultranix_mcp.Prelude.Decimal.{decimal}

pub record Frame : Type 0 where
  pub size : ℕ
  pub width : ℕ
  pub height : ℕ

-- What the manifest lists of a frame on disk.
pub record Entry : Type 0 where
  pub number : ℕ
  pub bytes : ℕ
  pub width : ℕ
  pub height : ℕ

pub record Stats : Type 0 where
  pub frames_written : ℕ
  pub bytes_written : ℕ
  pub dropped_frames : ℕ
  pub buffered_frames : ℕ
  pub buffered_bytes : ℕ
  pub latest_frame : Option String
  pub latest_width : ℕ
  pub latest_height : ℕ
  pub last_error : Option String
  pub stop_reason : Option String

pub record StreamState : Type 0 where
  pub frames : List Entry
  pub buffered_bytes : ℕ
  pub written_bytes : ℕ
  pub dropped : ℕ
  pub seq : ℕ
  pub stats : Stats

abbrev pub no_stats : Stats
no_stats = record {
  frames_written = 0;
  bytes_written = 0;
  dropped_frames = 0;
  buffered_frames = 0;
  buffered_bytes = 0;
  latest_frame = none;
  latest_width = 0;
  latest_height = 0;
  last_error = none;
  stop_reason = none;
}

abbrev pub at_start : StreamState
at_start = record {
  frames = [];
  buffered_bytes = 0;
  written_bytes = 0;
  dropped = 0;
  seq = 0;
  stats = no_stats;
}

-- `{:05}`
abbrev pad : ℕ → String → String
pad zero s = s
pad (suc n) s = pad n ("0" ⧺ s)

unfoldable pub frame_name : ℕ → String
frame_name n = "frame_" ⧺ pad (5 - char_count (decimal n)) (decimal n) ⧺ ".png"

abbrev pub entry : StreamState → Frame → Entry
entry st f = record { number = suc st.seq; bytes = f.size; width = f.width; height = f.height }

-- A frame whose file is written.
unfoldable pub append : Frame → StreamState → StreamState
append f st = record st {
  frames = st.frames ++ entry st f ∷ [];
  buffered_bytes = st.buffered_bytes + f.size;
  written_bytes = st.written_bytes + f.size;
  seq = suc st.seq;
  stats = record st.stats {
    latest_frame = some (frame_name (suc st.seq));
    latest_width = f.width;
    latest_height = f.height;
  };
}

unfoldable pub mirror : StreamState → StreamState
mirror st = record st {
  stats = record st.stats {
    frames_written = st.seq;
    bytes_written = st.written_bytes;
    dropped_frames = st.dropped;
    buffered_frames = length st.frames;
    buffered_bytes = st.buffered_bytes;
  };
}

-- A frame whose file is written, or is not, for a reason. A number is spent on either.
abbrev pub written : Frame → StreamState → Option String → StreamState × Option String
written f st none = (mirror (append f st), none)
written f st (some e) =
    (record st { seq = suc st.seq }, some ("write " ⧺ frame_name (suc st.seq) ⧺ ": " ⧺ e))

abbrev pub stored : (ℕ → Option String) → Frame → StreamState → StreamState × Option String
stored can_write f st = written f st (can_write (suc st.seq))

module _ (max_frames max_bytes : ℕ) where
  -- The rolling eviction before a frame of a size: the oldest go until the window has room.
  unfoldable pub evict : ℕ → List Entry → StreamState → StreamState
  evict size [] st = record st { frames = [] }
  evict size (old ∷ frames) st =
      let rest =
        evict size frames (record st {
          buffered_bytes = st.buffered_bytes - old.bytes;
          dropped = suc st.dropped;
        }) in
      if leb max_frames (length (old ∷ frames)) || ltb max_bytes (st.buffered_bytes + size)
      then rest
      else record st { frames = old ∷ frames }

  -- One turn of the loop with a frame: the state, and the error that ends the loop.
  unfoldable pub take_frame :
      (ℕ → Option String) → Frame → StreamState → StreamState × Option String
  unfolding evict append mirror
  take_frame can_write f st =
      let room = evict f.size st.frames st in
      if ltb max_bytes f.size
      then (mirror (record room { dropped = suc room.dropped }), none)
      else stored can_write f room

-- What the loop waits for: a message of the session's thread, or a tick's capture. The edge of
-- cancellation goes before both.
pub data SessionMsg : Type 0 where
  session_cancelled : SessionMsg
  unsupported : SessionMsg
  frame_msg : Frame → SessionMsg
  session_failed : String → SessionMsg

pub data Poll : Type 0 where
  poll_cancelled : Poll
  captured : Frame → Poll
  capture_failed : String → Poll

pub record Exit : Type 0 where
  pub reason : String
  pub error : Option String

abbrev pub stopped : Exit
stopped = record { reason = "stopped"; error = none }

abbrev pub capture_error : String → Exit
capture_error e = record { reason = "capture_error"; error = some e }

abbrev no_window_session : String
no_window_session = "window capture session unavailable"

module _ (max_frames max_bytes : ℕ) (can_write : ℕ → Option String) where
  abbrev pub goes_on :
      (StreamState → StreamState × Option Exit)
      → StreamState × Option String
      → StreamState × Option Exit
  goes_on rest (st, none) = rest st
  goes_on rest (st, some e) = (st, some (record { reason = "io_error"; error = some e }))

  -- Without an exit the loop still runs when the captures given are used up.
  unfoldable pub polled_loop : List Poll → StreamState → StreamState × Option Exit
  polled_loop [] st = (st, none)
  polled_loop (poll_cancelled ∷ polls) st = (st, some stopped)
  polled_loop (capture_failed e ∷ polls) st = (st, some (capture_error e))
  polled_loop (captured f ∷ polls) st =
      goes_on (λ s. polled_loop polls s) (take_frame max_frames max_bytes can_write f st)

  -- Polling is for the whole screen alone.
  unfoldable pub without_session : Bool → List Poll → StreamState → StreamState × Option Exit
  unfolding polled_loop
  without_session window polls st =
      if window then (st, some (capture_error no_window_session)) else polled_loop polls st

  -- The channel closes after the messages given.
  unfoldable pub session_loop :
      Bool → List SessionMsg → List Poll → StreamState → StreamState × Option Exit
  unfolding without_session
  session_loop window [] polls st = (st, some (capture_error "capture session ended unexpectedly"))
  session_loop window (session_cancelled ∷ msgs) polls st = (st, some stopped)
  session_loop window (session_failed e ∷ msgs) polls st = (st, some (capture_error e))
  session_loop window (unsupported ∷ msgs) polls st = without_session window polls st
  session_loop window (frame_msg f ∷ msgs) polls st =
      goes_on (λ s. session_loop window msgs polls s)
        (take_frame max_frames max_bytes can_write f st)

  abbrev pub reported : StreamState × Option Exit → StreamState × Option Exit
  reported (st, none) = (st, none)
  reported (st, some x) = (
    record st { stats = record st.stats { last_error = x.error; stop_reason = some x.reason } },
    some x,
  )

  unfoldable pub run_stream : Bool → Bool → List SessionMsg → List Poll → StreamState × Option Exit
  unfolding session_loop without_session
  run_stream session_ok window msgs polls = reported (
      if session_ok
      then session_loop window msgs polls at_start
      else without_session window polls at_start)
