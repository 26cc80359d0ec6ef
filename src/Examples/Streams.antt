-- ===== src/Examples/Streams.antt =====
-- The screen stream at concrete captures.
use ultranix_mcp.Prelude.{
  nat_eq, string_eq, ok, ℕ, ◌≤◌, String, ◌≡◌, refl, true, false, Option, none, List, [], ◌∷◌,
}
use ultranix_mcp.Tools.Stream.{Frame, frame_msg, session_failed, run_stream, SessionMsg}
use ultranix_mcp.Tools.Stream.Requests.{StreamParams, check_start}
use ultranix_mcp.Tools.Stream.Accounts.{IsWithin}
use ultranix_mcp.Tools.Stream.Bounds.{run_stream-IsWithin}

abbrev params : StreamParams
params = record { fps = 2; max_frames = 2; max_bytes = 100 }

abbrev frame : ℕ → Frame
frame size = record { size = size; width = 8; height = 8 }

abbrev writes : ℕ → Option String
writes n = none

abbrev messages : List SessionMsg
messages =
    frame_msg (frame 40) ∷ frame_msg (frame 50) ∷ frame_msg (frame 30) ∷ session_failed "gone" ∷ []

params_accepted : check_start params ≡ ok tt
unfolding check_start
params_accepted = refl

run_stream-IsWithin_example :
    IsWithin 2 100 (run_stream 2 100 writes true false messages []).0
    × (2 ≤ 1800)
    × (100 ≤ 536870912)
run_stream-IsWithin_example =
    run_stream-IsWithin params writes true false messages [] params_accepted
