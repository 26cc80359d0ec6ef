-- ===== src/Tools/Stream/Requests.antt =====
-- src/tools/stream.rs: the parameters of `start` and the slot for the one stream of the server.
use ultranix_mcp.Prelude.{leb, nat_eq, string_eq, ◌⧺◌, Result, ◌>>◌, ensure, ℕ, String, Bool, ◌&&◌}
use ultranix_mcp.Prelude.Decimal.{decimal}

pub record StreamParams : Type 0 where
  pub fps : ℕ
  pub max_frames : ℕ
  pub max_bytes : ℕ

abbrev pub max_fps : ℕ
max_fps = 10

abbrev pub max_max_frames : ℕ
max_max_frames = 1800

abbrev pub max_stream_bytes : ℕ
max_stream_bytes = 536870912

abbrev pub is_in : ℕ → ℕ → ℕ → Bool
is_in low high n = leb low n && leb n high

abbrev pub range_message : String → ℕ → String
range_message what high = "screen_stream: " ⧺ what ⧺ " must be between 1 and " ⧺ decimal high

unfoldable pub check_start : StreamParams → Result String (Unit {0})
check_start p = do
  ensure (is_in 1 max_fps p.fps) (range_message "fps" max_fps)
  ensure (is_in 1 max_max_frames p.max_frames) (range_message "max_frames" max_max_frames)
  ensure (is_in 1 max_stream_bytes p.max_bytes) (range_message "max_bytes" max_stream_bytes)
