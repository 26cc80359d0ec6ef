-- ===== src/Detection/Rungs.antt =====
-- Which sessions probe which back ends.
use ultranix_mcp.Prelude.{
  nat_eq, string_eq, is_empty, any, ◌≡◌, Bool, true, false, not, ◌&&◌, arith,
}
use ultranix_mcp.Detection.{
  SessionType, wayland, x11, headless, SessionKind, kde, gnome, hyprland, sway, wayfire, river,
  is_portal_desktop, SessionInfo, CaptureBackend, wlr_capture, InputBackend, wlr_input,
  WindowBackend, wmctrl, plan_backends, capture_ladder, input_ladder, window_ladder, overlay_ladder,
  displayed, clipboard_ladder,
}

abbrev pub is_wlr_capture : CaptureBackend → Bool
is_wlr_capture wlr_capture = true
is_wlr_capture _ = false

abbrev pub is_wlr_input : InputBackend → Bool
is_wlr_input wlr_input = true
is_wlr_input _ = false

abbrev pub is_wmctrl : WindowBackend → Bool
is_wmctrl wmctrl = true
is_wmctrl _ = false

abbrev pub is_wayland : SessionType → Bool
is_wayland wayland = true
is_wayland _ = false

abbrev pub is_x11 : SessionType → Bool
is_x11 x11 = true
is_x11 _ = false

abbrev pub is_headless : SessionType → Bool
is_headless headless = true
is_headless _ = false

abbrev pub is_kde_or_gnome : SessionKind → Bool
is_kde_or_gnome kde = true
is_kde_or_gnome gnome = true
is_kde_or_gnome _ = false

-- The compositors whose windows are reached over an IPC of their own and the wlr protocols.
abbrev pub has_wlr_ipc : SessionKind → Bool
has_wlr_ipc hyprland = true
has_wlr_ipc sway = true
has_wlr_ipc wayfire = true
has_wlr_ipc river = true
has_wlr_ipc _ = false

-- Capture and input by the wlr protocols, and the overlay, are for Wayland but for KDE and GNOME;
-- `wmctrl` is for X11 without a wlroots compositor; a ladder is empty without a display.
abbrev Rungs : SessionType → SessionKind → Type 0
Rungs t k =
    let portal = is_portal_desktop t k in
    (any is_wlr_capture (capture_ladder t portal) ≡ (is_wayland t && not (is_kde_or_gnome k)))
    × (any is_wlr_input (input_ladder t portal) ≡ (is_wayland t && not (is_kde_or_gnome k)))
    × (is_empty (overlay_ladder t portal) ≡ not (is_wayland t && not (is_kde_or_gnome k)))
    × (any is_wmctrl (window_ladder k t) ≡ (is_x11 t && not (has_wlr_ipc k)))
    × (is_empty (capture_ladder t portal) ≡ is_headless t)
    × (is_empty (input_ladder t portal) ≡ is_headless t)
    × (is_empty (clipboard_ladder t) ≡ is_headless t)
    × (is_empty (displayed t) ≡ is_headless t)
    × (is_empty (window_ladder k t) ≡ (is_headless t && not (has_wlr_ipc k)))

rungs : (t : SessionType) (k : SessionKind) → Rungs t k
rungs t k = ground arith

-- For every session: the wlr rungs of capture and input, and the overlay, are planned exactly on
-- Wayland outside KDE and GNOME; `wmctrl` exactly on X11 where the compositor is none of Hyprland,
-- sway, Wayfire and river; and the ladders of capture, input, clipboard and automation are empty exactly when the session is
-- headless. The window ladder is empty only when it is headless and its kind is none of these four.
pub plan_backends_rungs :
    (s : SessionInfo)
    → (any is_wlr_capture (plan_backends s).capture
        ≡ (is_wayland s.session_type && not (is_kde_or_gnome s.kind)))
      × (any is_wlr_input (plan_backends s).input
          ≡ (is_wayland s.session_type && not (is_kde_or_gnome s.kind)))
      × (is_empty (plan_backends s).overlay
          ≡ not (is_wayland s.session_type && not (is_kde_or_gnome s.kind)))
      × (any is_wmctrl (plan_backends s).window
          ≡ (is_x11 s.session_type && not (has_wlr_ipc s.kind)))
      × (is_empty (plan_backends s).capture ≡ is_headless s.session_type)
      × (is_empty (plan_backends s).input ≡ is_headless s.session_type)
      × (is_empty (plan_backends s).clipboard ≡ is_headless s.session_type)
      × (is_empty (plan_backends s).ui_automation ≡ is_headless s.session_type)
      × (is_empty (plan_backends s).window
          ≡ (is_headless s.session_type && not (has_wlr_ipc s.kind)))
unfolding plan_backends
plan_backends_rungs s = rungs s.session_type s.kind
