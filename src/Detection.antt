-- ===== src/Detection.antt =====
-- src/backend/detect.rs: the session that the environment shows, the ladders of back ends for it, and
-- the walk down the ladders. Whether a back end's constructor finds it usable is a parameter.
pub mod Walk
pub mod Rungs
use ultranix_mcp.Prelude.{
  ltb, leb, nat_beq, nat_beq_iff, if◌then◌else◌, ltb→lt, leb→le, Equality, ◌==◌, nat_eq, string_eq,
  option_beq, option_beq_iff, Bool-cases, Option-cases, and-eq-true, length, get_elem?, take, drop,
  is_empty, retain, any, all, find, length-append, length-retain-le, length-take, length-drop,
  drop-append, take_prefix, drop_prefix, contains, All, All-append, All-drop, All-retain, All-map,
  All-imp, ◌⧺◌, Result, ok, err, ◌>>=◌, ◌>>◌, ok_or, ensure, to_option, is_ok, Result-cases,
  >>=-eq-ok, >>-eq-ok, ok_or-eq-ok, ensure-eq-ok, ok_injective, ℕ, zero, suc, ◌+◌, ◌-◌, ◌*◌, ◌/◌,
  ◌%◌, ◌^◌, ◌≤◌, ◌<◌, min, max, Char, code, String, ◌≡◌, refl, sym, ap, ◌∙◌, ◌≡⟨◌⟩◌, ◌∎, subst, ◌≢◌,
  ◌↔◌, ◌⊎◌, inl, inr, Bool, true, false, not, ◌&&◌, ◌||◌, Option, none, some, List, [], ◌∷◌, ◌++◌,
  map, reverse, foldl, arith,
}
use ultranix_mcp.Prelude.Texts.{is_empty_text, is_ascii_uppercase, starts_with, lowered}

pub data SessionType : Type 0 where
  wayland : SessionType
  x11 : SessionType
  headless : SessionType

pub data SessionKind : Type 0 where
  hyprland : SessionKind
  sway : SessionKind
  wayfire : SessionKind
  river : SessionKind
  kde : SessionKind
  gnome : SessionKind
  other : SessionKind

abbrev pub is_wlroots : SessionKind → Bool
is_wlroots hyprland = true
is_wlroots sway = true
is_wlroots wayfire = true
is_wlroots river = true
is_wlroots _ = false

pub record SessionInfo : Type 0 where
  pub session_type : SessionType
  pub kind : SessionKind
  pub desktop : Option String
  pub is_hyprland : Bool
  pub wayland_display : Option String
  pub display : Option String

abbrev pub is_present : Option String → Bool
is_present none = false
is_present (some s) = true

abbrev pub non_empty_text : Option String → Option String
non_empty_text none = none
non_empty_text (some v) = if is_empty_text v then none else some v

-- `contains` of a text
unfoldable pub has_text : String → String → Bool
has_text needle String.[] = is_empty_text needle
has_text needle (String.◌∷◌ c s) = starts_with needle (String.◌∷◌ c s) || has_text needle s

-- The display variables decide where the type is neither of the two.
abbrev pub inferred : Option String → Option String → SessionType
inferred wayland_display display =
    if is_present wayland_display then wayland else if is_present display then x11 else headless

abbrev pub typed : Option String → Option String → Option String → SessionType
typed none wayland_display display = inferred wayland_display display
typed (some raw) wayland_display display =
    if lowered raw == "wayland"
    then wayland
    else if lowered raw == "x11"
    then x11
    else inferred wayland_display display

abbrev pub desktop_has : Option String → String → Bool
desktop_has none needle = false
desktop_has (some d) needle = has_text (lowered needle) (lowered d)

module _ (var : String → Option String) where
  abbrev pub non_empty : String → Option String
  non_empty key = non_empty_text (var key)

  abbrev pub has_var : String → Bool
  has_var key = is_present (non_empty key)

  abbrev pub dhas : String → Bool
  dhas needle = desktop_has (non_empty "XDG_CURRENT_DESKTOP") needle

  unfoldable pub session_kind : SessionKind
  unfolding has_text
  session_kind =
      if has_var "HYPRLAND_INSTANCE_SIGNATURE"
      then hyprland
      else if has_var "SWAYSOCK" || dhas "sway"
      then sway
      else if has_var "WAYFIRE_SOCKET" || dhas "wayfire"
      then wayfire
      else if dhas "river"
      then river
      else if has_var "KDE_SESSION_VERSION" || dhas "kde" || dhas "plasma"
      then kde
      else if dhas "gnome"
      then gnome
      else other

  unfoldable pub from_env : SessionInfo
  unfolding session_kind
  from_env = record {
    session_type =
        typed (non_empty "XDG_SESSION_TYPE") (non_empty "WAYLAND_DISPLAY") (non_empty "DISPLAY");
    kind = session_kind;
    desktop = non_empty "XDG_CURRENT_DESKTOP";
    is_hyprland = has_var "HYPRLAND_INSTANCE_SIGNATURE";
    wayland_display = non_empty "WAYLAND_DISPLAY";
    display = non_empty "DISPLAY";
  }

pub data CaptureBackend : Type 0 where
  wlr_capture : CaptureBackend
  grim : CaptureBackend
  portal_capture : CaptureBackend
  scrot : CaptureBackend

pub data InputBackend : Type 0 where
  wlr_input : InputBackend
  xdotool : InputBackend
  uinput : InputBackend
  portal_input : InputBackend

pub data WindowBackend : Type 0 where
  hyprctl : WindowBackend
  sway_ipc : WindowBackend
  kdotool : WindowBackend
  wayfire_ipc : WindowBackend
  riverctl : WindowBackend
  gnome_shell : WindowBackend
  wlr_toplevel : WindowBackend
  wmctrl : WindowBackend

-- The four slots with one back end, and the clipboard.
pub data SingleBackend : Type 0 where
  only : SingleBackend

pub data ClipboardBackend : Type 0 where
  wl_clipboard : ClipboardBackend
  xclip : ClipboardBackend

pub record DetectionPlan : Type 0 where
  pub capture : List CaptureBackend
  pub input : List InputBackend
  pub window : List WindowBackend
  pub ui_automation : List SingleBackend
  pub vision : List SingleBackend
  pub browser : List SingleBackend
  pub overlay : List SingleBackend
  pub clipboard : List ClipboardBackend

-- KDE and GNOME on Wayland
abbrev pub is_portal_desktop : SessionType → SessionKind → Bool
is_portal_desktop wayland kde = true
is_portal_desktop wayland gnome = true
is_portal_desktop _ _ = false

abbrev pub capture_ladder : SessionType → Bool → List CaptureBackend
capture_ladder wayland portal =
    if portal then portal_capture ∷ [] else wlr_capture ∷ grim ∷ portal_capture ∷ []
capture_ladder x11 portal = scrot ∷ portal_capture ∷ []
capture_ladder headless portal = []

abbrev pub input_ladder : SessionType → Bool → List InputBackend
input_ladder wayland portal =
    if portal then portal_input ∷ [] else wlr_input ∷ uinput ∷ portal_input ∷ []
input_ladder x11 portal = xdotool ∷ uinput ∷ portal_input ∷ []
input_ladder headless portal = []

abbrev pub window_ladder : SessionKind → SessionType → List WindowBackend
window_ladder hyprland t = hyprctl ∷ wlr_toplevel ∷ []
window_ladder sway t = sway_ipc ∷ wlr_toplevel ∷ []
window_ladder wayfire t = wayfire_ipc ∷ wlr_toplevel ∷ []
window_ladder river t = riverctl ∷ wlr_toplevel ∷ []
window_ladder kde wayland = kdotool ∷ []
window_ladder kde x11 = kdotool ∷ wmctrl ∷ []
window_ladder kde headless = []
window_ladder gnome wayland = gnome_shell ∷ []
window_ladder gnome x11 = gnome_shell ∷ wmctrl ∷ []
window_ladder gnome headless = []
window_ladder other wayland = wlr_toplevel ∷ []
window_ladder other x11 = wmctrl ∷ []
window_ladder other headless = []

abbrev pub overlay_ladder : SessionType → Bool → List SingleBackend
overlay_ladder wayland portal = if portal then [] else only ∷ []
overlay_ladder _ portal = []

abbrev pub displayed : SessionType → List SingleBackend
displayed headless = []
displayed _ = only ∷ []

abbrev pub clipboard_ladder : SessionType → List ClipboardBackend
clipboard_ladder wayland = wl_clipboard ∷ xclip ∷ []
clipboard_ladder x11 = xclip ∷ []
clipboard_ladder headless = []

unfoldable pub plan_backends : SessionInfo → DetectionPlan
plan_backends s =
    let portal = is_portal_desktop s.session_type s.kind in
    record {
      capture = capture_ladder s.session_type portal;
      input = input_ladder s.session_type portal;
      window = window_ladder s.kind s.session_type;
      ui_automation = displayed s.session_type;
      vision = displayed s.session_type;
      browser = displayed s.session_type;
      overlay = overlay_ladder s.session_type portal;
      clipboard = clipboard_ladder s.session_type;
    }
