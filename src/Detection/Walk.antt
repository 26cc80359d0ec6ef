-- ===== src/Detection/Walk.antt =====
-- src/backend/detect.rs: the walk down each ladder, and the providers that it registers. A build
-- without a feature is one where the back ends of that feature are not usable.
use ultranix_mcp.Prelude.{nat_eq, string_eq, find, String, Bool, Option, none, some, List, [], ◌∷◌}
use ultranix_mcp.Detection.{
  CaptureBackend, wlr_capture, grim, portal_capture, scrot, InputBackend, wlr_input, xdotool,
  uinput, portal_input, WindowBackend, hyprctl, sway_ipc, kdotool, wayfire_ipc, riverctl,
  gnome_shell, wlr_toplevel, wmctrl, ClipboardBackend, wl_clipboard, xclip, SessionInfo,
  plan_backends,
}

-- Which constructors answer a back end.
pub record Usable : Type 0 where
  pub capture : CaptureBackend → Bool
  pub input : InputBackend → Bool
  pub window : WindowBackend → Bool
  pub ui_automation : Bool
  pub vision : Bool
  pub browser : Bool
  pub overlay : Bool
  pub clipboard : ClipboardBackend → Bool

abbrev pub capture_name : CaptureBackend → String
capture_name wlr_capture = "wlr-screencopy"
capture_name grim = "grim"
capture_name portal_capture = "portal-screenshot"
capture_name scrot = "scrot"

abbrev pub input_name : InputBackend → String
input_name wlr_input = "wlr-virtual-input"
input_name uinput = "uinput"
input_name portal_input = "portal-remote-desktop"
input_name xdotool = "xdotool"

abbrev pub window_name : WindowBackend → String
window_name hyprctl = "hyprctl"
window_name sway_ipc = "sway-ipc"
window_name kdotool = "kdotool"
window_name wayfire_ipc = "wayfire-ipc"
window_name riverctl = "riverctl"
window_name gnome_shell = "gnome-shell"
window_name wlr_toplevel = "wlr-toplevel"
window_name wmctrl = "wmctrl"

abbrev pub clipboard_name : ClipboardBackend → String
clipboard_name wl_clipboard = "wl-clipboard"
clipboard_name xclip = "xclip"

abbrev named {ℓ} : {A : Type ℓ} → (A → String) → Option A → Option String
named name none = none
named name (some a) = some (name a)

-- The first usable candidate, by the name under which it is registered.
unfoldable pub walk {ℓ} : {A : Type ℓ} → (A → Bool) → (A → String) → List A → Option String
walk usable name candidates = named name (find usable candidates)

pub record Providers : Type 0 where
  pub capture : Option String
  pub input : Option String
  pub window : Option String
  pub ui_automation : Option String
  pub vision : Option String
  pub browser : Option String
  pub overlay : Option String
  pub clipboard : Option String
  pub backend_names : List String

abbrev push_name : Option String → List String → List String
push_name none names = names
push_name (some n) names = n ∷ names

unfoldable pub detect_providers : Usable → SessionInfo → Providers
unfolding walk
detect_providers u session =
    let plan = plan_backends session in
    let capture = walk u.capture capture_name plan.capture in
    let input = walk u.input input_name plan.input in
    let window = walk u.window window_name plan.window in
    let ui_automation = walk (λ b. u.ui_automation) (λ b. "atspi2") plan.ui_automation in
    let vision = walk (λ b. u.vision) (λ b. "onnx") plan.vision in
    let browser = walk (λ b. u.browser) (λ b. "cdp") plan.browser in
    let overlay = walk (λ b. u.overlay) (λ b. "wlr-layer-shell") plan.overlay in
    let clipboard = walk u.clipboard clipboard_name plan.clipboard in
    record {
      capture = capture;
      input = input;
      window = window;
      ui_automation = ui_automation;
      vision = vision;
      browser = browser;
      overlay = overlay;
      clipboard = clipboard;
      backend_names = push_name capture (
          push_name input (
            push_name window (
              push_name ui_automation (
                push_name vision
                  (push_name browser (push_name overlay (push_name clipboard [])))))));
    }
