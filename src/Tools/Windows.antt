-- ===== src/Tools/Windows.antt =====
-- src/tools/mod.rs: the window that a close call is bound to. A window provider answers its focused
-- view, its active window and its list of windows; lowering a text and finding a text in another are
-- the standard library's.
use ultranix_mcp.Prelude.{
  if◌then◌else◌, ◌==◌, nat_eq, string_eq, retain, find, Result, ok, err, String, Bool, ◌||◌, Option,
  none, some, List, [], ◌∷◌,
}

pub record WindowInfo : Type 0 where
  pub id : String
  pub title : String
  pub class : String

-- A backend that sees only the focused view names it in `focused_view_selector`.
pub record WindowProvider : Type 0 where
  pub focused_view_selector : Option String
  pub active_window : Result String (Option WindowInfo)
  pub list_windows : Result String (List WindowInfo)

-- `to_lowercase`, and `contains` of a text in a text.
pub record Texts : Type 0 where
  pub lowered : String → String
  pub occurs_in : String → String → Bool

abbrev when_equal : String → String → Option String
when_equal sel fid = if sel == fid then some fid else none

abbrev window_id : Option WindowInfo → Option String
window_id none = none
window_id (some w) = some w.id

-- `.ok().flatten().map(|w| w.id)`
abbrev active_id : Result String (Option WindowInfo) → Option String
active_id (ok w) = window_id w
active_id (err e) = none

unfoldable pub matches : Texts → String → WindowInfo → Bool
matches t sel w =
    t.occurs_in (t.lowered sel) (t.lowered w.title)
    || t.occurs_in (t.lowered sel) (t.lowered w.class)

-- Exactly one match.
abbrev pub the_only : List WindowInfo → Option String
the_only (w ∷ []) = some w.id
the_only _ = none

unfoldable pub selected : Texts → String → List WindowInfo → Option String
unfolding matches
selected t sel windows = elim (find (λ w. w.id == sel) windows) [
  | some w ↦ some w.id
  | none ↦ the_only (retain (matches t sel) windows)
]

unfoldable pub resolve_close_target : Texts → WindowProvider → Option String → Option String
unfolding selected
resolve_close_target t p selector = elim p.focused_view_selector [
  | some fid ↦ elim selector [ none ↦ some fid | some sel ↦ when_equal sel fid ]
  | none ↦ elim selector [
    | none ↦ active_id p.active_window
    | some sel ↦ elim p.list_windows [ ok windows ↦ selected t sel windows | err e ↦ none ]
  ]
]
