-- ===== src/Security/Whitelist.antt =====
-- src/security/whitelist.rs: the closed set of commands and the constraints of each.
pub mod Vectors
pub mod Accepted
use ultranix_mcp.Prelude.{
  ltb, leb, nat_beq, nat_beq_iff, if◌then◌else◌, ltb→lt, leb→le, Equality, ◌==◌, nat_eq, string_eq,
  option_beq, option_beq_iff, Bool-cases, Option-cases, and-eq-true, length, get_elem?, take, drop,
  is_empty, retain, any, all, find, length-append, length-retain-le, length-take, length-drop,
  drop-append, take_prefix, drop_prefix, contains, All, All-append, All-drop, All-retain, All-map,
  All-imp, ◌⧺◌, Result, ok, err, ◌>>=◌, ◌>>◌, ok_or, ensure, to_option, is_ok, Result-cases,
  >>=-eq-ok, ok_or-eq-ok, ensure-eq-ok, ok_injective, ℕ, zero, suc, ◌+◌, ◌-◌, ◌*◌, ◌/◌, ◌%◌, ◌^◌,
  ◌≤◌, ◌<◌, min, max, Char, code, String, ◌≡◌, refl, sym, ap, ◌∙◌, ◌≡⟨◌⟩◌, ◌∎, subst, ◌≢◌, ◌↔◌, ◌⊎◌,
  inl, inr, Bool, true, false, not, ◌&&◌, ◌||◌, Option, none, some, List, [], ◌∷◌, ◌++◌, map,
  reverse, foldl, arith,
}
use ultranix_mcp.Prelude.Dict.{Dict, lookup}
use ultranix_mcp.Security.Sanitize.{SanitizeError, sanitize_arg}

abbrev pub max_args : ℕ
max_args = 16

abbrev pub hyprctl_reads : List String
hyprctl_reads = "clients" ∷ "activewindow" ∷ "monitors" ∷ "workspaces" ∷ []

abbrev pub hyprctl_dispatchers : List String
hyprctl_dispatchers =
    "focuswindow" ∷ "movewindow" ∷ "resizewindow" ∷ "workspace" ∷ "movetoworkspace" ∷ []

-- The detail of a violation is left out.
pub data WhitelistError : Type 0 where
  not_whitelisted : String → WhitelistError
  arg_constraint : String → WhitelistError
  sanitize : SanitizeError → WhitelistError
  outside_roots : String → WhitelistError

pub record Invocation : Type 0 where
  pub abs_path : String
  pub argv : List String

-- The validators answer what they push on the argument vector.
unfoldable pub validate_grim : Bool → Bool → List String → Result WhitelistError (List String)
validate_grim seen_o seen_g [] = ok []
validate_grim seen_o seen_g (a ∷ []) = err (arg_constraint "grim")
validate_grim seen_o seen_g (a ∷ val ∷ rest) =
    let after_o = validate_grim true seen_g rest in
    let after_g = validate_grim seen_o true rest in
    if a == "-o"
    then (if seen_o then err (arg_constraint "grim") else after_o >>= λ out. ok (a ∷ val ∷ out))
    else if a == "-g"
    then (if seen_g then err (arg_constraint "grim") else after_g >>= λ out. ok (a ∷ val ∷ out))
    else err (arg_constraint "grim")

abbrev pub slurp_value_flags : List String
slurp_value_flags = "-f" ∷ "-b" ∷ "-c" ∷ []

unfoldable pub validate_slurp : List String → Result WhitelistError (List String)
validate_slurp [] = ok []
validate_slurp (a ∷ []) = if a == "-d" then ok (a ∷ []) else err (arg_constraint "slurp")
validate_slurp (a ∷ val ∷ rest) =
    let after_flag = validate_slurp (val ∷ rest) in
    let after_value = validate_slurp rest in
    if a == "-d"
    then (after_flag >>= λ out. ok (a ∷ out))
    else if contains slurp_value_flags a
    then (after_value >>= λ out. ok (a ∷ val ∷ out))
    else err (arg_constraint "slurp")

-- `is_seconds`: the text parses as a float that is not negative.
module _ (is_seconds : String → Bool) where
  unfoldable pub validate_scrot : Bool → Bool → List String → Result WhitelistError (List String)
  validate_scrot seen_s seen_d [] = ok []
  validate_scrot seen_s seen_d (a ∷ []) =
      if a == "-s" && not seen_s then ok (a ∷ []) else err (arg_constraint "scrot")
  validate_scrot seen_s seen_d (a ∷ val ∷ rest) =
      let after_s = validate_scrot true seen_d (val ∷ rest) in
      let after_d = validate_scrot seen_s true rest in
      if a == "-s"
      then (if seen_s then err (arg_constraint "scrot") else after_s >>= λ out. ok (a ∷ out))
      else if a == "-d"
      then (if seen_d || not (is_seconds val)
          then err (arg_constraint "scrot")
          else after_d >>= λ out. ok (a ∷ val ∷ out))
      else err (arg_constraint "scrot")

abbrev pub hyprctl_dispatch : List String → Result WhitelistError (List String)
hyprctl_dispatch [] = err (arg_constraint "hyprctl")
hyprctl_dispatch (dispatcher ∷ dargs) =
    if contains hyprctl_dispatchers dispatcher && not (is_empty dargs) && leb (length dargs) 4
    then ok ("dispatch" ∷ dispatcher ∷ dargs)
    else err (arg_constraint "hyprctl")

unfoldable pub hyprctl_sub : List String → Result WhitelistError (List String)
hyprctl_sub [] = err (arg_constraint "hyprctl")
hyprctl_sub (sub ∷ sub_args) =
    if contains hyprctl_reads sub
    then (if is_empty sub_args then ok (sub ∷ []) else err (arg_constraint "hyprctl"))
    else if sub == "dispatch"
    then hyprctl_dispatch sub_args
    else err (arg_constraint "hyprctl")

unfoldable pub validate_hyprctl : List String → Result WhitelistError (List String)
unfolding hyprctl_sub
validate_hyprctl [] = hyprctl_sub []
validate_hyprctl (first ∷ tail) =
    if first == "-j"
    then (hyprctl_sub tail >>= λ out. ok ("-j" ∷ out))
    else hyprctl_sub (first ∷ tail)

abbrev pub xdotool_subcommands : List String
xdotool_subcommands =
    "mousemove" ∷ "mousemove_relative" ∷ "click" ∷ "mousedown" ∷ "mouseup" ∷ "getmouselocation"
    ∷ "type" ∷ "key" ∷ "keydown" ∷ "keyup" ∷ "windowactivate" ∷ "windowfocus" ∷ "windowraise"
    ∷ "windowminimize" ∷ "windowmap" ∷ "windowunmap" ∷ "windowsize" ∷ "windowmove" ∷ "windowclose"
    ∷ "getactivewindow" ∷ "getwindowname" ∷ "getwindowpid" ∷ "getwindowgeometry" ∷ "getwindowfocus"
    ∷ "getdisplaygeometry" ∷ "get_desktop" ∷ "get_num_desktops" ∷ "search" ∷ []

abbrev pub value_flags : List String
value_flags = "--delay" ∷ "--repeat-delay" ∷ "--repeat" ∷ "--window" ∷ "--screen" ∷ []

abbrev pub starts_with_dash : String → Bool
starts_with_dash String.[] = false
starts_with_dash (String.◌∷◌ c s) = nat_beq (code c) 45

-- The first argument that is neither a flag nor the operand of a flag.
unfoldable pub subcommand : List String → Option String
subcommand [] = none
subcommand (a ∷ []) = if starts_with_dash a then none else some a
subcommand (a ∷ b ∷ rest) =
    let past_flag = subcommand (b ∷ rest) in
    let past_operand = subcommand rest in
    if starts_with_dash a
    then (if contains value_flags a then past_operand else past_flag)
    else some a

abbrev pub is_subcommand : Option String → Bool
is_subcommand none = false
is_subcommand (some sub) = contains xdotool_subcommands sub

unfoldable pub validate_xdotool : List String → Result WhitelistError (List String)
unfolding subcommand
validate_xdotool args = do
  ensure (is_subcommand (subcommand args)) (arg_constraint "xdotool")
  ok args

unfoldable pub sanitize_all : List String → Result WhitelistError (Unit {0})
sanitize_all [] = ok tt
sanitize_all (a ∷ args) = elim (sanitize_arg a) [
  | ok u ↦ sanitize_all args
  | err e ↦ err (sanitize e)
]

abbrev pub no_capture : String → Option String → Result WhitelistError (Unit {0})
no_capture cmd none = ok tt
no_capture cmd (some out) = err (arg_constraint cmd)

-- `under_roots` is the path whitelist's check of a file's parent, which reads the file system.
module _ (is_seconds under_roots : String → Bool) where
  abbrev pub capture_arg : String → Option String → Result WhitelistError String
  capture_arg cmd none = err (arg_constraint cmd)
  capture_arg cmd (some out) = if under_roots out then ok out else err (outside_roots out)

  -- What is pushed after the command's name.
  unfoldable pub pushed :
      String → List String → Bool → Option String → Result WhitelistError (List String)
  unfolding validate_grim validate_slurp validate_scrot validate_hyprctl validate_xdotool
  pushed cmd args x11_active out =
      if cmd == "grim"
      then (do
        flags ← validate_grim false false args
        file ← capture_arg cmd out
        ok (flags ++ file ∷ []))
      else if cmd == "scrot"
      then (do
        flags ← validate_scrot is_seconds false false args
        file ← capture_arg cmd out
        ok (flags ++ file ∷ []))
      else if cmd == "slurp"
      then no_capture cmd out >> validate_slurp args
      else if cmd == "hyprctl"
      then no_capture cmd out >> validate_hyprctl args
      else if cmd == "xdotool"
      then no_capture cmd out >> ensure x11_active (arg_constraint cmd) >> validate_xdotool args
      else if cmd == "wmctrl"
      then no_capture cmd out >> ensure x11_active (arg_constraint cmd) >> ok args
      else err (not_whitelisted cmd)

  unfoldable pub validate_command :
      Dict String → String → List String → Bool → Option String → Result WhitelistError Invocation
  unfolding pushed sanitize_all
  validate_command bins cmd args x11_active out = do
    ensure (leb (length args) max_args) (arg_constraint cmd)
    sanitize_all (cmd ∷ args)
    abs_path ← ok_or (lookup cmd bins) (not_whitelisted cmd)
    rest ← pushed cmd args x11_active out
    ok (record { abs_path = abs_path; argv = cmd ∷ rest })
