-- ===== src/Examples/Commands.antt =====
-- The command whitelist at concrete commands.
use ultranix_mcp.Prelude.{
  nat_eq, string_eq, length, All, ok, ◌≤◌, String, ◌≡◌, refl, Bool, true, false, some, List, [],
  ◌∷◌, ◌++◌,
}
use ultranix_mcp.Prelude.Dict.{Dict, lookup}
use ultranix_mcp.Security.Sanitize.{AllChars, IsHarmless, sanitize_arg, sanitize_chars, byte_len}
use ultranix_mcp.Security.Whitelist.{
  Invocation, max_args, validate_command, pushed, validate_grim, sanitize_all, validate_xdotool,
  subcommand,
}
use ultranix_mcp.Security.Whitelist.Accepted.{validate_command_sound, validate_xdotool-append}

abbrev bins : Dict String
bins = ("grim", "/usr/bin/grim") ∷ []

abbrev yes : String → Bool
yes s = true

abbrev grim_args : List String
grim_args = "-o" ∷ "DP-1" ∷ []

abbrev grim : Invocation
grim = record { abs_path = "/usr/bin/grim"; argv = "grim" ∷ "-o" ∷ "DP-1" ∷ "/tmp/c.png" ∷ [] }

grim_accepted : validate_command yes yes bins "grim" grim_args false (some "/tmp/c.png") ≡ ok grim
unfolding validate_command pushed validate_grim sanitize_all sanitize_arg sanitize_chars byte_len
    lookup
grim_accepted = refl

validate_command_sound_example :
    (lookup "grim" bins ≡ some "/usr/bin/grim")
    × ((extra : List String) × (grim.argv ≡ "grim" ∷ (grim_args ++ extra))
        × All (λ f. yes f ≡ true) extra)
    × (length grim_args ≤ max_args)
    × All (λ a. AllChars IsHarmless a) ("grim" ∷ grim_args)
validate_command_sound_example =
    validate_command_sound yes yes bins "grim" grim_args false (some "/tmp/c.png") grim
      grim_accepted

click_accepted : validate_xdotool ("click" ∷ "1" ∷ []) ≡ ok ("click" ∷ "1" ∷ [])
unfolding validate_xdotool subcommand
click_accepted = refl

validate_xdotool-append_example :
    validate_xdotool (("click" ∷ "1" ∷ []) ++ ("exec" ∷ "sh" ∷ []))
    ≡ ok (("click" ∷ "1" ∷ []) ++ ("exec" ∷ "sh" ∷ []))
validate_xdotool-append_example =
    validate_xdotool-append ("click" ∷ "1" ∷ []) ("exec" ∷ "sh" ∷ []) click_accepted

plain_accepted : sanitize_arg "DP-1" ≡ ok tt
unfolding sanitize_arg sanitize_chars byte_len
plain_accepted = refl
