-- ===== src/Security/Whitelist/Accepted.antt =====
-- What an accepted command is.
use ultranix_mcp.Prelude.{
  leb, leb→le, ◌==◌, nat_eq, string_eq, Bool-cases, Option-cases, length, All, Result, ok, err,
  ◌>>=◌, ◌>>◌, ok_or, ensure, Result-cases, >>=-eq-ok, ok_or-eq-ok, ensure-eq-ok, ok_injective, ◌≤◌,
  String, ◌≡◌, refl, sym, ap, ◌∙◌, inl, inr, Bool, true, false, Option, none, some, List, [], ◌∷◌,
  ◌++◌, arith,
}
use ultranix_mcp.Prelude.Dict.{Dict, lookup}
use ultranix_mcp.Security.Sanitize.{sanitize_arg, AllChars, IsHarmless, sanitize_arg_sound}
use ultranix_mcp.Security.Whitelist.{
  WhitelistError, Invocation, arg_constraint, not_whitelisted, max_args, subcommand, is_subcommand,
  validate_xdotool, sanitize_all, no_capture, capture_arg, pushed, validate_command,
}
use ultranix_mcp.Security.Whitelist.Vectors.{
  err_ok, append_nil, validate_grim-eq, validate_slurp-eq, validate_scrot-eq, validate_hyprctl-eq,
  validate_xdotool-eq,
}

sanitize_all-All :
    (args : List String) → sanitize_all args ≡ ok tt → All (λ a. AllChars IsHarmless a) args
unfolding sanitize_all
sanitize_all-All [] h = tt
sanitize_all-All (a ∷ args) h = elim (Result-cases (sanitize_arg a)) [
  | inl (tt, e) ↦ ((sanitize_arg_sound a e).1, sanitize_all-All args (ground arith))
  | inr (e, f) ↦ let bad : ⊥ = ground arith in absurd bad
]

-- Flags that are pushed as they are, with the capture file after them.
module _ (is_seconds under_roots : String → Bool) where
  with_file :
      (m : Result WhitelistError (List String)) (cmd : String) (args rest : List String)
      (out : Option String)
      → ((o : List String) → m ≡ ok o → o ≡ args)
      → (m >>= λ flags.
          capture_arg is_seconds under_roots cmd out >>= λ file. ok (flags ++ file ∷ []))
        ≡ ok rest
      → (extra : List String) × (rest ≡ args ++ extra) × All (λ f. under_roots f ≡ true) extra
  with_file (err e) cmd args rest out ih h = absurd (err_ok h)
  with_file (ok o) cmd args rest none ih h = absurd (err_ok h)
  with_file (ok o) cmd args rest (some file) ih h = elim (Bool-cases (under_roots file)) [
    | inr e ↦ absurd (err_ok (rw e at h))
    | inl e ↦
        (file ∷ [], sym (ok_injective (rw e at h)) ∙ ap (λ z. z ++ file ∷ []) (ih o refl), (e, tt))
  ]

  alone :
      (args rest : List String)
      → rest ≡ args
      → (extra : List String) × (rest ≡ args ++ extra) × All (λ f. under_roots f ≡ true) extra
  alone args rest e = ([], e ∙ sym (append_nil args), tt)

  pushed-eq :
      (cmd : String) (args rest : List String) (x11_active : Bool) (out : Option String)
      → pushed is_seconds under_roots cmd args x11_active out ≡ ok rest
      → (extra : List String) × (rest ≡ args ++ extra) × All (λ f. under_roots f ≡ true) extra
  unfolding pushed
  pushed-eq cmd args rest x11_active out h = elim (Bool-cases (cmd == "grim")) [
    | inl a ↦ with_file _ cmd args rest out (validate_grim-eq false false args) (rw a at h)
    | inr a ↦ elim (Bool-cases (cmd == "scrot")) [
      | inl b ↦
          with_file _ cmd args rest out (validate_scrot-eq is_seconds false false args)
            (rw (a, b) at h)
      | inr b ↦ elim (Bool-cases (cmd == "slurp")) [
        | inl c ↦
            let (u, v, k) = >>=-eq-ok (no_capture cmd out) _ (rw (a, b, c) at h) in
            alone args rest (validate_slurp-eq args rest k)
        | inr c ↦ elim (Bool-cases (cmd == "hyprctl")) [
          | inl d ↦
              let (u, v, k) = >>=-eq-ok (no_capture cmd out) _ (rw (a, b, c, d) at h) in
              alone args rest (validate_hyprctl-eq args rest k)
          | inr d ↦ elim (Bool-cases (cmd == "xdotool")) [
            | inl e ↦
                let (u, v, k) =
                  >>=-eq-ok (no_capture cmd out >> ensure x11_active (arg_constraint cmd)) _
                    (rw (a, b, c, d, e) at h) in
                alone args rest (validate_xdotool-eq args rest k)
            | inr e ↦ elim (Bool-cases (cmd == "wmctrl")) [
              | inl f ↦
                  let (u, v, k) =
                    >>=-eq-ok (no_capture cmd out >> ensure x11_active (arg_constraint cmd)) _
                      (rw (a, b, c, d, e, f) at h) in
                  alone args rest (sym (ok_injective k))
              | inr f ↦ absurd (err_ok (rw (a, b, c, d, e, f) at h))
            ]
          ]
        ]
      ]
    ]
  ]

  -- A command that is accepted runs the binary pinned at start-up, with an argument vector of its name,
  -- the caller's arguments as they are, and at most files under the path whitelist's roots; there are
  -- no more arguments than the cap, and neither the name nor an argument holds a shell metacharacter
  -- or a control.
  pub validate_command_sound :
      (bins : Dict String) (cmd : String) (args : List String) (x11_active : Bool)
      (out : Option String) (inv : Invocation)
      → validate_command is_seconds under_roots bins cmd args x11_active out ≡ ok inv
      → (lookup cmd bins ≡ some inv.abs_path)
        × ((extra : List String) × (inv.argv ≡ cmd ∷ (args ++ extra))
            × All (λ f. under_roots f ≡ true) extra)
        × (length args ≤ max_args)
        × All (λ a. AllChars IsHarmless a) (cmd ∷ args)
  unfolding validate_command
  validate_command_sound bins cmd args x11_active out inv h =
      let (u, short, h1) =
        >>=-eq-ok (ensure (leb (length args) max_args) (arg_constraint cmd)) _ h in
      let (v, clean, h2) = >>=-eq-ok (sanitize_all (cmd ∷ args)) _ h1 in
      let (path, pinned, h3) = >>=-eq-ok (ok_or (lookup cmd bins) (not_whitelisted cmd)) _ h2 in
      let (rest, gave, same) =
        >>=-eq-ok (pushed is_seconds under_roots cmd args x11_active out) _ h3 in
      let (extra, shape, rooted) = pushed-eq cmd args rest x11_active out gave in
      (
        ok_or-eq-ok (lookup cmd bins) (not_whitelisted cmd) pinned
            ∙ ap (λ i. some i.abs_path) (ok_injective same),
        (extra, ap (λ i. i.argv) (sym (ok_injective same)) ∙ ap (λ r. cmd ∷ r) shape, rooted),
        leb→le _ _ (ensure-eq-ok _ (arg_constraint cmd) short),
        sanitize_all-All (cmd ∷ args) clean,
      )

-- The name that xdotool's arguments are judged by does not change when more arguments follow.
subcommand-append :
    (args extra : List String) (sub : String)
    → subcommand args ≡ some sub
    → subcommand (args ++ extra) ≡ some sub
unfolding subcommand
subcommand-append [] extra sub h = cc
subcommand-append (a ∷ []) [] sub h = ground arith
subcommand-append (a ∷ []) (b ∷ extra) sub h = ground arith
subcommand-append (a ∷ b ∷ rest) extra sub h =
    ground (arith, subcommand-append (b ∷ rest) extra sub, subcommand-append rest extra sub)

-- xdotool's constraint looks at the first verb only: arguments that are accepted are accepted with
-- anything after them, so with further verbs that xdotool chains, which are in no list.
pub validate_xdotool-append :
    (args extra : List String)
    → validate_xdotool args ≡ ok args
    → validate_xdotool (args ++ extra) ≡ ok (args ++ extra)
unfolding validate_xdotool
validate_xdotool-append args extra h =
    let (u, valid, same) =
      >>=-eq-ok (ensure (is_subcommand (subcommand args)) (arg_constraint "xdotool")) _ h in
    elim (Option-cases (subcommand args)) [
      | inl e ↦ absurd (err_ok (rw e at valid))
      | inr (sub, e) ↦
          rw (subcommand-append args extra sub e)
            (rw (ensure-eq-ok _ (arg_constraint "xdotool") (rw e at valid)) refl)
    ]
