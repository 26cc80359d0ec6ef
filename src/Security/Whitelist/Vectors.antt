-- ===== src/Security/Whitelist/Vectors.antt =====
-- What a validator pushes is what it was given.
use ultranix_mcp.Prelude.{
  leb, ◌==◌, nat_eq, string_eq, Bool-cases, length, is_empty, contains, Result, ok, err, ◌>>=◌,
  ensure, >>=-eq-ok, ok_injective, String, ◌≡◌, refl, sym, ap, ◌∙◌, inl, inr, Bool, true, not, ◌&&◌,
  ◌||◌, List, [], ◌∷◌, ◌++◌, arith,
}
use text.Mathlib.TextEquality.{eq_iff}
use ultranix_mcp.Security.Whitelist.{
  WhitelistError, arg_constraint, validate_grim, validate_slurp, validate_scrot, hyprctl_sub,
  validate_hyprctl, subcommand, is_subcommand, validate_xdotool, slurp_value_flags, hyprctl_reads,
  hyprctl_dispatchers,
}

pub err_ok :
    {e : WhitelistError} {A : Type 0} {a : A} → Path (Result WhitelistError A) (err e) (ok a) → ⊥
err_ok h = cc

pub append_nil : (xs : List String) → xs ++ [] ≡ xs
append_nil [] = refl
append_nil (x ∷ xs) = ap (λ ys. x ∷ ys) (append_nil xs)

push-eq :
    (m : Result WhitelistError (List String)) (g : List String → List String)
    (args out : List String)
    → ((o : List String) → m ≡ ok o → o ≡ args)
    → (m >>= λ o. ok (g o)) ≡ ok out
    → out ≡ g args
push-eq (ok o) g args out ih h = sym (ok_injective h) ∙ ap g (ih o refl)
push-eq (err e) g args out ih h = let bad : ⊥ = cc in absurd bad

pub validate_grim-eq :
    (seen_o seen_g : Bool) (args out : List String)
    → validate_grim seen_o seen_g args ≡ ok out
    → out ≡ args
unfolding validate_grim
validate_grim-eq seen_o seen_g [] out h = sym (ok_injective h)
validate_grim-eq seen_o seen_g (a ∷ []) out h = let bad : ⊥ = cc in absurd bad
validate_grim-eq seen_o seen_g (a ∷ val ∷ rest) out h = elim (Bool-cases (a == "-o")) [
  | inl e ↦ elim (Bool-cases seen_o) [
    | inl f ↦ let bad : ⊥ = ground arith in absurd bad
    | inr f ↦
        push-eq (validate_grim true seen_g rest) (λ o. a ∷ val ∷ o) rest out
          (validate_grim-eq true seen_g rest) (rw (e, f) at h)
  ]
  | inr e ↦ elim (Bool-cases (a == "-g")) [
    | inr f ↦ let bad : ⊥ = ground arith in absurd bad
    | inl f ↦ elim (Bool-cases seen_g) [
      | inl g ↦ let bad : ⊥ = ground arith in absurd bad
      | inr g ↦
          push-eq (validate_grim seen_o true rest) (λ o. a ∷ val ∷ o) rest out
            (validate_grim-eq seen_o true rest) (rw (e, f, g) at h)
    ]
  ]
]

pub validate_slurp-eq : (args out : List String) → validate_slurp args ≡ ok out → out ≡ args
unfolding validate_slurp
validate_slurp-eq [] out h = sym (ok_injective h)
validate_slurp-eq (a ∷ []) out h = elim (Bool-cases (a == "-d")) [
  | inl e ↦ sym (ok_injective (rw e at h))
  | inr e ↦ let bad : ⊥ = ground arith in absurd bad
]
validate_slurp-eq (a ∷ val ∷ rest) out h = elim (Bool-cases (a == "-d")) [
  | inl e ↦
      push-eq (validate_slurp (val ∷ rest)) (λ o. a ∷ o) (val ∷ rest) out
        (validate_slurp-eq (val ∷ rest)) (rw e at h)
  | inr e ↦ elim (Bool-cases (contains slurp_value_flags a)) [
    | inl f ↦
        push-eq (validate_slurp rest) (λ o. a ∷ val ∷ o) rest out (validate_slurp-eq rest)
          (rw (e, f) at h)
    | inr f ↦ let bad : ⊥ = ground arith in absurd bad
  ]
]

pub validate_scrot-eq :
    (is_seconds : String → Bool) (seen_s seen_d : Bool) (args out : List String)
    → validate_scrot is_seconds seen_s seen_d args ≡ ok out
    → out ≡ args
unfolding validate_scrot
validate_scrot-eq is_seconds seen_s seen_d [] out h = sym (ok_injective h)
validate_scrot-eq is_seconds seen_s seen_d (a ∷ []) out h =
    elim (Bool-cases (a == "-s" && not seen_s)) [
      | inl e ↦ sym (ok_injective (rw e at h))
      | inr e ↦ let bad : ⊥ = ground arith in absurd bad
    ]
validate_scrot-eq is_seconds seen_s seen_d (a ∷ val ∷ rest) out h = elim (Bool-cases (a == "-s")) [
  | inl e ↦ elim (Bool-cases seen_s) [
    | inl f ↦ let bad : ⊥ = ground arith in absurd bad
    | inr f ↦
        push-eq (validate_scrot is_seconds true seen_d (val ∷ rest)) (λ o. a ∷ o) (val ∷ rest) out
          (validate_scrot-eq is_seconds true seen_d (val ∷ rest)) (rw (e, f) at h)
  ]
  | inr e ↦ elim (Bool-cases (a == "-d")) [
    | inr f ↦ let bad : ⊥ = ground arith in absurd bad
    | inl f ↦ elim (Bool-cases (seen_d || not (is_seconds val))) [
      | inl g ↦ let bad : ⊥ = ground arith in absurd bad
      | inr g ↦
          push-eq (validate_scrot is_seconds seen_s true rest) (λ o. a ∷ val ∷ o) rest out
            (validate_scrot-eq is_seconds seen_s true rest) (rw (e, f, g) at h)
    ]
  ]
]

hyprctl_sub-eq : (args out : List String) → hyprctl_sub args ≡ ok out → out ≡ args
unfolding hyprctl_sub
hyprctl_sub-eq [] out h = let bad : ⊥ = cc in absurd bad
hyprctl_sub-eq (sub ∷ []) out h = elim (Bool-cases (contains hyprctl_reads sub)) [
  | inl e ↦ sym (ok_injective (rw e at h))
  | inr e ↦ elim (Bool-cases (sub == "dispatch")) [
    | inl f ↦ absurd (err_ok (rw (e, f) at h))
    | inr f ↦ absurd (err_ok (rw (e, f) at h))
  ]
]
hyprctl_sub-eq (sub ∷ d ∷ dargs) out h = elim (Bool-cases (contains hyprctl_reads sub)) [
  | inl e ↦ absurd (err_ok (rw e at h))
  | inr e ↦ elim (Bool-cases (sub == "dispatch")) [
    | inr f ↦ absurd (err_ok (rw (e, f) at h))
    | inl f ↦
        elim (Bool-cases
          (contains hyprctl_dispatchers d && not (is_empty dargs) && leb (length dargs) 4)) [
            | inr g ↦ absurd (err_ok (rw (e, f, g) at h))
            | inl g ↦
                sym (ok_injective (rw (e, f, g) at h))
                ∙ ap (λ s. s ∷ d ∷ dargs) (sym ((eq_iff sub "dispatch").0 f))
          ]
  ]
]

pub validate_hyprctl-eq : (args out : List String) → validate_hyprctl args ≡ ok out → out ≡ args
unfolding validate_hyprctl
validate_hyprctl-eq [] out h = hyprctl_sub-eq [] out h
validate_hyprctl-eq (first ∷ tail) out h = elim (Bool-cases (first == "-j")) [
  | inl e ↦
      push-eq (hyprctl_sub tail) (λ o. "-j" ∷ o) tail out (hyprctl_sub-eq tail) (rw e at h)
      ∙ ap (λ f. f ∷ tail) (sym ((eq_iff first "-j").0 e))
  | inr e ↦ hyprctl_sub-eq (first ∷ tail) out (rw e at h)
]

pub validate_xdotool-eq : (args out : List String) → validate_xdotool args ≡ ok out → out ≡ args
unfolding validate_xdotool
validate_xdotool-eq args out h =
    let (u, valid, same) =
      >>=-eq-ok (ensure (is_subcommand (subcommand args)) (arg_constraint "xdotool")) _ h in
    sym (ok_injective same)
