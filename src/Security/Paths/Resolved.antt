-- ===== src/Security/Paths/Resolved.antt =====
-- What a checked path resolves to.
use ultranix_mcp.Prelude.{
  if◌then◌else◌, nat_eq, string_eq, any, All, Result, ok, err, ◌>>=◌, is_ok, ok_injective, String,
  ◌≡◌, refl, sym, ap, ◌∙◌, subst, ◌↔◌, ◌⊎◌, inl, inr, Bool, true, false, List, [], ◌∷◌, ◌++◌, map,
  reverse,
}
use mathlib.Core.List.{append_assoc, reverse-cons}
use ultranix_mcp.Security.Paths.{
  Component, normal, PathBuf, Canonical, PathWhitelistError, outside_roots, no_leaf, cursor,
  is_plain, is_under, canonicalize_lenient, inside, check_path_with_roots,
}
use ultranix_mcp.Security.Whitelist.Vectors.{append_nil}
use ultranix_mcp.Security.Paths.Walk.{
  Walks, there, below, canonicalize_lenient_sound, canonicalize_lenient_complete,
  canonicalize_lenient_failed,
}

inside_sound :
    (roots : List Canonical) (q r : Canonical) (b : Bool)
    → any (λ root. is_under root q) roots ≡ b
    → (if b then ok q else err (outside_roots q)) ≡ ok r
    → (any (λ root. is_under root r) roots ≡ true) × (q ≡ r)
inside_sound roots q r true e h =
    (subst (λ t. any (λ root. is_under root t) roots ≡ true) (ok_injective h) e, ok_injective h)
inside_sound roots q r false e h = cc

inside_failed :
    (roots : List Canonical) (q : Canonical) (x : PathWhitelistError) (b : Bool)
    → any (λ root. is_under root q) roots ≡ b
    → (if b then ok q else err (outside_roots q)) ≡ err x
    → (any (λ root. is_under root q) roots ≡ false) × (x ≡ outside_roots q)
inside_failed roots q x true e h = cc
inside_failed roots q x false e h = (e, cc)

-- Only the whole path keeps what its text has after the last component.
abbrev pub trailing : List String → Bool → Bool
trailing [] b = b
trailing (name ∷ names) b = false

trailing-false : (names : List String) → trailing names false ≡ false
trailing-false [] = refl
trailing-false (name ∷ names) = refl

-- A name after the others.
reversed :
    (canon : Canonical) (name : String) (names : List String)
    → (canon ++ reverse names) ++ name ∷ [] ≡ canon ++ reverse (name ∷ names)
reversed canon name names =
    append_assoc canon (reverse names) (name ∷ [])
    ∙ ap (λ t. canon ++ t) (sym (reverse-cons name names))

module _ (canonicalize : PathBuf → Result String Canonical) where
  -- No path from the names down, the last one first, is found.
  abbrev pub AreMissing : List String → List Component → Bool → Type 0
  AreMissing [] cs b = Unit {0}
  AreMissing (name ∷ names) cs b =
      (is_ok (canonicalize (cursor (normal name ∷ map normal names ++ cs) b)) ≡ false)
      × AreMissing names cs false

  -- A path resolves to what its nearest ancestor that is found is, and below it the names that are
  -- not found, all of them plain. A dangling symbolic link is not found.
  pub record Resolves (p : PathBuf) (q : Canonical) : Type 0 where
    pub names : List String
    pub ancestor : List Component
    pub canon : Canonical
    pub path : p.components ≡ map normal names ++ ancestor
    pub plain : All (λ name. is_plain name ≡ true) names
    pub missing : AreMissing names ancestor p.is_trailing
    pub found : canonicalize (cursor ancestor (trailing names p.is_trailing)) ≡ ok canon
    pub answer : q ≡ canon ++ reverse names

  is_missing : {r : Result String Canonical} {e : String} → r ≡ err e → is_ok r ≡ false
  is_missing h = rw h refl

  pub Walks-Resolves : {p : PathBuf} {q : Canonical} → Walks canonicalize p q → Resolves p q
  Walks-Resolves {p} {q} (there e) = record {
    names = [];
    ancestor = p.components;
    canon = q;
    path = refl;
    plain = tt;
    missing = tt;
    found = e;
    answer = sym (append_nil q);
  }
  Walks-Resolves (below {cs = cs} {b = b} {name = name} {q = q} e plain h) =
      let r = Walks-Resolves h in
      record {
        names = name ∷ r.names;
        ancestor = r.ancestor;
        canon = r.canon;
        path = ap (λ t. normal name ∷ t) r.path;
        plain = (plain, r.plain);
        missing = (
          is_missing (ap (λ t. canonicalize (cursor (normal name ∷ t) b)) (sym r.path) ∙ e),
          r.missing,
        );
        found =
            ap (λ t. canonicalize (cursor r.ancestor t)) (sym (trailing-false r.names)) ∙ r.found;
        answer = ap (λ t. t ++ name ∷ []) r.answer ∙ reversed r.canon name r.names;
      }

  missing_error : (r : Result String Canonical) → is_ok r ≡ false → (e : String) × (r ≡ err e)
  missing_error (ok q) h = cc
  missing_error (err e) h = (e, refl)

  walk_names :
      (names : List String) (cs : List Component) (b : Bool) (canon : Canonical)
      → All (λ name. is_plain name ≡ true) names
      → AreMissing names cs b
      → canonicalize (cursor cs (trailing names b)) ≡ ok canon
      → Walks canonicalize (cursor (map normal names ++ cs) b) (canon ++ reverse names)
  walk_names [] cs b canon plain missing found =
      subst (λ q. Walks canonicalize (cursor cs b) q) (sym (append_nil canon)) (there found)
  walk_names (name ∷ names) cs b canon (plain, plains) (missing, more) found =
      let (e, fails) = missing_error _ missing in
      subst (λ q. Walks canonicalize (cursor (normal name ∷ map normal names ++ cs) b) q)
        (reversed canon name names)
        (below fails plain (
          walk_names names cs false canon plains more
            (ap (λ t. canonicalize (cursor cs t)) (trailing-false names) ∙ found)))

  Resolves-Walks : {p : PathBuf} {q : Canonical} → Resolves p q → Walks canonicalize p q
  Resolves-Walks {p} {q} r =
      subst (λ cs. Walks canonicalize (cursor cs p.is_trailing) q) (sym r.path)
        (subst (λ t. Walks canonicalize (cursor (map normal r.names ++ r.ancestor) p.is_trailing) t)
          (sym r.answer)
          (walk_names r.names r.ancestor p.is_trailing r.canon r.plain r.missing r.found))

  checked_sound :
      (roots : List Canonical) (p : PathBuf) (q : Canonical)
      (r : Result PathWhitelistError Canonical)
      → canonicalize_lenient canonicalize p ≡ r
      → (r >>= inside roots) ≡ ok q
      → Resolves p q × (any (λ root. is_under root q) roots ≡ true)
  checked_sound roots p q (err x) e h = cc
  checked_sound roots p q (ok canon) e h =
      let (held, same) = inside_sound roots canon q _ refl h in
      (Walks-Resolves (canonicalize_lenient_sound canonicalize p q (e ∙ ap ok same)), held)

  checked_failed :
      (roots : List Canonical) (p : PathBuf) (x : PathWhitelistError)
      (r : Result PathWhitelistError Canonical)
      → canonicalize_lenient canonicalize p ≡ r
      → (r >>= inside roots) ≡ err x
      → (x ≡ no_leaf p)
        ⊎ ((q : Canonical) × Resolves p q
            × (any (λ root. is_under root q) roots ≡ false)
            × (x ≡ outside_roots q))
  checked_failed roots p x (err y) e h = inl (canonicalize_lenient_failed canonicalize p x (e ∙ h))
  checked_failed roots p x (ok canon) e h =
      let (held, same) = inside_failed roots canon x _ refl h in
      inr (canon, Walks-Resolves (canonicalize_lenient_sound canonicalize p canon e), held, same)

  -- The check answers a path exactly when the checked one resolves to it and it lies under one of the
  -- roots. It refuses a path for want of a last name, or since what it resolves to lies under no root;
  -- it never calls one unresolvable.
  pub check_path_with_roots_iff :
      (roots : List Canonical) (p : PathBuf)
      → ((q : Canonical)
          → (check_path_with_roots canonicalize roots p ≡ ok q)
            ↔ (Resolves p q × (any (λ root. is_under root q) roots ≡ true)))
        × ((x : PathWhitelistError)
            → check_path_with_roots canonicalize roots p ≡ err x
            → (x ≡ no_leaf p)
              ⊎ ((q : Canonical) × Resolves p q
                  × (any (λ root. is_under root q) roots ≡ false)
                  × (x ≡ outside_roots q)))
  unfolding check_path_with_roots
  check_path_with_roots_iff roots p = (
    λ q. (
      checked_sound roots p q (canonicalize_lenient canonicalize p) refl,
      λ (resolved, held).
          rw (canonicalize_lenient_complete canonicalize p q (Resolves-Walks resolved))
            (rw held refl),
    ),
    λ x h. checked_failed roots p x (canonicalize_lenient canonicalize p) refl h,
  )
