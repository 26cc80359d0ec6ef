-- ===== src/Security/Paths/Fresh.antt =====
-- The two checks of src/security/paths.rs at a file that is not there yet.
use ultranix_mcp.Prelude.{
  if◌then◌else◌, ◌==◌, nat_eq, string_eq, Bool-cases, any, Result, ok, err, to_option, String, ◌≡◌,
  refl, subst, inl, inr, Bool, true, false, List, [], ◌∷◌, ◌++◌, arith,
}
use ultranix_mcp.Security.Paths.{
  Component, normal, PathBuf, Canonical, cursor, is_plain, is_under, check_path_with_roots,
  is_inside, parent_under_roots,
}
use ultranix_mcp.Security.Paths.Walk.{there, below}
use ultranix_mcp.Security.Paths.Resolved.{Walks-Resolves, check_path_with_roots_iff}

is_under-append :
    (root dir : Canonical) (tail : List String)
    → is_under root dir ≡ true
    → is_under root (dir ++ tail) ≡ true
unfolding is_under
is_under-append [] dir tail h = refl
is_under-append (r ∷ root) [] tail h = cc
is_under-append (r ∷ root) (n ∷ dir) tail h = elim (Bool-cases (r == n)) [
  | inl e ↦ rw e (
      is_under-append root dir tail
        (subst (λ b. (if b then is_under root dir else false) ≡ true) e h))
  | inr e ↦ cc
]

any_under-append :
    (roots : List Canonical) (dir : Canonical) (tail : List String)
    → any (λ root. is_under root dir) roots ≡ true
    → any (λ root. is_under root (dir ++ tail)) roots ≡ true
any_under-append [] dir tail h = cc
any_under-append (root ∷ roots) dir tail h = elim (Bool-cases (is_under root dir)) [
  | inl e ↦ rw (is_under-append root dir tail e) refl
  | inr e ↦ ground (arith, any_under-append roots dir tail)
]

module _ (canonicalize : PathBuf → Result String Canonical) (roots : List Canonical) where
  -- A file that is not there yet, in a directory that resolves under a root by the check of the
  -- parent, passes the check of the whole path too, which answers the file in that directory.
  pub parent_under_roots-check_path :
      (name : String) (cs : List Component) (b : Bool) (e : String)
      → canonicalize (cursor (normal name ∷ cs) b) ≡ err e
      → is_plain name ≡ true
      → parent_under_roots canonicalize roots (cursor (normal name ∷ cs) b) ≡ true
      → (dir : Canonical) × (canonicalize (cursor cs false) ≡ ok dir)
        × (check_path_with_roots canonicalize roots (cursor (normal name ∷ cs) b)
            ≡ ok (dir ++ name ∷ []))
  unfolding parent_under_roots
  parent_under_roots-check_path name cs b e absent plain h =
      go (canonicalize (cursor cs false)) refl h
    where
      go :
          (r : Result String Canonical)
          → canonicalize (cursor cs false) ≡ r
          → is_inside roots (to_option r) ≡ true
          → (dir : Canonical) × (r ≡ ok dir)
            × (check_path_with_roots canonicalize roots (cursor (normal name ∷ cs) b)
                ≡ ok (dir ++ name ∷ []))
      go (err fault) f inside = cc
      go (ok dir) f inside = (
        dir,
        refl,
        ((check_path_with_roots_iff canonicalize roots (cursor (normal name ∷ cs) b)).0
              (dir ++ name ∷ [])).1
            (
              Walks-Resolves canonicalize (below absent plain (there f)),
              any_under-append roots dir (name ∷ []) inside,
            ),
      )
