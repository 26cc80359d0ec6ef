-- ===== src/Security/Paths/Walk.antt =====
-- The walk up a path, step by step.
use ultranix_mcp.Prelude.{
  if◌then◌else◌, nat_eq, string_eq, Bool-cases, Result, ok, err, ok_injective, String, ◌≡◌, refl,
  sym, ap, ◌∙◌, subst, inl, inr, Bool, true, false, none, List, [], ◌∷◌, ◌++◌,
}
use ultranix_mcp.Security.Paths.{
  Component, root_dir, cur_dir, parent_dir, normal, PathBuf, Canonical, PathWhitelistError, no_leaf,
  cursor, file_name, is_plain, at_cursor, climb, canonicalize_lenient,
}
use ultranix_mcp.Security.Whitelist.Vectors.{append_nil}

pub append_one :
    (q : Canonical) (name : String) (tail : List String)
    → (q ++ name ∷ []) ++ tail ≡ q ++ name ∷ tail
append_one [] name tail = refl
append_one (n ∷ q) name tail = ap (λ l. n ∷ l) (append_one q name tail)

module _ (canonicalize : PathBuf → Result String Canonical) where
  -- A path that is there resolves to what it is; one that is missing, to its plain last name in what
  -- its parent resolves to.
  pub data Walks : PathBuf → Canonical → Type 0 where
    there : {p : PathBuf} {q : Canonical} → canonicalize p ≡ ok q → Walks p q
    below :
        {cs : List Component} {b : Bool} {e name : String} {q : Canonical}
        → canonicalize (cursor (normal name ∷ cs) b) ≡ err e
        → is_plain name ≡ true
        → Walks (cursor cs false) q
        → Walks (cursor (normal name ∷ cs) b) (q ++ name ∷ [])

  abbrev Climbs : List Component → Bool → List String → Canonical → Type 0
  Climbs cs b tail q = (canon : Canonical) × Walks (cursor cs b) canon × (q ≡ canon ++ tail)

  module _ (path : PathBuf) where
    at_missing :
        (name : String) (cs : List Component) (b : Bool) (tail : List String) (q : Canonical)
        (r : Result String Canonical)
        → canonicalize (cursor (normal name ∷ cs) b) ≡ r
        → (next : Result PathWhitelistError Canonical)
        → (next ≡ ok q → Climbs cs false (name ∷ tail) q)
        → at_cursor canonicalize path (cursor (normal name ∷ cs) b) tail r next ≡ ok q
        → Climbs (normal name ∷ cs) b tail q
    at_missing name cs b tail q (ok canon) e next up h = (canon, there e, sym (ok_injective h))
    at_missing name cs b tail q (err fault) e next up h = elim (Bool-cases (is_plain name)) [
      | inl plain ↦
          let (canon, resolved, same) =
            up (subst (λ b. (if b then next else err (no_leaf path)) ≡ ok q) plain h) in
          (canon ++ name ∷ [], below e plain resolved, same ∙ sym (append_one canon name tail))
      | inr not_plain ↦ cc
    ]

    -- A cursor with no last name resolves only where it is there.
    at_end :
        (cs : List Component) (b : Bool) (tail : List String) (q : Canonical)
        (r : Result String Canonical)
        → canonicalize (cursor cs b) ≡ r
        → (next : Result PathWhitelistError Canonical)
        → at_cursor canonicalize path (cursor cs b) tail r next ≡ ok q
        → file_name (cursor cs b) ≡ none
        → Climbs cs b tail q
    at_end cs b tail q (ok canon) e next h none_left = (canon, there e, sym (ok_injective h))
    at_end cs b tail q (err fault) e next h none_left = cc

    climb_sound :
        (cs : List Component) (b : Bool) (tail : List String) (q : Canonical)
        → climb canonicalize path cs b tail ≡ ok q
        → Climbs cs b tail q
    unfolding climb
    climb_sound [] b tail q h =
        at_end [] b tail q (canonicalize (cursor [] b)) refl (err (no_leaf path)) h refl
    climb_sound (root_dir ∷ cs) b tail q h =
        at_end (root_dir ∷ cs) b tail q (canonicalize (cursor (root_dir ∷ cs) b)) refl
          (climb canonicalize path cs false tail) h refl
    climb_sound (cur_dir ∷ cs) b tail q h =
        at_end (cur_dir ∷ cs) b tail q (canonicalize (cursor (cur_dir ∷ cs) b)) refl
          (climb canonicalize path cs false tail) h refl
    climb_sound (parent_dir ∷ cs) b tail q h =
        at_end (parent_dir ∷ cs) b tail q (canonicalize (cursor (parent_dir ∷ cs) b)) refl
          (climb canonicalize path cs false tail) h refl
    climb_sound (normal name ∷ cs) b tail q h =
        at_missing name cs b tail q (canonicalize (cursor (normal name ∷ cs) b)) refl
          (climb canonicalize path cs false (name ∷ tail)) (climb_sound cs false (name ∷ tail) q) h

    climb_there :
        (cs : List Component) (b : Bool) (q : Canonical) (tail : List String)
        → canonicalize (cursor cs b) ≡ ok q
        → climb canonicalize path cs b tail ≡ ok (q ++ tail)
    unfolding climb
    climb_there [] b q tail e = rw e refl
    climb_there (c ∷ cs) b q tail e = rw e refl

    climb_complete :
        {p : PathBuf} {q : Canonical}
        → Walks p q
        → (tail : List String)
        → climb canonicalize path p.components p.is_trailing tail ≡ ok (q ++ tail)
    unfolding climb
    climb_complete {p = p} {q = q} (there e) tail = climb_there p.components p.is_trailing q tail e
    climb_complete (below {name = name} {q = q} e plain h) tail =
        rw e (rw plain (climb_complete h (name ∷ tail) ∙ sym (ap ok (append_one q name tail))))

    end_failed :
        (at_ : PathBuf) (tail : List String) (r : Result String Canonical)
        (next : Result PathWhitelistError Canonical) (x : PathWhitelistError)
        → file_name at_ ≡ none
        → at_cursor canonicalize path at_ tail r next ≡ err x
        → x ≡ no_leaf path
    end_failed at_ tail (ok canon) next x none_left h = cc
    end_failed at_ tail (err e) next x none_left h = cc

    name_failed :
        (name : String) (cs : List Component) (b : Bool) (tail : List String)
        (r : Result String Canonical) (next : Result PathWhitelistError Canonical)
        (x : PathWhitelistError)
        → (next ≡ err x → x ≡ no_leaf path)
        → at_cursor canonicalize path (cursor (normal name ∷ cs) b) tail r next ≡ err x
        → x ≡ no_leaf path
    name_failed name cs b tail (ok canon) next x up h = cc
    name_failed name cs b tail (err e) next x up h = chosen (is_plain name) h
      where
        chosen :
            (plain : Bool) → (if plain then next else err (no_leaf path)) ≡ err x → x ≡ no_leaf path
        chosen true h = up h
        chosen false h = cc

    -- The only failure of the walk is the want of a last name.
    climb_failed :
        (cs : List Component) (b : Bool) (tail : List String) (x : PathWhitelistError)
        → climb canonicalize path cs b tail ≡ err x
        → x ≡ no_leaf path
    unfolding climb
    climb_failed [] b tail x h =
        end_failed (cursor [] b) tail (canonicalize (cursor [] b)) (err (no_leaf path)) x refl h
    climb_failed (root_dir ∷ cs) b tail x h =
        end_failed (cursor (root_dir ∷ cs) b) tail (canonicalize (cursor (root_dir ∷ cs) b))
          (climb canonicalize path cs false tail) x refl h
    climb_failed (cur_dir ∷ cs) b tail x h =
        end_failed (cursor (cur_dir ∷ cs) b) tail (canonicalize (cursor (cur_dir ∷ cs) b))
          (climb canonicalize path cs false tail) x refl h
    climb_failed (parent_dir ∷ cs) b tail x h =
        end_failed (cursor (parent_dir ∷ cs) b) tail (canonicalize (cursor (parent_dir ∷ cs) b))
          (climb canonicalize path cs false tail) x refl h
    climb_failed (normal name ∷ cs) b tail x h =
        name_failed name cs b tail (canonicalize (cursor (normal name ∷ cs) b))
          (climb canonicalize path cs false (name ∷ tail)) x (climb_failed cs false (name ∷ tail) x)
          h

  pub canonicalize_lenient_sound :
      (p : PathBuf) (q : Canonical) → canonicalize_lenient canonicalize p ≡ ok q → Walks p q
  unfolding canonicalize_lenient
  canonicalize_lenient_sound p q h =
      let (canon, resolved, same) = climb_sound p p.components p.is_trailing [] q h in
      subst (λ r. Walks p r) (sym (same ∙ append_nil canon)) resolved

  pub canonicalize_lenient_complete :
      (p : PathBuf) (q : Canonical) → Walks p q → canonicalize_lenient canonicalize p ≡ ok q
  unfolding canonicalize_lenient
  canonicalize_lenient_complete p q h = climb_complete p h [] ∙ ap ok (append_nil q)

  -- A path is never unresolvable.
  pub canonicalize_lenient_failed :
      (p : PathBuf) (x : PathWhitelistError)
      → canonicalize_lenient canonicalize p ≡ err x
      → x ≡ no_leaf p
  unfolding canonicalize_lenient
  canonicalize_lenient_failed p x h = climb_failed p p.components p.is_trailing [] x h
