-- ===== src/Plugins/Substitution.antt =====
-- Substituting parameters into the steps of a validated manifest.
use ultranix_mcp.Prelude.{
  nat_eq, string_eq, All, All-imp, Result, ok, err, ok_or, ok_injective, String, ◌≡◌, refl, sym,
  subst, true, Option, none, some, List, [], ◌∷◌, ◌++◌,
}
use ultranix_mcp.Prelude.Dict.{Dict, lookup, is_some}
use ultranix_mcp.Json.{
  Value, null, boolean, number, string, array, object, Items, no_items, item, Members, no_members,
  member,
}
use ultranix_mcp.Plugins.Template.{
  Segment, lit, ref, TemplateError, ParamError, unsupplied, missing, unknown, wrong_type, template,
  names, names_of, both, parse_template, collect_refs, collect_items, collect_members, with_lit,
  with_text, render, substitute_segments, substitute_parsed, as_string, cons_item, cons_member,
  as_array, as_object, substitute_value, substitute_items, substitute_args,
}
use ultranix_mcp.Plugins.Manifest.{ParamSpec, PluginManifest, RawManifest, validate}
use ultranix_mcp.Plugins.Accepted.{validate-IsValid}

All-unappend {ℓ κ} :
    {A : Type ℓ} (P : A → Type κ) (xs ys : List A) → All P (xs ++ ys) → All P xs × All P ys
All-unappend P [] ys h = (tt, h)
All-unappend P (x ∷ xs) ys h = let (l, r) = All-unappend P xs ys h.1 in ((h.0, l), r)

both-eq-ok :
    (a b : Result TemplateError (List String)) {refs : List String}
    → both a b ≡ ok refs
    → (xs : List String) × (ys : List String) × (a ≡ ok xs) × (b ≡ ok ys) × (xs ++ ys ≡ refs)
both-eq-ok (err e) b h = cc
both-eq-ok (ok xs) (err e) h = cc
both-eq-ok (ok xs) (ok ys) h = (xs, ys, refl, refl, ok_injective h)

-- The only fault is a reference to a declared parameter that has no value.
module _ (params : Dict ParamSpec) (bound : Dict Value) where
  abbrev pub IsUnsupplied : ParamError → Type 0
  IsUnsupplied (unsupplied name) =
      (is_some (lookup name params) ≡ true) × (lookup name bound ≡ none)
  IsUnsupplied (missing name) = ⊥
  IsUnsupplied (unknown name) = ⊥
  IsUnsupplied (wrong_type name expected) = ⊥
  IsUnsupplied (template e) = ⊥

  abbrev pub Settles : {A : Type 0} → Result ParamError A → Type 0
  Settles (ok a) = Unit
  Settles (err e) = IsUnsupplied e

  abbrev Declared : List String → Type 0
  Declared refs = All (λ name. is_some (lookup name params) ≡ true) refs

  module _ (to_json : Value → String) where
    Settles-ref :
        (name : String) (o : Option Value)
        → lookup name bound ≡ o
        → is_some (lookup name params) ≡ true
        → (rest : Result ParamError String) → Settles rest
        → Settles (with_text to_json o name rest)
    Settles-ref name none e d rest h = (d, e)
    Settles-ref name (some v) e d (ok s) h = tt
    Settles-ref name (some v) e d (err f) h = h

    Settles-lit :
        (text : String) (rest : Result ParamError String)
        → Settles rest
        → Settles (with_lit text rest)
    Settles-lit text (ok s) h = tt
    Settles-lit text (err e) h = h

    Settles-render :
        (segs : List Segment) → Declared (names segs) → Settles (render to_json bound segs)
    unfolding render
    Settles-render [] d = tt
    Settles-render (lit text ∷ segs) d = Settles-lit text _ (Settles-render segs d)
    Settles-render (ref name ∷ segs) d =
        Settles-ref name (lookup name bound) refl d.0 _ (Settles-render segs d.1)

    Settles-typed :
        (name : String) (o : Option Value)
        → lookup name bound ≡ o
        → is_some (lookup name params) ≡ true
        → Settles (ok_or o (unsupplied name))
    Settles-typed name none e d = (d, e)
    Settles-typed name (some v) e d = tt

    Settles-string : (r : Result ParamError String) → Settles r → Settles (as_string r)
    Settles-string (ok s) h = tt
    Settles-string (err e) h = h

    Settles-segments :
        (segs : List Segment)
        → Declared (names segs)
        → Settles (substitute_segments to_json bound segs)
    unfolding substitute_segments
    Settles-segments [] d = Settles-string (render to_json bound []) (Settles-render [] d)
    Settles-segments (lit text ∷ segs) d =
        Settles-string (render to_json bound (lit text ∷ segs)) (Settles-render (lit text ∷ segs) d)
    Settles-segments (ref name ∷ []) d = Settles-typed name (lookup name bound) refl d.0
    Settles-segments (ref name ∷ seg ∷ segs) d =
        Settles-string (render to_json bound (ref name ∷ seg ∷ segs))
          (Settles-render (ref name ∷ seg ∷ segs) d)

    Settles-parsed :
        (r : Result TemplateError (List Segment)) {refs : List String}
        → names_of r ≡ ok refs
        → Declared refs
        → Settles (substitute_parsed to_json bound r)
    Settles-parsed (ok segs) h d = Settles-segments segs (subst Declared (sym (ok_injective h)) d)
    Settles-parsed (err e) h d = cc

    Settles-item :
        (v : Result ParamError Value) (vs : Result ParamError Items)
        → Settles v
        → Settles vs
        → Settles (as_array (cons_item v vs)) × Settles (cons_item v vs)
    Settles-item (err e) vs h k = (h, h)
    Settles-item (ok v) (err e) h k = (k, k)
    Settles-item (ok v) (ok vs) h k = (tt, tt)

    Settles-member :
        (k : String) (v : Result ParamError Value) (ms : Result ParamError Members)
        → Settles v
        → Settles ms
        → Settles (as_object (cons_member k v ms)) × Settles (cons_member k v ms)
    Settles-member k (err e) ms h g = (h, h)
    Settles-member k (ok v) (err e) h g = (g, g)
    Settles-member k (ok v) (ok ms) h g = (tt, tt)

    Settles-array : (r : Result ParamError Items) → Settles r → Settles (as_array r)
    Settles-array (ok vs) h = tt
    Settles-array (err e) h = h

    Settles-object : (r : Result ParamError Members) → Settles r → Settles (as_object r)
    Settles-object (ok ms) h = tt
    Settles-object (err e) h = h

    mutual
      unfolding collect_refs substitute_value

      Settles-value :
          (v : Value) {refs : List String}
          → collect_refs v ≡ ok refs
          → Declared refs
          → Settles (substitute_value to_json bound v)
      Settles-value (string s) h d = Settles-parsed (parse_template s) h d
      Settles-value (array vs) h d = Settles-array _ (Settles-items vs h d)
      Settles-value (object ms) h d = Settles-object _ (Settles-members ms h d)
      Settles-value null h d = tt
      Settles-value (boolean b) h d = tt
      Settles-value (number n) h d = tt

      Settles-items :
          (vs : Items) {refs : List String}
          → collect_items vs ≡ ok refs
          → Declared refs
          → Settles (substitute_items to_json bound vs)
      Settles-items no_items h d = tt
      Settles-items (item v vs) h d =
          let (xs, ys, hx, hy, e) = both-eq-ok (collect_refs v) (collect_items vs) h in
          let (dx, dy) = All-unappend _ xs ys (subst Declared (sym e) d) in
          (Settles-item _ _ (Settles-value v hx dx) (Settles-items vs hy dy)).1

      Settles-members :
          (ms : Members) {refs : List String}
          → collect_members ms ≡ ok refs
          → Declared refs
          → Settles (substitute_args to_json bound ms)
      Settles-members no_members h d = tt
      Settles-members (member k v ms) h d =
          let (xs, ys, hx, hy, e) = both-eq-ok (collect_refs v) (collect_members ms) h in
          let (dx, dy) = All-unappend _ xs ys (subst Declared (sym e) d) in
          (Settles-member k _ _ (Settles-value v hx dx) (Settles-members ms hy dy)).1

-- In a manifest that passes validation, substituting any bound values into any step succeeds or
-- fails at a declared parameter that has no value: no template of it is ever malformed, and no
-- reference undeclared.
pub validate-substitute_args :
    (to_json : Value → String) (raw : RawManifest) (m : PluginManifest) (bound : Dict Value)
    → validate raw ≡ ok m
    → All (λ step. Settles m.params bound (substitute_args to_json bound step.args)) m.steps
validate-substitute_args to_json raw m bound h =
    All-imp m.steps
      (λ step v. Settles-members m.params bound to_json step.args v.collected v.declared)
      (validate-IsValid raw m h).steps_valid
