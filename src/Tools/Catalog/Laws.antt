-- ===== src/Tools/Catalog/Laws.antt =====
-- What `tools/list` advertises is what the gates admit.
use ultranix_mcp.Prelude.{
  if◌then◌else◌, ◌==◌, nat_eq, string_eq, Bool-cases, Option-cases, and-eq-true, retain, all, find,
  contains, String, ◌≡◌, refl, sym, subst, ◌↔◌, ◌⊎◌, inl, inr, Bool, true, false, not, ◌&&◌, ◌||◌,
  Option, none, some, List, [], ◌∷◌, arith,
}
use text.Mathlib.TextEquality.{eq_iff}
use ultranix_mcp.Prelude.Dict.{Dict, is_some}
use ultranix_mcp.Json.{Members}
use ultranix_mcp.Security.Policy.{Policy, Role, allows, resolve, readonly_allowlist}
use ultranix_mcp.Tools.Catalog.{
  catalog, category_in, category_of, label_in, metric_label, category_gate, list_tools,
  list_tools_for, in_categories, destructive_tools, is_close, is_destructive,
}

contains-retain :
    (p : String → Bool) (xs : List String) (t : String)
    → contains (retain p xs) t ≡ (contains xs t && p t)
contains-retain p [] t = refl
contains-retain p (x ∷ xs) t = elim (Bool-cases (x == t)) [
  | inl e ↦ let same : x ≡ t = (eq_iff x t).0 e in ground (arith, contains-retain p xs t)
  | inr e ↦ ground (arith, contains-retain p xs t)
]

-- Under a category filter and a policy, a tool that has a category is advertised to a caller
-- exactly when it is defined, the category filter does not shut it out, and the caller's role
-- allows it.
pub list_tools_for_iff :
    (all enabled : List String) (policy : Policy) (key_id : Option String) (tool category : String)
    → category_of tool ≡ some category
    → (contains (list_tools_for all (some enabled) (some policy) key_id) tool ≡ true) ↔ (
        (contains all tool ≡ true)
        × (category_gate tool (some enabled) ≡ none)
        × (allows (resolve policy key_id) tool ≡ true))
unfolding list_tools_for list_tools category_gate
list_tools_for_iff all enabled policy key_id tool category h = ground (
  arith,
  h,
  contains-retain (λ t. allows (resolve policy key_id) t)
      (retain (λ t. in_categories (category_of t) enabled) all) tool,
  contains-retain (λ t. in_categories (category_of t) enabled) all tool,
)

find-name :
    (names : List String) (name : String)
    → find (λ n. n == name) names ≡ (if contains names name then some name else none)
find-name [] name = refl
find-name (n ∷ names) name = elim (Bool-cases (n == name)) [
  | inl e ↦ let same : n ≡ name = (eq_iff n name).0 e in ground (arith, find-name names name)
  | inr e ↦ ground (arith, find-name names name)
]

label-category :
    (cat : Dict (List String)) (name : String)
    → label_in cat name ≡ (if is_some (category_in cat name) then some name else none)
unfolding label_in category_in
label-category [] name = refl
label-category ((c, names) ∷ rest) name =
    ground (arith, find-name names name, label-category rest name)

-- A metric label is the tool's own name when the catalog has it and the one label `__unknown__`
-- otherwise, so the number of metric series is bounded by the catalog.
pub metric_label_iff :
    (name : String)
    → ((metric_label name ≡ name) × (c : String) × (category_of name ≡ some c))
      ⊎ ((metric_label name ≡ "__unknown__") × (category_of name ≡ none))
unfolding metric_label category_of
metric_label_iff name = elim (Option-cases (category_in catalog name)) [
  | inl e ↦ inr (ground (arith, label-category catalog name), e)
  | inr (c, e) ↦ inl (ground (arith, label-category catalog name), c, e)
]

contains_all :
    (xs : List String) (P : String → Bool) (t : String)
    → all P xs ≡ true
    → contains xs t ≡ true
    → P t ≡ true
contains_all [] P t h k = cc
contains_all (x ∷ xs) P t h k = elim (Bool-cases (x == t)) [
  | inl e ↦ subst (λ y. P y ≡ true) ((eq_iff x t).0 e) (and-eq-true _ _ h).0
  | inr e ↦ contains_all xs P t (and-eq-true _ _ h).1 (ground arith)
]

-- The preset has no destructive tool.
not_preset_tool :
    (name : String)
    → contains destructive_tools name ≡ true
    → contains readonly_allowlist name ≡ false
unfolding readonly_allowlist
not_preset_tool name h = elim (Bool-cases (contains readonly_allowlist name)) [
  | inl e ↦
      cc (contains_all destructive_tools (λ t. not (contains readonly_allowlist t)) name (refl) h)
  | inr e ↦ e
]

or-eq-true : (a b : Bool) → (a || b) ≡ true → (a ≡ true) ⊎ (b ≡ true)
or-eq-true true b h = inl refl
or-eq-true false b h = inr h

not_preset :
    (name : String) (args : Members)
    → is_destructive name args ≡ true
    → contains readonly_allowlist name ≡ false
unfolding is_destructive is_close readonly_allowlist
not_preset name args h = elim (or-eq-true (contains destructive_tools name) _ h) [
  | inl e ↦ not_preset_tool name e
  | inr e ↦
      subst (λ n. contains readonly_allowlist n ≡ false)
        (sym ((eq_iff name "window_control").0 (and-eq-true _ _ e).0)) refl
]

-- Under a read-only role without a list of its own, no destructive call is allowed.
pub readonly_excludes_destructive :
    (role : Role) (name : String) (args : Members)
    → role.readonly ≡ true
    → role.allow_tools ≡ none
    → is_destructive name args ≡ true
    → allows role name ≡ false
unfolding allows
readonly_excludes_destructive role name args readonly no_list destructive =
    ground (arith, not_preset name args destructive)
