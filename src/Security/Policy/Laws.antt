-- ===== src/Security/Policy/Laws.antt =====
-- What a policy that loads guarantees.
use ultranix_mcp.Prelude.{
  ◌==◌, nat_eq, string_eq, Bool-cases, Option-cases, is_empty, retain, contains, Result, ok, err,
  >>=-eq-ok, String, ◌≡◌, refl, ◌↔◌, ◌⊎◌, inl, inr, Bool, true, false, not, ◌||◌, Option, none,
  some, List, [], ◌∷◌, ◌++◌, arith,
}
use ultranix_mcp.Prelude.Dict.{Dict, lookup, is_some}
use ultranix_mcp.Security.Policy.{
  Role, Policy, default_policy, readonly_allowlist, allows, is_listed, resolve, extended,
  override_allow, dangling, validate, with_cli, load_or_default, from_file_and_cli, unreadable,
}

contains-append :
    (xs ys : List String) (t : String) → contains (xs ++ ys) t ≡ (contains xs t || contains ys t)
contains-append [] ys t = refl
contains-append (x ∷ xs) ys t = ground (arith, contains-append xs ys t)

contains_none : (xs : List String) (t : String) → is_empty xs ≡ true → contains xs t ≡ false
contains_none [] t h = refl
contains_none (x ∷ xs) t h = cc

-- An entry of a map whose bad entries are none is good.
lookup-is_some :
    (roles : Dict Role) (keys : Dict String) (id name : String)
    → is_empty (retain (λ kr. not (is_some (lookup kr.1 roles))) keys) ≡ true
    → lookup id keys ≡ some name
    → (r : Role) × (lookup name roles ≡ some r)
unfolding lookup
lookup-is_some roles [] id name h e = cc
lookup-is_some roles ((k, v) ∷ keys) id name h e = elim (Option-cases (lookup v roles)) [
  | inl missing ↦ let bad : ⊥ = ground arith in absurd bad
  | inr (r, found) ↦ elim (Bool-cases (k == id)) [
    | inl here ↦ (r, ground arith)
    | inr there ↦ lookup-is_some roles keys id name (ground arith) (ground arith)
  ]
]

validate_sound : (p : Policy) → validate p ≡ ok tt → is_empty (dangling p) ≡ true
unfolding validate
validate_sound p h = ground arith

module _ (load : String → Result String Policy) (file : Option String) (readonly : Bool)
    (allow deny : List String) where
  from_file_and_cli-eq_ok :
      {p : Policy} → from_file_and_cli load file readonly allow deny ≡ ok p → validate p ≡ ok tt
  unfolding from_file_and_cli
  from_file_and_cli-eq_ok {p} h =
      let (q, loaded, rest) = >>=-eq-ok (load_or_default load file) _ h in
      let (u, valid, same) = >>=-eq-ok (validate (with_cli readonly allow deny q)) _ rest in cc

  -- In a policy that loads, every mapped key has a defined role, and its callers get that role: a
  -- mistyped role name never falls back to the default role.
  pub from_file_and_cli-resolve :
      (p : Policy) (id name : String)
      → from_file_and_cli load file readonly allow deny ≡ ok p
      → lookup id p.keys ≡ some name
      → (r : Role) × (lookup name p.roles ≡ some r) × (resolve p (some id) ≡ r)
  unfolding resolve
  from_file_and_cli-resolve p id name h e =
      let (r, found) =
        lookup-is_some p.roles p.keys id name
          (unfold dangling in validate_sound p (from_file_and_cli-eq_ok h)) e in
      (r, found, rw (e, found))

-- A file that was named and cannot be read or parsed fails the load, whatever the overrides say.
-- Without a file the default policy is what the overrides change.
pub from_file_and_cli_fails_closed :
    (load : String → Result String Policy) (path : String) (readonly : Bool)
    (allow deny : List String) (e : String)
    → load path ≡ err e
    → (from_file_and_cli load (some path) readonly allow deny ≡ err (unreadable e))
      × (from_file_and_cli load none readonly allow deny
          ≡ ok (with_cli readonly allow deny default_policy))
unfolding from_file_and_cli validate with_cli
from_file_and_cli_fails_closed load path readonly allow deny e h = (ground arith, refl)

-- The allow list that the overrides leave, under `--readonly`.
module _ (allow : List String) (r : Role) (tool : String) where
  override_allow_fields :
      ((override_allow true allow r).deny_tools ≡ r.deny_tools)
      × ((override_allow true allow r).readonly ≡ r.readonly)
  unfolding override_allow
  override_allow_fields = ground arith

  listed_or :
      (o : Option (List String))
      → is_listed (some (extended o allow)) tool ≡ (is_listed o tool || contains allow tool)
  listed_or none = refl
  listed_or (some old) = contains-append old allow tool

  listed-override :
      is_listed (override_allow true allow r).allow_tools tool
      ≡ (is_listed r.allow_tools tool || contains allow tool)
  unfolding override_allow
  listed-override = elim (Bool-cases (is_empty allow)) [
    | inl e ↦ rw e (rw (contains_none allow tool e) (ground arith))
    | inr e ↦ rw e (listed_or r.allow_tools)
  ]

-- Under `--readonly` the callers of the default role get exactly the tools that neither the file nor
-- the command line denies, and that stand in the preset, in `--allow-tools`, or in the file's own
-- list.
pub readonly-allows_iff :
    (p : Policy) (allow deny : List String) (tool : String)
    → (allows (resolve (with_cli true allow deny p) none) tool ≡ true) ↔ (
        (contains p.default_role.deny_tools tool ≡ false)
        × (contains deny tool ≡ false)
        × ((contains readonly_allowlist tool ≡ true)
            ⊎ (contains allow tool ≡ true)
            ⊎ (is_listed p.default_role.allow_tools tool ≡ true)))
unfolding resolve with_cli allows
readonly-allows_iff p allow deny tool =
    let r : Role = record p.default_role { readonly = true } in
    ground (
      arith,
      override_allow_fields allow r tool,
      listed-override allow r tool,
      contains-append (override_allow true allow r).deny_tools deny tool,
    )
