-- ===== src/Security/Policy.antt =====
-- src/security/policy.rs: roles, the policy file with the command-line overrides, and the preset of
-- tools for read-only roles. Sets are lists read by `contains`. The warnings that `validate` logs
-- change nothing and are left out.
pub mod Laws
use ultranix_mcp.Prelude.{
  ltb, leb, nat_beq, nat_beq_iff, if◌then◌else◌, ltb→lt, leb→le, Equality, ◌==◌, nat_eq, string_eq,
  option_beq, option_beq_iff, Bool-cases, Option-cases, and-eq-true, length, get_elem?, take, drop,
  is_empty, retain, any, all, find, length-append, length-retain-le, length-take, length-drop,
  drop-append, take_prefix, drop_prefix, contains, All, All-append, All-drop, All-retain, All-map,
  Result, ok, err, ◌>>=◌, ◌>>◌, ok_or, ensure, to_option, is_ok, Result-cases, >>=-eq-ok, ℕ, zero,
  suc, ◌+◌, ◌-◌, ◌*◌, ◌/◌, ◌%◌, ◌^◌, ◌≤◌, ◌<◌, min, max, Char, code, String, ◌≡◌, refl, sym, ap,
  ◌∙◌, ◌≡⟨◌⟩◌, ◌∎, subst, ◌≢◌, ◌↔◌, ◌⊎◌, inl, inr, Bool, true, false, not, ◌&&◌, ◌||◌, Option, none,
  some, List, [], ◌∷◌, ◌++◌, map, reverse, foldl, arith,
}
use ultranix_mcp.Prelude.Dict.{Dict, lookup, is_some}

pub record Role : Type 0 where
  pub readonly : Bool
  pub allow_tools : Option (List String)
  pub deny_tools : List String

pub record Policy : Type 0 where
  pub default_role : Role
  pub roles : Dict Role
  pub keys : Dict String

abbrev pub default_role : Role
default_role = record { readonly = false; allow_tools = none; deny_tools = [] }

abbrev pub default_policy : Policy
default_policy = record { default_role = default_role; roles = []; keys = [] }

unfoldable pub readonly_allowlist : List String
readonly_allowlist =
    "screenshot" ∷ "screen_info" ∷ "color_at" ∷ "get_ui_tree" ∷ "get_focused_element"
    ∷ "find_element" ∷ "find_text_on_screen" ∷ "find_icon" ∷ "wait_for_ui_element" ∷ "sleep"
    ∷ "mouse_get_position" ∷ "get_windows" ∷ "get_active_window" ∷ "metrics" ∷ "plugin_list" ∷ []

-- `is_some_and(|allowed| allowed.contains(tool))`
abbrev pub is_listed : Option (List String) → String → Bool
is_listed none tool = false
is_listed (some allowed) tool = contains allowed tool

-- `is_none_or(|allowed| allowed.contains(tool))`
abbrev pub is_unlisted_or_listed : Option (List String) → String → Bool
is_unlisted_or_listed none tool = true
is_unlisted_or_listed (some allowed) tool = contains allowed tool

unfoldable pub allows : Role → String → Bool
allows role tool =
    if contains role.deny_tools tool
    then false
    else if role.readonly
    then contains readonly_allowlist tool || is_listed role.allow_tools tool
    else is_unlisted_or_listed role.allow_tools tool

-- `keys.get(id).and_then(|role| roles.get(role)).unwrap_or(&default_role)`
abbrev pub role_or : Option Role → Role → Role
role_or none d = d
role_or (some r) d = r

abbrev pub named_role : Dict Role → Option String → Option Role
named_role roles none = none
named_role roles (some name) = lookup name roles

unfoldable pub resolve : Policy → Option String → Role
resolve p none = p.default_role
resolve p (some id) = role_or (named_role p.roles (lookup id p.keys)) p.default_role

pub data PolicyError : Type 0 where
  unreadable : String → PolicyError
  undefined_roles : Dict String → PolicyError

-- The `keys` entries whose role is not defined.
unfoldable pub dangling : Policy → Dict String
dangling p = retain (λ kr. not (is_some (lookup kr.1 p.roles))) p.keys

unfoldable pub validate : Policy → Result PolicyError (Unit {0})
unfolding dangling
validate p = ensure (is_empty (dangling p)) (undefined_roles (dangling p))

-- `get_or_insert_with(HashSet::new).extend(allow)`
abbrev extended : Option (List String) → List String → List String
extended none allow = allow
extended (some old) allow = old ++ allow

unfoldable pub override_readonly : Bool → Role → Role
override_readonly readonly r = if readonly then record r { readonly = true } else r

unfoldable pub override_allow : Bool → List String → Role → Role
override_allow readonly allow r =
    if is_empty allow
    then r
    else if readonly
    then record r { allow_tools = some (extended r.allow_tools allow) }
    else record r { allow_tools = some allow }

unfoldable pub override_deny : List String → Role → Role
override_deny deny r = record r { deny_tools = r.deny_tools ++ deny }

-- The command line's overrides of the default role, in the order of the source.
unfoldable pub with_cli : Bool → List String → List String → Policy → Policy
unfolding override_readonly override_allow override_deny
with_cli readonly allow deny p = record p {
  default_role =
      override_deny deny
        (override_allow readonly allow (override_readonly readonly p.default_role));
}

-- Reading the file and parsing its TOML are the standard library's and the `toml` crate's: `load`
-- answers the policy of a path, or why there is none.
module _ (load : String → Result String Policy) where
  unfoldable pub load_or_default : Option String → Result PolicyError Policy
  load_or_default none = ok default_policy
  load_or_default (some path) = elim (load path) [ ok p ↦ ok p | err e ↦ err (unreadable e) ]

  unfoldable pub from_file_and_cli :
      Option String → Bool → List String → List String → Result PolicyError Policy
  unfolding load_or_default
  from_file_and_cli file readonly allow deny = do
    p ← load_or_default file
    validate (with_cli readonly allow deny p)
    ok (with_cli readonly allow deny p)
