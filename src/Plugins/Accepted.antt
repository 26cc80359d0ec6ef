-- ===== src/Plugins/Accepted.antt =====
-- What a manifest that passes validation guarantees.
use ultranix_mcp.Prelude.{
  leb→le, ◌==◌, nat_eq, string_eq, length, is_empty, All, Result, ok, err, >>=-eq-ok, >>-eq-ok,
  ok_injective, ℕ, suc, ◌≤◌, String, ◌≡◌, ap, subst, Bool, true, false, not, Option, none, some,
  List, [], ◌∷◌, arith,
}
use ultranix_mcp.Prelude.Texts.{starts_with}
use ultranix_mcp.Prelude.Dict.{Dict, lookup, is_some, insert_ordered, All-insert_ordered}
use ultranix_mcp.Prelude.Texts.{char_count}
use ultranix_mcp.Tools.Catalog.{category_of}
use ultranix_mcp.Plugins.Grammar.{valid_plugin_name, valid_param_name, valid_version}
use ultranix_mcp.Plugins.Template.{TemplateError, collect_members}
use ultranix_mcp.Plugins.Manifest.{
  max_steps, max_params, max_tool_description, ParamSpec, Step, ToolSpec, RawToolSpec,
  PluginManifest, RawManifest, supported_version, check_param_names, add_params, validate_tool,
  tool_section, refs_at, check_refs, check_step, check_steps, validate,
}

-- A step calls a tool of the catalog that re-enters no dispatch, and refers to declared parameters.
pub record IsStep (params : Dict ParamSpec) (step : Step) : Type 0 where
  pub no_plugin : starts_with "plugin_" step.tool ≡ false
  pub no_replay : (step.tool == "replay_action") ≡ false
  pub catalogued : is_some (category_of step.tool) ≡ true
  pub refs : List String
  pub collected : collect_members step.args ≡ ok refs
  pub declared : All (λ name. is_some (lookup name params) ≡ true) refs

refuted : (b : Bool) → not b ≡ true → b ≡ false
refuted b h = ground arith

check_refs-All :
    (params : Dict ParamSpec) (index : ℕ) (refs : List String)
    → check_refs params index refs ≡ ok tt
    → All (λ name. is_some (lookup name params) ≡ true) refs
unfolding check_refs
check_refs-All params index [] h = tt
check_refs-All params index (name ∷ names) h =
    let (here, rest) = >>-eq-ok _ _ _ h in (here, check_refs-All params index names rest)

refs_at-eq-ok :
    (index : ℕ) (r : Result TemplateError (List String)) {refs : List String}
    → refs_at index r ≡ ok refs
    → r ≡ ok refs
refs_at-eq-ok index (ok refs) h = cc
refs_at-eq-ok index (err e) h = cc

check_step-IsStep :
    (params : Dict ParamSpec) (index : ℕ) (step : Step)
    → check_step params index step ≡ ok tt
    → IsStep params step
unfolding check_step
check_step-IsStep params index step h =
    let (free, h₁) = >>-eq-ok _ _ _ h in
    let (fresh, h₂) = >>-eq-ok _ _ _ h₁ in
    let (known, h₃) = >>-eq-ok _ _ _ h₂ in
    let (refs, found, h₄) = >>=-eq-ok (refs_at index (collect_members step.args)) _ h₃ in
    record {
      no_plugin = refuted _ free;
      no_replay = refuted _ fresh;
      catalogued = known;
      refs = refs;
      collected = refs_at-eq-ok index _ found;
      declared = check_refs-All params index refs h₄;
    }

check_steps-All :
    (params : Dict ParamSpec) (index : ℕ) (steps : List Step)
    → check_steps params index steps ≡ ok tt
    → All (IsStep params) steps
unfolding check_steps
check_steps-All params index [] h = tt
check_steps-All params index (step ∷ steps) h =
    let (u, here, rest) = >>=-eq-ok (check_step params index step) _ h in
    (check_step-IsStep params index step here, check_steps-All params (suc index) steps rest)

abbrev pub IsNamed : String × ParamSpec → Type 0
IsNamed (name, spec) = valid_param_name name ≡ true

check_param_names-All :
    (params : Dict ParamSpec) → check_param_names params ≡ ok tt → All IsNamed params
unfolding check_param_names
check_param_names-All [] h = tt
check_param_names-All ((name, spec) ∷ params) h =
    let (here, rest) = >>-eq-ok _ _ _ h in (here, check_param_names-All params rest)

add_params-All :
    (params extra : Dict ParamSpec) {merged : Dict ParamSpec}
    → All IsNamed params
    → add_params params extra ≡ ok merged
    → All IsNamed merged
unfolding add_params
add_params-All params [] {merged} h e = subst (All IsNamed) (ok_injective e) h
add_params-All params ((name, spec) ∷ extra) h e =
    let (valid, e₁) = >>-eq-ok _ _ _ e in
    let (fresh, e₂) = >>-eq-ok _ _ _ e₁ in
    add_params-All (insert_ordered name spec params) extra
      (All-insert_ordered IsNamed name spec params valid h) e₂

-- The entry that a manifest adds to the list of tools.
abbrev pub IsTool : Option ToolSpec → Type 0
IsTool none = Unit
IsTool (some t) =
    (valid_param_name t.name ≡ true)
    × (is_some (category_of t.name) ≡ false)
    × (char_count t.description ≤ max_tool_description)

tool_section-IsTool :
    (raw : Option RawToolSpec) (params : Dict ParamSpec) {tool : Option ToolSpec}
    {merged : Dict ParamSpec}
    → All IsNamed params
    → tool_section raw params ≡ ok (tool, merged)
    → IsTool tool × All IsNamed merged
unfolding validate_tool
tool_section-IsTool none params {tool} {merged} h e =
    let same = ok_injective e in
    (subst IsTool (ap (λ p. p.0) same) tt, subst (All IsNamed) (ap (λ p. p.1) same) h)
tool_section-IsTool (some raw) params h e =
    let (valid, e₁) = >>-eq-ok _ _ _ e in
    let (fresh, e₂) = >>-eq-ok _ _ _ e₁ in
    let (short, e₃) = >>-eq-ok _ _ _ e₂ in
    let (few, e₄) = >>-eq-ok _ _ _ e₃ in
    let (merged, added, e₅) = >>=-eq-ok (add_params params raw.params) _ e₄ in
    let same = ok_injective e₅ in
    let well : IsTool (some (record { name = raw.name; description = raw.description })) =
      (valid, refuted _ fresh, leb→le _ _ short) in
    (
      subst IsTool (ap (λ p. p.0) same) well,
      subst (All IsNamed) (ap (λ p. p.1) same) (add_params-All params raw.params h added),
    )

-- What every manifest that is run satisfies.
pub record IsValid (m : PluginManifest) : Type 0 where
  pub named : valid_plugin_name m.name ≡ true
  pub no_tool : is_some (category_of m.name) ≡ false
  pub versioned : valid_version m.version ≡ true
  pub param_names : All IsNamed m.params
  pub few_params : length m.params ≤ max_params
  pub some_steps : 1 ≤ length m.steps
  pub few_steps : length m.steps ≤ max_steps
  pub steps_valid : All (IsStep m.params) m.steps
  pub tool_valid : IsTool m.tool

not_empty : {A : Type 0} (xs : List A) → not (is_empty xs) ≡ true → 1 ≤ length xs
not_empty [] h = cc
not_empty (x ∷ xs) h = omega arith

-- A manifest that validation accepts has legal names that collide with no catalog tool, within
-- the limits on parameters and steps, and each of its steps calls a catalog tool other than the
-- `plugin_` tools and `replay_action`, with well-formed templates that refer to declared parameters.
pub validate-IsValid : (raw : RawManifest) (m : PluginManifest) → validate raw ≡ ok m → IsValid m
unfolding validate
validate-IsValid raw m h =
    let (u, supported, h₁) = >>=-eq-ok (supported_version raw.manifest_version) _ h in
    let (named, h₂) = >>-eq-ok _ _ _ h₁ in
    let (free, h₃) = >>-eq-ok _ _ _ h₂ in
    let (versioned, h₄) = >>-eq-ok _ _ _ h₃ in
    let (few, h₅) = >>-eq-ok _ _ _ h₄ in
    let (v, names, h₆) = >>=-eq-ok (check_param_names raw.params) _ h₅ in
    let ((tool, params), section, h₇) = >>=-eq-ok (tool_section raw.tool raw.params) _ h₆ in
    let (few_params, h₈) = >>-eq-ok _ _ _ h₇ in
    let (some_steps, h₉) = >>-eq-ok _ _ _ h₈ in
    let (few_steps, h₁₀) = >>-eq-ok _ _ _ h₉ in
    let (w, steps, same) = >>=-eq-ok (check_steps params 0 raw.steps) _ h₁₀ in
    let (is_tool, named_params) =
      tool_section-IsTool raw.tool raw.params (check_param_names-All raw.params names) section in
    subst IsValid (ok_injective same) (record {
      named = named;
      no_tool = refuted _ free;
      versioned = versioned;
      param_names = named_params;
      few_params = leb→le _ _ few_params;
      some_steps = not_empty raw.steps some_steps;
      few_steps = leb→le _ _ few_steps;
      steps_valid = check_steps-All params 0 raw.steps steps;
      tool_valid = is_tool;
    })
