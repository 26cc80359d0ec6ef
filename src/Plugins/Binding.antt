-- ===== src/Plugins/Binding.antt =====
-- src/plugins.rs `bind_params`: the parameters of a call against the manifest's.
use ultranix_mcp.Prelude.{
  nat_eq, string_eq, All, Result, ok, ◌>>=◌, ◌>>◌, ok_or, ensure, >>=-eq-ok, >>-eq-ok, ok_or-eq-ok,
  ok_injective, String, ◌≡◌, refl, subst, Bool, true, not, ◌&&◌, some, [], ◌∷◌, arith,
}
use ultranix_mcp.Prelude.Dict.{Dict, lookup, is_some, insert_ordered, All-insert_ordered}
use ultranix_mcp.Json.{
  Value, null, boolean, number, string, array, object, is_string, is_number, is_boolean,
}
use ultranix_mcp.Plugins.Template.{ParamError, unknown, wrong_type, missing}
use ultranix_mcp.Plugins.Manifest.{
  ParamType, string_type, number_type, boolean_type, ParamSpec, type_name, accepts,
}

-- What the loop over the supplied parameters adds to those bound.
unfoldable pub bind_supplied :
    Dict ParamSpec → Dict Value → Dict Value → Result ParamError (Dict Value)
bind_supplied params bound [] = ok bound
bind_supplied params bound ((name, value) ∷ supplied) =
    ok_or (lookup name params) (unknown name) >>= λ spec.
    (ensure (accepts spec.ty value) (wrong_type name (type_name spec.ty))
      >> bind_supplied params (insert_ordered name value bound) supplied)

unfoldable pub check_required : Dict ParamSpec → Dict Value → Result ParamError (Unit {0})
check_required [] bound = ok tt
check_required ((name, spec) ∷ params) bound =
    ensure (not (spec.required && not (is_some (lookup name bound)))) (missing name)
    >> check_required params bound

unfoldable pub bind_params : Dict ParamSpec → Dict Value → Result ParamError (Dict Value)
unfolding bind_supplied check_required
bind_params params supplied = do
  bound ← bind_supplied params [] supplied
  check_required params bound
  ok bound

-- The JSON values of a declared type.
abbrev pub IsOf : ParamType → Value → Type 0
IsOf string_type v = (text : String) × (v ≡ string text)
IsOf number_type v = (digits : String) × (v ≡ number digits)
IsOf boolean_type v = (b : Bool) × (v ≡ boolean b)

string-IsOf : (v : Value) → is_string v ≡ true → IsOf string_type v
string-IsOf (string s) h = (s, refl)
string-IsOf null h = cc
string-IsOf (boolean b) h = cc
string-IsOf (number d) h = cc
string-IsOf (array vs) h = cc
string-IsOf (object ms) h = cc

number-IsOf : (v : Value) → is_number v ≡ true → IsOf number_type v
number-IsOf (number d) h = (d, refl)
number-IsOf null h = cc
number-IsOf (boolean b) h = cc
number-IsOf (string s) h = cc
number-IsOf (array vs) h = cc
number-IsOf (object ms) h = cc

boolean-IsOf : (v : Value) → is_boolean v ≡ true → IsOf boolean_type v
boolean-IsOf (boolean b) h = (b, refl)
boolean-IsOf null h = cc
boolean-IsOf (number d) h = cc
boolean-IsOf (string s) h = cc
boolean-IsOf (array vs) h = cc
boolean-IsOf (object ms) h = cc

accepts-IsOf : (ty : ParamType) (v : Value) → accepts ty v ≡ true → IsOf ty v
accepts-IsOf string_type v h = string-IsOf v h
accepts-IsOf number_type v h = number-IsOf v h
accepts-IsOf boolean_type v h = boolean-IsOf v h

-- A bound value has the type that its declaration asks for.
abbrev pub IsTyped : Dict ParamSpec → String × Value → Type 0
IsTyped params (name, value) =
    (spec : ParamSpec) × (lookup name params ≡ some spec) × IsOf spec.ty value

abbrev pub IsSupplied : Dict Value → String × ParamSpec → Type 0
IsSupplied bound (name, spec) = spec.required ≡ true → is_some (lookup name bound) ≡ true

bind_supplied-IsTyped :
    (params : Dict ParamSpec) (bound supplied : Dict Value) {out : Dict Value}
    → All (IsTyped params) bound
    → bind_supplied params bound supplied ≡ ok out
    → All (IsTyped params) out
unfolding bind_supplied
bind_supplied-IsTyped params bound [] h e = subst (All (IsTyped params)) (ok_injective e) h
bind_supplied-IsTyped params bound ((name, value) ∷ supplied) h e =
    let (spec, found, e₁) = >>=-eq-ok (ok_or (lookup name params) (unknown name)) _ e in
    let (typed, e₂) = >>-eq-ok _ _ _ e₁ in
    bind_supplied-IsTyped params (insert_ordered name value bound) supplied
      (All-insert_ordered (IsTyped params) name value bound
        (
          spec,
          ok_or-eq-ok (lookup name params) (unknown name) found,
          accepts-IsOf spec.ty value typed,
        )
        h)
      e₂

supplied_if :
    (is_bound is_required : Bool)
    → not (is_required && not is_bound) ≡ true
    → is_required ≡ true
    → is_bound ≡ true
supplied_if is_bound is_required h r = ground arith

check_required-All :
    (params : Dict ParamSpec) (bound : Dict Value)
    → check_required params bound ≡ ok tt
    → All (IsSupplied bound) params
unfolding check_required
check_required-All [] bound h = tt
check_required-All ((name, spec) ∷ params) bound h =
    let (here, rest) = >>-eq-ok _ _ _ h in
    (
      supplied_if (is_some (lookup name bound)) spec.required here,
      check_required-All params bound rest,
    )

-- The values that a call binds are declared and of the declared types, and every required parameter
-- has one.
pub bind_params_sound :
    (params : Dict ParamSpec) (supplied bound : Dict Value)
    → bind_params params supplied ≡ ok bound
    → All (IsTyped params) bound × All (IsSupplied bound) params
unfolding bind_params
bind_params_sound params supplied bound h =
    let (out, bind, h₁) = >>=-eq-ok (bind_supplied params [] supplied) _ h in
    let (u, required, same) = >>=-eq-ok (check_required params out) _ h₁ in
    let eq = ok_injective same in
    (
      subst (All (IsTyped params)) eq (bind_supplied-IsTyped params [] supplied tt bind),
      check_required-All params bound (subst (λ b. check_required params b ≡ ok tt) eq required),
    )
