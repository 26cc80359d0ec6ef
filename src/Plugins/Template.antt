-- ===== src/Plugins/Template.antt =====
-- src/plugins.rs: `${name}` templates, their references and their substitution. The loop over the
-- characters is an automaton with a mode for each place of the source that takes the next character;
-- the mode `broken` stands for the early returns.
use ultranix_mcp.Prelude.{
  nat_beq, if◌then◌else◌, nat_eq, string_eq, ◌⧺◌, Result, ok, err, ok_or, Char, code, String, ◌≡◌,
  refl, Option, none, some, List, [], ◌∷◌, ◌++◌,
}
use ultranix_mcp.Prelude.Texts.{is_empty_text, push_char}
use ultranix_mcp.Prelude.Dict.{Dict, lookup}
use ultranix_mcp.Json.{
  Value, null, boolean, number, string, array, object, Items, no_items, item, Members, no_members,
  member,
}
use ultranix_mcp.Plugins.Grammar.{valid_param_name, valid_name}
use ultranix_mcp.Security.Sanitize.{byte_len}

pub data Segment : Type 0 where
  lit : String → Segment
  ref : String → Segment

pub data TemplateError : Type 0 where
  unclosed : TemplateError
  bad_name : String → TemplateError

pub data Mode : Type 0 where
  -- the literal so far
  plain : String → Mode
  -- after a `$`
  dollar : String → Mode
  -- after a `${`, with the name so far
  naming : String → String → Mode
  broken : TemplateError → Mode

-- A literal is pushed when it is not empty.
abbrev pub flush : String → List Segment → List Segment
flush text segs = if is_empty_text text then segs else lit text ∷ segs

-- $ is 36, { is 123} is 125
abbrev pub next : Mode → Char → Mode
next (plain text) c = if nat_beq (code c) 36 then dollar text else plain (push_char text c)
next (dollar text) c =
    if nat_beq (code c) 36
    then plain (text ⧺ "$")
    else if nat_beq (code c) 123
    then naming text ""
    else plain (push_char (text ⧺ "$") c)
next (naming text name) c =
    if nat_beq (code c) 125
    then (if valid_param_name name then plain "" else broken (bad_name name))
    else naming text (push_char name c)
next (broken e) c = broken e

-- What the source pushes on the segments at this character.
abbrev pub emitted : Mode → Char → List Segment
emitted (naming text name) c =
    if nat_beq (code c) 125
    then (if valid_param_name name then flush text (ref name ∷ []) else [])
    else []
emitted _ c = []

abbrev pub at_end : Mode → Result TemplateError (List Segment)
at_end (plain text) = ok (flush text [])
at_end (dollar text) = ok (flush (text ⧺ "$") [])
at_end (naming text name) = err unclosed
at_end (broken e) = err e

abbrev pub after :
    List Segment → Result TemplateError (List Segment) → Result TemplateError (List Segment)
after segs (ok rest) = ok (segs ++ rest)
after segs (err e) = err e

unfoldable pub parse_from : Mode → String → Result TemplateError (List Segment)
parse_from mode String.[] = at_end mode
parse_from mode (String.◌∷◌ c s) = after (emitted mode c) (parse_from (next mode c) s)

unfoldable pub parse_template : String → Result TemplateError (List Segment)
unfolding parse_from
parse_template s = parse_from (plain "") s

abbrev pub names : List Segment → List String
names [] = []
names (lit text ∷ segs) = names segs
names (ref name ∷ segs) = name ∷ names segs

abbrev pub both :
    Result TemplateError (List String)
    → Result TemplateError (List String)
    → Result TemplateError (List String)
both (err e) r = err e
both (ok xs) (err e) = err e
both (ok xs) (ok ys) = ok (xs ++ ys)

abbrev pub names_of : Result TemplateError (List Segment) → Result TemplateError (List String)
names_of (ok segs) = ok (names segs)
names_of (err e) = err e

-- The references are answered in the order in which the source pushes them.
unfoldable mutual
  pub collect_refs : Value → Result TemplateError (List String)
  collect_refs (string s) = names_of (parse_template s)
  collect_refs (array vs) = collect_items vs
  collect_refs (object ms) = collect_members ms
  collect_refs null = ok []
  collect_refs (boolean b) = ok []
  collect_refs (number n) = ok []

  pub collect_items : Items → Result TemplateError (List String)
  collect_items no_items = ok []
  collect_items (item v vs) = both (collect_refs v) (collect_items vs)

  pub collect_members : Members → Result TemplateError (List String)
  collect_members no_members = ok []
  collect_members (member k v ms) = both (collect_refs v) (collect_members ms)

pub data ParamError : Type 0 where
  missing : String → ParamError
  unknown : String → ParamError
  wrong_type : String → String → ParamError
  unsupplied : String → ParamError
  template : TemplateError → ParamError

abbrev pub with_lit : String → Result ParamError String → Result ParamError String
with_lit text (ok s) = ok (text ⧺ s)
with_lit text (err e) = err e

abbrev pub as_string : Result ParamError String → Result ParamError Value
as_string (ok s) = ok (string s)
as_string (err e) = err e

abbrev pub cons_item : Result ParamError Value → Result ParamError Items → Result ParamError Items
cons_item (err e) r = err e
cons_item (ok v) (err e) = err e
cons_item (ok v) (ok vs) = ok (item v vs)

abbrev pub cons_member :
    String → Result ParamError Value → Result ParamError Members → Result ParamError Members
cons_member k (err e) r = err e
cons_member k (ok v) (err e) = err e
cons_member k (ok v) (ok ms) = ok (member k v ms)

abbrev pub as_array : Result ParamError Items → Result ParamError Value
as_array (ok vs) = ok (array vs)
as_array (err e) = err e

abbrev pub as_object : Result ParamError Members → Result ParamError Value
as_object (ok ms) = ok (object ms)
as_object (err e) = err e

-- `to_json` is `Value::to_string`, serde_json's printer.
module _ (to_json : Value → String) where
  abbrev pub text_form : Value → String
  text_form (string s) = s
  text_form v = to_json v

  abbrev pub with_text : Option Value → String → Result ParamError String → Result ParamError String
  with_text none name rest = err (unsupplied name)
  with_text (some v) name (ok s) = ok (text_form v ⧺ s)
  with_text (some v) name (err e) = err e

  unfoldable pub render : Dict Value → List Segment → Result ParamError String
  render bound [] = ok ""
  render bound (lit text ∷ segs) = with_lit text (render bound segs)
  render bound (ref name ∷ segs) = with_text (lookup name bound) name (render bound segs)

  -- A string that is one reference keeps the type of the value.
  unfoldable pub substitute_segments : Dict Value → List Segment → Result ParamError Value
  unfolding render
  substitute_segments bound (ref name ∷ []) = ok_or (lookup name bound) (unsupplied name)
  substitute_segments bound segs = as_string (render bound segs)

  abbrev pub substitute_parsed :
      Dict Value → Result TemplateError (List Segment) → Result ParamError Value
  substitute_parsed bound (ok segs) = substitute_segments bound segs
  substitute_parsed bound (err e) = err (template e)

  unfoldable mutual
    pub substitute_value : Dict Value → Value → Result ParamError Value
    substitute_value bound (string s) = substitute_parsed bound (parse_template s)
    substitute_value bound (array vs) = as_array (substitute_items bound vs)
    substitute_value bound (object ms) = as_object (substitute_args bound ms)
    substitute_value bound null = ok null
    substitute_value bound (boolean b) = ok (boolean b)
    substitute_value bound (number n) = ok (number n)

    pub substitute_items : Dict Value → Items → Result ParamError Items
    substitute_items bound no_items = ok no_items
    substitute_items bound (item v vs) =
        cons_item (substitute_value bound v) (substitute_items bound vs)

    pub substitute_args : Dict Value → Members → Result ParamError Members
    substitute_args bound no_members = ok no_members
    substitute_args bound (member k v ms) =
        cons_member k (substitute_value bound v) (substitute_args bound ms)

template_test :
    (parse_template "a $${x} ${y}$" ≡ ok (lit "a ${x} " ∷ ref "y" ∷ lit "$" ∷ []))
    × (parse_template "${x" ≡ err unclosed)
    × (parse_template "${X}" ≡ err (bad_name "X"))
unfolding parse_template valid_param_name valid_name byte_len
template_test = (refl, refl, refl)
