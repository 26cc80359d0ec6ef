-- ===== src/Plugins/Escapes.antt =====
-- How segments print as templates, and what parsing them again gives.
use ultranix_mcp.Prelude.{
  nat_beq, nat_beq_iff, if◌then◌else◌, nat_eq, string_eq, Bool-cases, and-eq-true, All, ◌⧺◌, Result,
  ok, err, ℕ, Char, code, String, ◌≡◌, refl, sym, ap, ◌∙◌, inl, inr, true, false, List, [], ◌∷◌,
  ◌++◌, arith,
}
use ultranix_mcp.Prelude.Texts.{
  all_chars, push_char, code_injective, text_laws, nil-append, cons-append,
}
use ultranix_mcp.Plugins.Grammar.{valid_param_name, valid_name, is_name_char}
use ultranix_mcp.Plugins.Template.{
  Segment, lit, ref, plain, dollar, naming, after, flush, parse_from, parse_template,
}

-- Every `$` is doubled.
unfoldable pub escape : String → String
escape String.[] = ""
escape (String.◌∷◌ c s) =
    let rest = escape s in
    if nat_beq (code c) 36 then String.◌∷◌ c (String.◌∷◌ c rest) else String.◌∷◌ c rest

-- The template that an author writes for a list of segments.
unfoldable pub print : List Segment → String
unfolding escape
print [] = ""
print (lit text ∷ segs) = escape text ⧺ print segs
print (ref name ∷ segs) = "${" ⧺ (name ⧺ ("}" ⧺ print segs))

after_none : (r : Result _ (List Segment)) → after [] r ≡ r
after_none (ok segs) = refl
after_none (err e) = refl

pub push_char-append : (s : String) (c : Char) (t : String) → push_char s c ⧺ t ≡ s ⧺ String.◌∷◌ c t
push_char-append s c t = simp text_laws

-- The moves of the automaton.
module _ (text : String) (c : Char) (s : String) where
  plain-dollar :
      nat_beq (code c) 36 ≡ true
      → parse_from (plain text) (String.◌∷◌ c s) ≡ parse_from (dollar text) s
  unfolding parse_from
  plain-dollar e = rw (e, after_none) refl

  plain-plain :
      nat_beq (code c) 36 ≡ false
      → parse_from (plain text) (String.◌∷◌ c s) ≡ parse_from (plain (push_char text c)) s
  unfolding parse_from
  plain-plain e = rw (e, after_none) refl

  dollar-plain :
      nat_beq (code c) 36 ≡ true
      → parse_from (dollar text) (String.◌∷◌ c s) ≡ parse_from (plain (push_char text c)) s
  unfolding parse_from
  dollar-plain e =
      rw (e, after_none)
        (ap (λ d. parse_from (plain (text ⧺ String.◌∷◌ d "")) s)
          (sym (code_injective c "$" ((nat_beq_iff (code c) 36).0 e))))

-- An escaped text adds itself to the literal.
parse_from-escape :
    (text s rest : String)
    → parse_from (plain text) (escape s ⧺ rest) ≡ parse_from (plain (text ⧺ s)) rest
unfolding escape
parse_from-escape text String.[] rest = simp text_laws
parse_from-escape text (String.◌∷◌ c s) rest = elim (Bool-cases (nat_beq (code c) 36)) [
  | inl e ↦ rw e (
      rw
        (
          cons-append,
          cons-append,
          plain-dollar text c _ e,
          dollar-plain text c _ e,
          parse_from-escape (push_char text c) s rest,
          push_char-append,
        )
        refl)
  | inr e ↦ rw e (
      rw
        (
          cons-append,
          plain-plain text c _ e,
          parse_from-escape (push_char text c) s rest,
          push_char-append,
        )
        refl)
]

name_char-open : (n : ℕ) → is_name_char 95 n ≡ true → nat_beq n 125 ≡ false
name_char-open n h = ground arith

naming-name :
    (text acc : String) (c : Char) (s : String)
    → nat_beq (code c) 125 ≡ false
    → parse_from (naming text acc) (String.◌∷◌ c s) ≡ parse_from (naming text (push_char acc c)) s
unfolding parse_from
naming-name text acc c s e = rw (e, after_none) refl

-- The characters of a name add themselves to the name.
parse_from-name :
    (text acc s rest : String)
    → all_chars (is_name_char 95) s ≡ true
    → parse_from (naming text acc) (s ⧺ rest) ≡ parse_from (naming text (acc ⧺ s)) rest
parse_from-name text acc String.[] rest h = simp text_laws
parse_from-name text acc (String.◌∷◌ c s) rest h =
    let (here, there) = and-eq-true _ _ h in
    rw
      (
        cons-append,
        naming-name text acc c _ (name_char-open (code c) here),
        parse_from-name text (push_char acc c) s rest there,
        push_char-append,
      )
      refl

valid_param_name-chars :
    (s : String) → valid_param_name s ≡ true → all_chars (is_name_char 95) s ≡ true
unfolding valid_param_name valid_name
valid_param_name-chars String.[] h = cc
valid_param_name-chars (String.◌∷◌ c s) h = ground arith

opening :
    (text rest : String) → parse_from (plain text) ("${" ⧺ rest) ≡ parse_from (naming text "") rest
unfolding parse_from
opening text rest =
    ap (parse_from (plain text))
      (cons-append "$" "{" rest ∙ ap (λ s. String.◌∷◌ "$" s) (cons-append "{" "" rest))
    ∙ rw (nil-append, after_none, after_none) refl

closing :
    (text name rest : String)
    → valid_param_name name ≡ true
    → parse_from (naming text name) ("}" ⧺ rest)
      ≡ after (flush text (ref name ∷ [])) (parse_from (plain "") rest)
unfolding parse_from
closing text name rest h =
    ap (parse_from (naming text name)) (cons-append "}" "" rest) ∙ rw (nil-append, h) refl

-- A placeholder with a legal name ends the literal and is a reference.
parse_from-ref :
    (text name rest : String)
    → valid_param_name name ≡ true
    → parse_from (plain text) ("${" ⧺ (name ⧺ ("}" ⧺ rest)))
      ≡ after (flush text (ref name ∷ [])) (parse_from (plain "") rest)
parse_from-ref text name rest h =
    rw
      (
        opening text _,
        parse_from-name text "" name ("}" ⧺ rest) (valid_param_name-chars name h),
        nil-append,
        closing text name rest h,
      )
      refl

-- The segments that parsing gives back: neighbouring literals are one, and empty ones are none.
unfoldable pub joined : String → List Segment → List Segment
joined text [] = flush text []
joined text (lit s ∷ segs) = joined (text ⧺ s) segs
joined text (ref name ∷ segs) = flush text (ref name ∷ joined "" segs)

abbrev pub IsRef : Segment → Type 0
IsRef (lit text) = Unit
IsRef (ref name) = valid_param_name name ≡ true

flush-append : (text : String) (xs ys : List Segment) → flush text xs ++ ys ≡ flush text (xs ++ ys)
flush-append String.[] xs ys = refl
flush-append (String.◌∷◌ c s) xs ys = refl

parse_from-print :
    (text : String) (segs : List Segment)
    → All IsRef segs
    → parse_from (plain text) (print segs) ≡ ok (joined text segs)
unfolding print joined parse_from
parse_from-print text [] h = refl
parse_from-print text (lit s ∷ segs) h =
    parse_from-escape text s (print segs) ∙ parse_from-print (text ⧺ s) segs h.1
parse_from-print text (ref name ∷ segs) h =
    rw (parse_from-ref text name (print segs) h.0, parse_from-print "" segs h.1, flush-append) refl

-- Parsing what segments with legal names print as gives the segments back, with neighbouring
-- literals joined.
pub parse_template-print :
    (segs : List Segment) → All IsRef segs → parse_template (print segs) ≡ ok (joined "" segs)
unfolding parse_template
parse_template-print segs h = parse_from-print "" segs h
