-- ===== src/History/Secrecy.antt =====
-- What a record of the history does not hold of a call's arguments.
use ultranix_mcp.Prelude.{
  ◌==◌, nat_eq, string_eq, Bool-cases, length, is_empty, ℕ, String, ◌≡◌, refl, sym, ap, ◌∙◌, subst,
  inl, inr, false, none, some, [], ◌∷◌, arith,
}
use ultranix_mcp.Prelude.Dict.{Dict, lookup, insert, insert-insert, lookup-insert_self}
use ultranix_mcp.Json.{Value, string, object, Members, entries, members, entries-members, text_of}
use text.Mathlib.TextEquality.{eq_iff}
use ultranix_mcp.Tools.Catalog.{category_of, category_in, catalog}
use ultranix_mcp.History.Redaction.{
  redacted, redact_text, redact_params, redact_members, as_object, redact_args, truncate_chars,
}
use ultranix_mcp.History.Records.{ActionRecord, NewActionRecord, result_summary_max}
use ultranix_mcp.History.Store.{Environment, new_record}
use ultranix_mcp.Prelude.Texts.{char_count}

redact_text-insert :
    (s : String) (obj : Dict Value)
    → redact_text
        (text_of (lookup "text" (insert "text" (string s) obj)))
        (insert "text" (string s) obj)
      ≡ insert "text" (string (redacted (char_count s) "chars")) obj
redact_text-insert s obj =
    rw (lookup-insert_self "text" (string s) obj) (insert-insert "text" _ (string s) obj)

redact_params-insert :
    (ms : Members) (obj : Dict Value)
    → redact_params
        (as_object (lookup "params" (insert "params" (object ms) obj)))
        (insert "params" (object ms) obj)
      ≡ insert "params" (string (redacted (length (entries ms)) "params")) obj
redact_params-insert ms obj =
    rw (lookup-insert_self "params" (object ms) obj) (insert-insert "params" _ (object ms) obj)

same_emptiness : (m n : Dict Value) → length m ≡ length n → is_empty m ≡ false → is_empty n ≡ false
same_emptiness m [] h e = ground arith
same_emptiness m (x ∷ n) h e = refl

-- A tool outside the catalog is none of the catalog's.
differs :
    (tool known category : String)
    → category_of tool ≡ none
    → category_of known ≡ some category
    → (tool == known) ≡ false
differs tool known category outside inside = elim (Bool-cases (tool == known)) [
  | inl e ↦ absurd (clash (subst (λ t. category_of t ≡ none) ((eq_iff tool known).0 e) outside))
  | inr e ↦ e
]
  where
    clash : category_of known ≡ none → ⊥
    clash h = cc

redact_members_hides :
    (obj : Dict Value) (a b : String) (ms ns : Members) (tool : String) (m n : Dict Value)
    → char_count a ≡ char_count b
    → length (entries ms) ≡ length (entries ns)
    → category_of tool ≡ none
    → length m ≡ length n
    → is_empty m ≡ false
    → (redact_members "type_text" (insert "text" (string a) obj)
        ≡ redact_members "type_text" (insert "text" (string b) obj))
      × (redact_members "clipboard_set" (insert "text" (string a) obj)
          ≡ redact_members "clipboard_set" (insert "text" (string b) obj))
      × (redact_members "plugin_run" (insert "params" (object ms) obj)
          ≡ redact_members "plugin_run" (insert "params" (object ns) obj))
      × (redact_members tool m ≡ redact_members tool n)
unfolding redact_members category_of category_in catalog
redact_members_hides obj a b ms ns tool m n same_size same_number outside same_length nonempty = (
  rw (redact_text-insert a obj, redact_text-insert b obj, same_size) refl,
  rw (redact_text-insert a obj, redact_text-insert b obj, same_size) refl,
  rw (redact_params-insert ms obj, redact_params-insert ns obj, same_number) refl,
  rw
      (
        differs tool "type_text" "keyboard" outside refl,
        differs tool "clipboard_set" "clipboard" outside refl,
        differs tool "plugin_run" "admin" outside refl,
        outside,
        nonempty,
        same_emptiness m n same_length nonempty,
        same_length,
      )
      refl,
)

-- A call's entry with other arguments.
abbrev pub with_args : NewActionRecord → String → Dict Value → NewActionRecord
with_args e tool m = record e { tool = tool; args_json = object (members m) }

kept_args :
    (tool : String) (m n : Dict Value)
    → redact_members tool m ≡ redact_members tool n
    → redact_args tool (object (members m)) ≡ redact_args tool (object (members n))
unfolding redact_args
kept_args tool m n h =
    ap (λ t. object (members (redact_members tool t))) (entries-members m)
    ∙ ap (λ t. object (members t)) h
    ∙ ap (λ t. object (members (redact_members tool t))) (sym (entries-members n))

same_record :
    (env : Environment) (e : NewActionRecord) (index : ℕ) (tool : String) (m n : Dict Value)
    → redact_members tool m ≡ redact_members tool n
    → new_record env (with_args e tool m) index ≡ new_record env (with_args e tool n) index
unfolding new_record
same_record env e index tool m n h = ap (λ v. new_with env e index tool v) (kept_args tool m n h)
  where
    new_with : Environment → NewActionRecord → ℕ → String → Value → ActionRecord
    new_with env e index tool v = record {
      id = env.id;
      index = index;
      tool = tool;
      args_json = v;
      result_summary = truncate_chars e.result_summary result_summary_max;
      caller = e.caller;
      ts = env.ts;
      duration_ms = e.duration_ms;
      outcome = e.outcome;
    }

-- The typed text of `type_text` and of `clipboard_set`, the parameters of `plugin_run`, and all the
-- arguments of a tool outside the catalog leave no trace but their number in the record made of a call
-- with a given summary: of two such calls with the same summary that differ only there, the record is
-- the same. What the summary itself shows of the arguments is recorded.
pub new_record_hides :
    (env : Environment) (e : NewActionRecord) (index : ℕ) (obj : Dict Value) (a b : String)
    (ms ns : Members) (tool : String) (m n : Dict Value)
    → char_count a ≡ char_count b
    → length (entries ms) ≡ length (entries ns)
    → category_of tool ≡ none
    → length m ≡ length n
    → is_empty m ≡ false
    → (new_record env (with_args e "type_text" (insert "text" (string a) obj)) index
        ≡ new_record env (with_args e "type_text" (insert "text" (string b) obj)) index)
      × (new_record env (with_args e "clipboard_set" (insert "text" (string a) obj)) index
          ≡ new_record env (with_args e "clipboard_set" (insert "text" (string b) obj)) index)
      × (new_record env (with_args e "plugin_run" (insert "params" (object ms) obj)) index
          ≡ new_record env (with_args e "plugin_run" (insert "params" (object ns) obj)) index)
      × (new_record env (with_args e tool m) index ≡ new_record env (with_args e tool n) index)
new_record_hides env e index obj a b ms ns tool m n size number outside count nonempty =
    let (typed, clip, run, plugin) =
      redact_members_hides obj a b ms ns tool m n size number outside count nonempty in
    (
      same_record env e index "type_text" _ _ typed,
      same_record env e index "clipboard_set" _ _ clip,
      same_record env e index "plugin_run" _ _ run,
      same_record env e index tool m n plugin,
    )
