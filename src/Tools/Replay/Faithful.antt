-- ===== src/Tools/Replay/Faithful.antt =====
-- That a replayed call has the arguments of the recorded one.
use ultranix_mcp.Prelude.{
  if◌then◌else◌, ◌==◌, nat_eq, string_eq, Bool-cases, length, is_empty, contains, ◌⧺◌, ok, >>-eq-ok,
  ok_injective, ℕ, String, ◌≡◌, refl, sym, ap, ◌∙◌, subst, ◌⊎◌, inl, inr, Bool, true, false, not,
  ◌&&◌, ◌||◌, Option, none, some, [], ◌∷◌, arith,
}
use ultranix_mcp.Prelude.Texts.{is_stripped}
use ultranix_mcp.Prelude.Dict.{Dict, insert, lookup}
use ultranix_mcp.Prelude.Decimal.{decimal}
use ultranix_mcp.Json.{Value, string, object, Members, members, entries, members-entries, text_of}
use ultranix_mcp.History.Records.{ActionRecord}
use ultranix_mcp.History.Redaction.{
  redacted, redact_text, redact_params, as_object, redact_members, redact_args, is_none,
}
use ultranix_mcp.Tools.Catalog.{category_of}
use ultranix_mcp.Security.Auth.Format.{strip_prefix-append}
use ultranix_mcp.Tools.Replay.{
  args_contain_redacted, members_contain_redacted, non_replayable, replayable, object_of,
}

-- A placeholder is recognised.
placeholder : (n : ℕ) (what : String) → args_contain_redacted (string (redacted n what)) ≡ true
unfolding args_contain_redacted
placeholder n what =
    ap is_stripped (strip_prefix-append "<redacted:" (decimal n ⧺ " " ⧺ what ⧺ ">"))

-- An entry that is written is among the entries.
members-insert :
    (k : String) (v : Value) (m : Dict Value)
    → args_contain_redacted v ≡ true
    → members_contain_redacted (members (insert k v m)) ≡ true
unfolding insert args_contain_redacted
members-insert k v [] h = rw h refl
members-insert k v ((j, w) ∷ m) h = elim (Bool-cases (j == k)) [
  | inl e ↦ rw e (rw h refl)
  | inr e ↦ rw e (ground (arith, members-insert k v m h))
]

-- Redaction changes nothing, or leaves a placeholder.
abbrev IsMarked : Dict Value → Dict Value → Type 0
IsMarked old new = (new ≡ old) ⊎ (members_contain_redacted (members new) ≡ true)

redact_text-IsMarked : (o : Option String) (obj : Dict Value) → IsMarked obj (redact_text o obj)
redact_text-IsMarked none obj = inl refl
redact_text-IsMarked (some text) obj =
    inr (members-insert "text" (string (redacted _ "chars")) obj (placeholder _ "chars"))

redact_params-IsMarked :
    (o : Option (Dict Value)) (obj : Dict Value) → IsMarked obj (redact_params o obj)
redact_params-IsMarked none obj = inl refl
redact_params-IsMarked (some params) obj =
    inr (members-insert "params" (string (redacted _ "params")) obj (placeholder _ "params"))

redact_members-IsMarked :
    (tool : String) (obj : Dict Value) → IsMarked obj (redact_members tool obj)
unfolding insert redact_members
redact_members-IsMarked tool obj =
    elim (Bool-cases (tool == "type_text" || tool == "clipboard_set")) [
      | inl e ↦ rw e (redact_text-IsMarked (text_of (lookup "text" obj)) obj)
      | inr e ↦ rw e (elim (Bool-cases (tool == "plugin_run")) [
        | inl f ↦ rw f (redact_params-IsMarked (as_object (lookup "params" obj)) obj)
        | inr f ↦ rw f (uncatalogued (is_none (category_of tool) && not (is_empty obj)))
      ])
    ]
  where
    uncatalogued :
        (b : Bool)
        → IsMarked obj (if b then ("params", string (redacted (length obj) "params")) ∷ [] else obj)
    uncatalogued true = inr (
        members-insert "params" (string (redacted (length obj) "params")) []
          (placeholder (length obj) "params"))
    uncatalogued false = inl refl

-- Without a placeholder, redaction changed nothing.
redact_args-unmarked :
    (tool : String) (args : Members)
    → args_contain_redacted (redact_args tool (object args)) ≡ false
    → redact_args tool (object args) ≡ object args
unfolding redact_args args_contain_redacted
redact_args-unmarked tool args clear = elim (redact_members-IsMarked tool (entries args)) [
  | inl same ↦ rw same (ap object (members-entries args))
  | inr marked ↦ cc
]

refuted : {b : Bool} → not b ≡ true → b ≡ false
refuted {b = true} h = cc
refuted {b = false} h = refl

-- Of a record that holds the redacted arguments of a call, `replayable` answers a call only when it is
-- the recorded one, of the same tool with exactly the arguments that the call had, and the tool is not
-- on the list of those that are never replayed.
pub replayable-redact_args :
    (rec : ActionRecord) (args replayed_args : Members) (tool : String)
    → rec.args_json ≡ redact_args rec.tool (object args)
    → replayable rec ≡ ok (tool, replayed_args)
    → (tool ≡ rec.tool) × (replayed_args ≡ args) × (contains non_replayable tool ≡ false)
unfolding replayable
replayable-redact_args rec args replayed_args tool stored answered =
    let (listed, rest) = >>-eq-ok _ _ _ answered in
    let (clear, given) = >>-eq-ok _ _ _ rest in
    let same =
      redact_args-unmarked rec.tool args
        (subst (λ v. args_contain_redacted v ≡ false) stored (refuted clear)) in
    let pair = ok_injective given in
    (
      sym (ap (λ p. p.0) pair),
      sym (ap (λ p. p.1) pair) ∙ ap object_of (stored ∙ same),
      subst (λ t. contains non_replayable t ≡ false) (ap (λ p. p.0) pair) (refuted listed),
    )
