-- ===== src/Security/Canonical.antt =====
-- src/security/consent.rs: `write_canonical` and `args_hash`, the text that a consent token and an
-- audit record are bound to. The writer's byte buffer is the text that it returns.
pub mod Laws
use ultranix_mcp.Prelude.{
  ltb, leb, nat_beq, nat_beq_iff, if◌then◌else◌, ltb→lt, leb→le, Equality, ◌==◌, nat_eq, string_eq,
  option_beq, option_beq_iff, Bool-cases, Option-cases, and-eq-true, length, get_elem?, take, drop,
  is_empty, retain, any, all, find, length-append, length-retain-le, length-take, length-drop,
  drop-append, take_prefix, drop_prefix, contains, All, All-append, All-drop, All-retain, All-map,
  ◌⧺◌, Result, ok, err, ◌>>=◌, ◌>>◌, ok_or, ensure, to_option, is_ok, Result-cases, >>=-eq-ok, ℕ,
  zero, suc, ◌+◌, ◌-◌, ◌*◌, ◌/◌, ◌%◌, ◌^◌, ◌≤◌, ◌<◌, min, max, Char, code, String, ◌≡◌, refl, sym,
  ap, ◌∙◌, ◌≡⟨◌⟩◌, ◌∎, subst, ◌≢◌, ◌↔◌, ◌⊎◌, inl, inr, Bool, true, false, not, ◌&&◌, ◌||◌, Option,
  none, some, List, [], ◌∷◌, ◌++◌, map, reverse, foldl, arith,
}
use ultranix_mcp.Prelude.Dict.{Dict}
use ultranix_mcp.Prelude.Sorting.{text_le, sort}
use ultranix_mcp.Json.{
  Value, null, boolean, number, string, array, object, Items, no_items, item, Members, no_members,
  member, members,
}
use ultranix_mcp.Security.Hashing.{Hashing, sha256_hex}

abbrev pub key_le : String × String → String × String → Bool
key_le a b = text_le a.0 b.0

-- The loop over the sorted keys: each entry holds a key and its written value. `first` says that no
-- entry is written yet, and `consent_token` is skipped when `strip` is set.
unfoldable pub write_entries : (String → String) → Bool → Bool → Dict String → String
write_entries quote strip first [] = ""
write_entries quote strip first ((k, v) ∷ rest) =
    let skipped = write_entries quote strip first rest in
    let written =
      (if first then "" else ",") ⧺ quote k ⧺ ":" ⧺ v ⧺ write_entries quote strip false rest in
    if strip && k == "consent_token" then skipped else written

unfoldable mutual
  pub write_canonical : (String → String) → Bool → Value → String
  write_canonical quote strip null = "null"
  write_canonical quote strip (boolean b) = if b then "true" else "false"
  write_canonical quote strip (number n) = n
  write_canonical quote strip (string s) = quote s
  write_canonical quote strip (array vs) = "[" ⧺ write_items quote true vs ⧺ "]"
  write_canonical quote strip (object ms) =
      "{" ⧺ write_entries quote strip true (sort key_le (written_members quote ms)) ⧺ "}"

  pub write_items : (String → String) → Bool → Items → String
  write_items quote first no_items = ""
  write_items quote first (item v vs) =
      (if first then "" else ",") ⧺ write_canonical quote false v ⧺ write_items quote false vs

  -- Each key with the text of its value.
  pub written_members : (String → String) → Members → Dict String
  written_members quote no_members = []
  written_members quote (member k v ms) =
      (k, write_canonical quote false v) ∷ written_members quote ms

pub args_hash : Hashing → Value → String
args_hash h args = sha256_hex h (write_canonical h.quote true args)
