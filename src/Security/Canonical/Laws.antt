-- ===== src/Security/Canonical/Laws.antt =====
-- The consent token is no part of what the hash binds, and the order of the keys does not matter.
use ultranix_mcp.Prelude.{
  ◌==◌, nat_eq, string_eq, Bool-cases, retain, String, ◌≡◌, refl, ◌⊎◌, inl, inr, Bool, true, false,
  not, [], ◌∷◌, arith,
}
use text.Mathlib.TextPositions.{eq_refl}
use ultranix_mcp.Prelude.Dict.{Dict, insert}
use ultranix_mcp.Prelude.Sorting.{sort, text_le_total, text_le_trans, retain-sort}
use ultranix_mcp.Json.{Value, object, members}
use ultranix_mcp.Security.Hashing.{Hashing}
use ultranix_mcp.Security.Canonical.{
  key_le, write_entries, write_canonical, written_members, args_hash,
}

abbrev not_token : String × String → Bool
not_token kv = not (kv.0 == "consent_token")

-- The writer's test is a filter before the loop.
write_entries-retain :
    (quote : String → String) (first : Bool) (m : Dict String)
    → write_entries quote true first m ≡ write_entries quote false first (retain not_token m)
unfolding write_entries
write_entries-retain quote first [] = refl
write_entries-retain quote first ((k, v) ∷ rest) = elim (Bool-cases (k == "consent_token")) [
  | inl e ↦ rw e (write_entries-retain quote first rest)
  | inr e ↦ rw e (rw (write_entries-retain quote false rest))
]

key_le_total : (a b : String × String) → (key_le a b ≡ true) ⊎ (key_le b a ≡ true)
key_le_total a b = text_le_total a.0 b.0

key_le_trans : (a b c : String × String) → key_le a b ≡ true → key_le b c ≡ true → key_le a c ≡ true
key_le_trans a b c = text_le_trans a.0 b.0 c.0

written-insert :
    (quote : String → String) (v : Value) (m : Dict Value)
    → retain not_token (written_members quote (members (insert "consent_token" v m)))
      ≡ retain not_token (written_members quote (members m))
unfolding written_members insert
written-insert quote v [] = refl
written-insert quote v ((k, w) ∷ m) =
    ground (arith, written-insert quote v m, eq_refl "consent_token")

-- The consent token that a client adds to the arguments, whatever its value, leaves their hash as
-- it was.
pub args_hash-insert :
    (h : Hashing) (v : Value) (args : Dict Value)
    → args_hash h (object (members (insert "consent_token" v args)))
      ≡ args_hash h (object (members args))
unfolding args_hash write_canonical
args_hash-insert h v args =
    rw
      (
        write_entries-retain h.quote true
            (sort key_le (written_members h.quote (members (insert "consent_token" v args)))),
        retain-sort key_le key_le_total key_le_trans not_token
            (written_members h.quote (members (insert "consent_token" v args))),
        written-insert h.quote v args,
        write_entries-retain h.quote true (sort key_le (written_members h.quote (members args))),
        retain-sort key_le key_le_total key_le_trans not_token
            (written_members h.quote (members args)),
      )
      refl
