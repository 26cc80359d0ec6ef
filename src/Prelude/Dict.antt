-- ===== src/Prelude/Dict.antt =====
-- A map with texts for keys, as an association list: `HashMap<String, V>` and `BTreeMap`.
use Prim.Native.Nat.{◌≤◌, ◌+◌}
use Prim.Native.String.{String}
use mathlib.Core.Path.{◌≡◌, refl, subst}
use mathlib.Core.Bool.{Bool, true, false}
use mathlib.Core.Option.{Option, none, some}
use mathlib.Core.Logic.{inl, inr}
use mathlib.Core.List.{List, [], ◌∷◌}
use native.Mathlib.Omega.{arith}
use text.Mathlib.TextEquality.{eq_iff}
use text.Mathlib.TextPositions.{eq_refl}
use ultranix_mcp.Prelude.Tests.{if◌then◌else◌, ◌==◌, string_eq, Bool-cases}
use ultranix_mcp.Prelude.Lists.{length, All}
use ultranix_mcp.Prelude.Sorting.{text_le}

abbrev pub Dict {ℓ} : Type ℓ → Type ℓ
Dict V = List (String × V)

module _ {ℓ} {V : Type ℓ} where
  -- `get`
  unfoldable pub lookup : String → Dict V → Option V
  lookup k [] = none
  lookup k ((j, v) ∷ m) = if j == k then some v else lookup k m

  -- `contains_key`
  abbrev pub is_some : Option V → Bool
  is_some none = false
  is_some (some v) = true

  -- An existing key keeps its place and takes the new value.
  unfoldable pub insert : String → V → Dict V → Dict V
  insert k v [] = (k, v) ∷ []
  insert k v ((j, w) ∷ m) = if j == k then (k, v) ∷ m else (j, w) ∷ insert k v m

  -- `insert` of a `BTreeMap`, which keeps its keys in order
  unfoldable pub insert_ordered : String → V → Dict V → Dict V
  insert_ordered k v [] = (k, v) ∷ []
  insert_ordered k v ((j, w) ∷ m) =
      let rest = insert_ordered k v m in
      if j == k then (k, v) ∷ m else if text_le k j then (k, v) ∷ (j, w) ∷ m else (j, w) ∷ rest

  pub lookup-insert_ordered :
      (k key : String) (v : V) (map : Dict V)
      → lookup key (insert_ordered k v map) ≡ (if k == key then some v else lookup key map)
  unfolding lookup insert_ordered
  lookup-insert_ordered k key v [] = refl
  lookup-insert_ordered k key v ((old, w) ∷ rest) =
      ground (arith, eq_iff old k, eq_iff old key, eq_iff k key, lookup-insert_ordered k key v rest)

  unfoldable pub remove : String → Dict V → Dict V
  remove k [] = []
  remove k ((j, w) ∷ m) = if j == k then remove k m else (j, w) ∷ remove k m

  pub lookup-insert :
      (k key : String) (v : V) (map : Dict V)
      → lookup key (insert k v map) ≡ (if k == key then some v else lookup key map)
  unfolding lookup insert
  lookup-insert k key v [] = refl
  lookup-insert k key v ((old, w) ∷ rest) =
      ground (arith, eq_iff old k, eq_iff old key, eq_iff k key, lookup-insert k key v rest)

  pub lookup-insert_self : (k : String) (v : V) (m : Dict V) → lookup k (insert k v m) ≡ some v
  lookup-insert_self k v m = simp (lookup-insert, eq_refl)

  -- The last of two writes of a key is the one that stays.
  pub insert-insert : (k : String) (v w : V) (m : Dict V) → insert k v (insert k w m) ≡ insert k v m
  unfolding insert
  insert-insert k v w [] = ground (arith, eq_refl k)
  insert-insert k v w ((j, u) ∷ m) = ground (arith, eq_refl k, insert-insert k v w m)

  pub lookup-remove :
      (k j : String) (m : Dict V) → lookup j (remove k m) ≡ (if k == j then none else lookup j m)
  unfolding lookup remove
  lookup-remove k j [] = ground (arith, eq_iff k j)
  lookup-remove k j ((i, w) ∷ m) =
      ground (arith, eq_iff k j, eq_iff i k, eq_iff i j, lookup-remove k j m)

  pub lookup-remove_self : (k : String) (m : Dict V) → lookup k (remove k m) ≡ none
  lookup-remove_self k m = simp (lookup-remove, eq_refl)

  pub length-remove-le : (k : String) (m : Dict V) → length (remove k m) ≤ length m
  unfolding remove
  length-remove-le k [] = omega arith
  length-remove-le k ((j, w) ∷ m) = ground (arith, length-remove-le k m)

  pub length-insert-le : (k : String) (v : V) (m : Dict V) → length (insert k v m) ≤ length m + 1
  unfolding insert
  length-insert-le k v [] = omega arith
  length-insert-le k v ((j, w) ∷ m) = ground (arith, length-insert-le k v m)

-- Properties of the values of a map.
module _ {ℓ κ} {V : Type ℓ} (P : V → Type κ) where
  pub All-remove : (k : String) (m : Dict V) → All (λ e. P e.1) m → All (λ e. P e.1) (remove k m)
  unfolding remove
  All-remove k [] h = tt
  All-remove k ((j, w) ∷ m) h = elim (Bool-cases (j == k)) [
    | inl e ↦ rw e (All-remove k m h.1)
    | inr e ↦ rw e (h.0, All-remove k m h.1)
  ]

  pub All-insert :
      (k : String) (v : V) (m : Dict V) → P v → All (λ e. P e.1) m → All (λ e. P e.1) (insert k v m)
  unfolding insert
  All-insert k v [] p h = (p, tt)
  All-insert k v ((j, w) ∷ m) p h = elim (Bool-cases (j == k)) [
    | inl e ↦ rw e (p, h.1)
    | inr e ↦ rw e (h.0, All-insert k v m p h.1)
  ]

  pub All-lookup :
      (k : String) (v : V) (m : Dict V) → All (λ e. P e.1) m → lookup k m ≡ some v → P v
  unfolding lookup
  All-lookup k v [] h e = cc
  All-lookup k v ((j, w) ∷ m) h e = elim (Bool-cases (j == k)) [
    | inl here ↦ let same : w ≡ v = ground arith in subst P same h.0
    | inr there ↦ All-lookup k v m h.1 (ground arith)
  ]

module _ {ℓ κ} {V : Type ℓ} (P : String × V → Type κ) where
  pub All-insert_ordered :
      (k : String) (v : V) (m : Dict V) → P (k, v) → All P m → All P (insert_ordered k v m)
  unfolding insert_ordered
  All-insert_ordered k v [] p h = (p, tt)
  All-insert_ordered k v ((j, w) ∷ m) p h = elim (Bool-cases (j == k)) [
    | inl e ↦ rw e (p, h.1)
    | inr e ↦ elim (Bool-cases (text_le k j)) [
      | inl f ↦ rw (e, f) (p, h)
      | inr f ↦ rw (e, f) (h.0, All-insert_ordered k v m p h.1)
    ]
  ]
