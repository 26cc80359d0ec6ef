-- ===== src/History/Lookups.antt =====
-- Finding a record by its index, and what a record that fails leaves.
use ultranix_mcp.Prelude.{
  ltb, nat_beq, nat_eq, string_eq, Bool-cases, get_elem?, find, ℕ, ◌≤◌, ◌≡◌, refl, sym, ◌∙◌, subst,
  inl, inr, Option, none, some, List, [], ◌∷◌, arith,
}
use ultranix_mcp.History.Records.{Bytes, ActionRecord, Cipher}
use ultranix_mcp.History.Sealing.{IsIncreasing, IsIncreasing-drop}
use ultranix_mcp.History.Coherence.{IsCoherent}
use ultranix_mcp.History.Opening.{partition_point, of_index, get_by_index}
use ultranix_mcp.History.Store.{Store}

find_below :
    (i prev : ℕ) (rs : List ActionRecord)
    → i ≤ prev
    → IsIncreasing (some prev) rs
    → find (λ r. nat_beq r.index i) rs ≡ none
unfolding IsIncreasing
find_below i prev [] h up = refl
find_below i prev (r ∷ rs) h (f, up) = ground (arith, find_below i r.index rs (ground arith) up)

partition-find :
    (i : ℕ) (prev : Option ℕ) (rs : List ActionRecord)
    → IsIncreasing prev rs
    → of_index i (get_elem? rs (partition_point (λ r. ltb r.index i) rs))
      ≡ find (λ r. nat_beq r.index i) rs
unfolding IsIncreasing partition_point
partition-find i prev [] up = refl
partition-find i prev (r ∷ rs) (f, up) = elim (Bool-cases (ltb r.index i)) [
  | inl e ↦ rw e (partition-find i (some r.index) rs up ∙ ground arith)
  | inr e ↦ rw e (ground (arith, find_below i r.index rs))
]

-- In a coherent store, the lookup by index is the search for it: the binary search neither misses a
-- record that is held nor answers another.
pub get_by_index-find :
    (c : Cipher) (key : Bytes) (s : Store) (i : ℕ)
    → IsCoherent c key s
    → get_by_index i s ≡ find (λ r. nat_beq r.index i) s.records
unfolding get_by_index
get_by_index-find c key s i coherent = partition-find i none s.records (
    subst (IsIncreasing none) (sym coherent.kept)
      (IsIncreasing-drop _ coherent.all coherent.increasing))
