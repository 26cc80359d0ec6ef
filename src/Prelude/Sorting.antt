-- ===== src/Prelude/Sorting.antt =====
-- `sort` and `sort_by_key` as a stable insertion sort by a Boolean order, and the order of texts.
use Prim.Native.Nat.{suc}
use Prim.Native.Char.{code}
use Prim.Native.String.{String}
use mathlib.Core.Bool.{Bool, true, false}
use mathlib.Core.Logic.{inl, inr, ◌⊎◌}
use mathlib.Core.Path.{◌≡◌, refl}
use mathlib.Core.List.{List, [], ◌∷◌}
use native.Mathlib.Omega.{arith}
use ultranix_mcp.Prelude.Tests.{ltb, nat_beq, if◌then◌else◌, Bool-cases}
use ultranix_mcp.Prelude.Lists.{All, retain, length, All-retain}

-- Texts in the order of their code points, which is that of their UTF-8 bytes.
unfoldable pub text_le : String → String → Bool
text_le String.[] t = true
text_le (String.◌∷◌ c s) String.[] = false
text_le (String.◌∷◌ c s) (String.◌∷◌ d t) =
    if ltb (code c) (code d) then true else if nat_beq (code c) (code d) then text_le s t else false

pub text_le_total : (s t : String) → (text_le s t ≡ true) ⊎ (text_le t s ≡ true)
unfolding text_le
text_le_total String.[] t = inl refl
text_le_total (String.◌∷◌ c s) String.[] = inr refl
text_le_total (String.◌∷◌ c s) (String.◌∷◌ d t) = ground (arith, text_le_total s t)

pub text_le_trans : (s t u : String) → text_le s t ≡ true → text_le t u ≡ true → text_le s u ≡ true
unfolding text_le
text_le_trans String.[] t u h k = refl
text_le_trans (String.◌∷◌ c s) (String.◌∷◌ d t) (String.◌∷◌ e u) h k =
    ground (arith, text_le_trans s t u)
text_le_trans (String.◌∷◌ c s) String.[] u h k = ground arith
text_le_trans (String.◌∷◌ c s) (String.◌∷◌ d t) String.[] h k = ground arith

module _ {ℓ} {A : Type ℓ} (le : A → A → Bool) where
  unfoldable pub insert_sorted : A → List A → List A
  insert_sorted a [] = a ∷ []
  insert_sorted a (b ∷ bs) = if le a b then a ∷ b ∷ bs else b ∷ insert_sorted a bs

  unfoldable pub sort : List A → List A
  unfolding insert_sorted
  sort [] = []
  sort (a ∷ xs) = insert_sorted a (sort xs)

  pub length-insert_sorted : (a : A) (xs : List A) → length (insert_sorted a xs) ≡ suc (length xs)
  unfolding insert_sorted
  length-insert_sorted a [] = refl
  length-insert_sorted a (b ∷ bs) = ground (arith, length-insert_sorted a bs)

  pub length-sort : (xs : List A) → length (sort xs) ≡ length xs
  unfolding sort
  length-sort [] = refl
  length-sort (a ∷ xs) = ground (arith, length-insert_sorted a (sort xs), length-sort xs)

  abbrev pub IsSorted : List A → Type ℓ
  IsSorted [] = Unit
  IsSorted (a ∷ xs) = All (λ b. le a b ≡ true) xs × IsSorted xs

  module _ {κ} (P : A → Type κ) where
    pub All-insert_sorted : (a : A) (xs : List A) → P a → All P xs → All P (insert_sorted a xs)
    unfolding insert_sorted
    All-insert_sorted a [] h k = (h, tt)
    All-insert_sorted a (b ∷ bs) h k = elim (Bool-cases (le a b)) [
      | inl e ↦ rw e (h, k)
      | inr e ↦ rw e (k.0, All-insert_sorted a bs h k.1)
    ]

    pub All-sort : (xs : List A) → All P xs → All P (sort xs)
    unfolding sort
    All-sort [] h = tt
    All-sort (a ∷ xs) h = All-insert_sorted a (sort xs) h.0 (All-sort xs h.1)

  insert_sorted_front :
      (a : A) (xs : List A) → All (λ b. le a b ≡ true) xs → insert_sorted a xs ≡ a ∷ xs
  unfolding insert_sorted
  insert_sorted_front a [] h = refl
  insert_sorted_front a (b ∷ bs) h = rw h.0

module _ {ℓ} {A : Type ℓ} (le : A → A → Bool)
    (total : (a b : A) → (le a b ≡ true) ⊎ (le b a ≡ true))
    (transitive : (a b c : A) → le a b ≡ true → le b c ≡ true → le a c ≡ true) where
  All-le_trans :
      (a b : A) (xs : List A)
      → le a b ≡ true
      → All (λ c. le b c ≡ true) xs
      → All (λ c. le a c ≡ true) xs
  All-le_trans a b [] h k = tt
  All-le_trans a b (x ∷ xs) h k = (transitive a b x h k.0, All-le_trans a b xs h k.1)

  pub IsSorted-insert_sorted :
      (a : A) (xs : List A) → IsSorted le xs → IsSorted le (insert_sorted le a xs)
  unfolding insert_sorted
  IsSorted-insert_sorted a [] h = (tt, tt)
  IsSorted-insert_sorted a (b ∷ bs) h = elim (Bool-cases (le a b)) [
    | inl e ↦ rw e ((e, All-le_trans a b bs e h.0), h)
    | inr e ↦ rw e (
      All-insert_sorted le (λ c. le b c ≡ true) a bs (other e) h.0,
      IsSorted-insert_sorted a bs h.1,
    )
  ]
    where
      other : le a b ≡ false → le b a ≡ true
      other e = elim (total a b) [ inl f ↦ cc | inr f ↦ f ]

  pub IsSorted-sort : (xs : List A) → IsSorted le (sort le xs)
  unfolding sort
  IsSorted-sort [] = tt
  IsSorted-sort (a ∷ xs) = IsSorted-insert_sorted a (sort le xs) (IsSorted-sort xs)

  retain-insert_sorted :
      (p : A → Bool) (a : A) (xs : List A)
      → IsSorted le xs
      → retain p (insert_sorted le a xs)
        ≡ (if p a then insert_sorted le a (retain p xs) else retain p xs)
  unfolding insert_sorted
  retain-insert_sorted p a [] h = refl
  retain-insert_sorted p a (b ∷ bs) h = elim (Bool-cases (le a b)) [
    | inl e ↦ rw e (
        rw (
          insert_sorted_front le a (retain p (b ∷ bs))
            (All-retain (λ c. le a c ≡ true) p (b ∷ bs) (e, All-le_trans a b bs e h.0))))
    | inr e ↦ rw e (ground (arith, retain-insert_sorted p a bs h.1))
  ]

  -- Filtering commutes with sorting.
  pub retain-sort : (p : A → Bool) (xs : List A) → retain p (sort le xs) ≡ sort le (retain p xs)
  unfolding sort
  retain-sort p [] = refl
  retain-sort p (a ∷ xs) =
      rw (retain-insert_sorted p a (sort le xs) (IsSorted-sort xs))
        (ground (arith, retain-sort p xs))

-- Every two elements of a list, in either order, are related.
module _ {ℓ κ} {A : Type ℓ} (R : A → A → Type κ) where
  abbrev pub Pairwise : List A → Type (ℓ ⊔ κ)
  Pairwise [] = Unit
  Pairwise (a ∷ xs) = All (λ b. R a b × R b a) xs × Pairwise xs

  module _ (le : A → A → Bool) where
    Pairwise-insert_sorted :
        (a : A) (xs : List A)
        → All (λ b. R a b × R b a) xs
        → Pairwise xs
        → Pairwise (insert_sorted le a xs)
    unfolding insert_sorted
    Pairwise-insert_sorted a [] h k = (tt, tt)
    Pairwise-insert_sorted a (b ∷ bs) h k = elim (Bool-cases (le a b)) [
      | inl e ↦ rw e (h, k)
      | inr e ↦ rw e (
        All-insert_sorted le (λ c. R b c × R c b) a bs (h.0.1, h.0.0) k.0,
        Pairwise-insert_sorted a bs h.1 k.1,
      )
    ]

    pub Pairwise-sort : (xs : List A) → Pairwise xs → Pairwise (sort le xs)
    unfolding sort
    Pairwise-sort [] h = tt
    Pairwise-sort (a ∷ xs) h =
        Pairwise-insert_sorted a (sort le xs) (All-sort le (λ b. R a b × R b a) xs h.0)
          (Pairwise-sort xs h.1)
