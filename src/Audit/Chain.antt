-- ===== src/Audit/Chain.antt =====
-- The chain that recording keeps, and what it gives away.
use ultranix_mcp.Prelude.{
  nat_beq, ◌==◌, nat_eq, string_eq, Bool-cases, length, ok, Result-cases, ok_injective, ℕ, suc,
  String, ◌≡◌, refl, sym, ap, ◌∙◌, ◌≢◌, ◌⊎◌, inl, inr, Bool, true, false, List, [], ◌∷◌, ◌++◌,
  arith,
}
use text.Mathlib.TextEquality.{eq_iff}
use text.Mathlib.TextPositions.{eq_refl}
use ultranix_mcp.Audit.{
  Journal, AuditLog, genesis, Rotation, rotated, rename_failed, reopen_failed, prune_failed, Write,
  whole, cut, append, roll_over, half_pruned, rotate_log, record_call, verify_from, verify_chain_at,
  chain_end,
}

-- The live file verifies, and the log holds the hash of its end.
pub record IsChained {Entry : Type 0} (j : Journal Entry) (l : AuditLog) : Type 0 where
  pub verifies : verify_chain_at j l.lines ≡ ok true
  pub ends : chain_end j genesis l.lines ≡ l.prev_hash

-- A write that fails has left nothing in the file.
abbrev pub IsWhole : Write → Type 0
IsWhole whole = Unit
IsWhole (cut piece) = (piece == "") ≡ true

cons-eq : {x y : String} {xs ys : List String} → x ≡ y → xs ≡ ys → (x ∷ xs) ≡ (y ∷ ys)
cons-eq h k = cc

differs : {x y : String} → (x == y) ≡ false → x ≢ y
differs {x} {y} g h = cc ((eq_iff x y).1 h)

module _ {Entry : Type 0} (j : Journal Entry) where
  verify_from-cons :
      (expected text : String) (rest : List String)
      → verify_from j expected (text ∷ rest) ≡ ok true
      → (j.claimed text ≡ ok expected) × (verify_from j (j.sha256_hex text) rest ≡ ok true)
  unfolding verify_from
  verify_from-cons expected text rest h = elim (Result-cases (j.claimed text)) [
    | inr (e, f) ↦ let bad : ⊥ = ground arith in absurd bad
    | inl (claim, f) ↦ elim (Bool-cases (claim == expected)) [
      | inl g ↦ (f ∙ ap ok ((eq_iff claim expected).0 g), rw (f, g) at h)
      | inr g ↦ let bad : ⊥ = ground arith in absurd bad
    ]
  ]

  verify_from-append :
      (expected text : String) (lines : List String)
      → verify_from j expected lines ≡ ok true
      → j.claimed text ≡ ok (chain_end j expected lines)
      → verify_from j expected (lines ++ text ∷ []) ≡ ok true
  unfolding verify_from chain_end
  verify_from-append expected text [] h k = rw k (rw (eq_refl expected) refl)
  verify_from-append expected text (x ∷ lines) h k =
      let (claim, rest) = verify_from-cons expected x lines h in
      rw claim (rw (eq_refl expected) (verify_from-append (j.sha256_hex x) text lines rest k))

  chain_end-append :
      (hash text : String) (lines : List String)
      → chain_end j hash (lines ++ text ∷ []) ≡ j.sha256_hex text
  unfolding chain_end
  chain_end-append hash text [] = refl
  chain_end-append hash text (x ∷ lines) = chain_end-append (j.sha256_hex x) text lines

  -- What a call leaves, after which the next record starts a line: a chain, with the record's line at
  -- its end when the record is answered to be written.
  pub record Keeps (entry : Entry) (out : AuditLog × Bool) : Type 0 where
    pub chained : IsChained j out.0
    pub ended : out.0.ended ≡ true
    pub last :
        out.1 ≡ true
        → (before : List String) × (prev : String) × (out.0.lines
            ≡ before ++ j.line entry prev ∷ [])

  unwritten :
      (entry : Entry) (l : AuditLog) → IsChained j l → l.ended ≡ true → Keeps entry (l, false)
  unwritten entry l c e = record { chained = c; ended = e; last = λ h. cc }

  append-Keeps :
      (write : Write) (entry : Entry) (l : AuditLog)
      → ((e : Entry) (prev : String) → j.claimed (j.line e prev) ≡ ok prev)
      → IsWhole write
      → IsChained j l
      → l.ended ≡ true
      → Keeps entry (append j write entry l)
  unfolding append verify_chain_at
  append-Keeps (cut piece) entry l law w c e = rw w (unwritten entry l c e)
  append-Keeps whole entry l law w c e = record {
    chained = record {
      verifies = rw e (
          verify_from-append genesis (j.line entry l.prev_hash) l.lines c.verifies
            (law entry l.prev_hash ∙ ap ok (sym c.ends)));
      ends = rw e (chain_end-append genesis (j.line entry l.prev_hash) l.lines);
    };
    ended = refl;
    last = λ h. (l.lines, l.prev_hash, rw e refl);
  }

  roll_over-IsChained : (today : ℕ) (l : AuditLog) → IsChained j (roll_over today l)
  unfolding roll_over verify_chain_at verify_from chain_end
  roll_over-IsChained today l = record { verifies = refl; ends = refl }

  half_pruned-IsChained :
      (removed : ℕ × List String → Bool) (today : ℕ) (l : AuditLog)
      → IsChained j (half_pruned removed today l)
  unfolding verify_chain_at verify_from chain_end
  half_pruned-IsChained removed today l = record { verifies = refl; ends = refl }

  roll_over-ended : (today : ℕ) (l : AuditLog) → (roll_over today l).ended ≡ true
  unfolding roll_over
  roll_over-ended today l = refl

  rotate_log-Keeps :
      (rotation : Rotation) (today : ℕ) (write : Write) (entry : Entry) (l : AuditLog)
      → ((e : Entry) (prev : String) → j.claimed (j.line e prev) ≡ ok prev)
      → IsWhole write
      → IsChained j l
      → l.ended ≡ true
      → Keeps entry (rotate_log j rotation today write entry l)
  unfolding rotate_log append
  rotate_log-Keeps rotated today write entry l law w c e =
      append-Keeps write entry (roll_over today l) law w (roll_over-IsChained today l)
        (roll_over-ended today l)
  rotate_log-Keeps rename_failed today write entry l law w c e = unwritten entry l c e
  rotate_log-Keeps reopen_failed today write entry l law w c e =
      unwritten entry (record l { archived = true })
        (record { verifies = c.verifies; ends = c.ends }) e
  rotate_log-Keeps (prune_failed removed) today write entry l law w c e =
      unwritten entry (half_pruned removed today l) (half_pruned-IsChained removed today l) refl

  -- Recording keeps an open file that verifies and ends in a newline so, over a change of the day and
  -- wherever a rotation fails, and a record that is answered to be written is its last line. A line
  -- claims the hash that it was written after, and a write that fails leaves no part of its line.
  pub record_call-IsChained :
      (today : ℕ) (rotation : Rotation) (write : Write) (entry : Entry) (l : AuditLog)
      → ((e : Entry) (prev : String) → j.claimed (j.line e prev) ≡ ok prev)
      → IsWhole write
      → IsChained j l
      → l.ended ≡ true
      → Keeps entry (record_call j today rotation write entry l)
  unfolding record_call
  record_call-IsChained today rotation write entry l law w c ended =
      elim (Bool-cases (nat_beq today l.date)) [
        | inl e ↦ rw e (append-Keeps write entry l law w c ended)
        | inr e ↦ elim (Bool-cases l.archived) [
          | inl f ↦ rw e (simp f (unwritten entry l c ended))
          | inr f ↦ rw e (simp f (rotate_log-Keeps rotation today write entry l law w c ended))
        ]
      ]

  -- The last place where two logs of one length differ: two lines there with the same hash, and the
  -- same lines after them.
  pub record HaveCollision (xs ys : List String) : Type 0 where
    pub before : List String
    pub before' : List String
    pub one : String
    pub other : String
    pub rest : List String
    pub left : xs ≡ before ++ one ∷ rest
    pub right : ys ≡ before' ++ other ∷ rest
    pub place : length before ≡ length before'
    pub differ : one ≢ other
    pub collide : j.sha256_hex one ≡ j.sha256_hex other

  HaveCollision-cons :
      (x y : String) (xs ys : List String) → HaveCollision xs ys → HaveCollision (x ∷ xs) (y ∷ ys)
  HaveCollision-cons x y xs ys c = record {
    before = x ∷ c.before;
    before' = y ∷ c.before';
    one = c.one;
    other = c.other;
    rest = c.rest;
    left = ap (λ t. x ∷ t) c.left;
    right = ap (λ t. y ∷ t) c.right;
    place = ap suc c.place;
    differ = c.differ;
    collide = c.collide;
  }

  chains-equal :
      (e f : String) (xs ys : List String)
      → verify_from j e xs ≡ ok true
      → verify_from j f ys ≡ ok true
      → length xs ≡ length ys
      → chain_end j e xs ≡ chain_end j f ys
      → ((xs ≡ ys) × (e ≡ f)) ⊎ HaveCollision xs ys
  unfolding chain_end
  chains-equal e f [] [] v w n same = inl (refl, same)
  chains-equal e f [] (y ∷ ys) v w n same = absurd (omega arith)
  chains-equal e f (x ∷ xs) [] v w n same = absurd (omega arith)
  chains-equal e f (x ∷ xs) (y ∷ ys) v w n same =
      let (cx, vx) = verify_from-cons e x xs v in
      let (cy, vy) = verify_from-cons f y ys w in
      elim (chains-equal (j.sha256_hex x) (j.sha256_hex y) xs ys vx vy (omega arith) same) [
        | inr collision ↦ inr (HaveCollision-cons x y xs ys collision)
        | inl (rest, hashes) ↦ elim (Bool-cases (x == y)) [
          | inl g ↦
              let one : x ≡ y = (eq_iff x y).0 g in
              inl (cons-eq one rest, ok_injective (sym cx ∙ ap j.claimed one ∙ cy))
          | inr g ↦ inr (record {
            before = [];
            before' = [];
            one = x;
            other = y;
            rest = xs;
            left = refl;
            right = ap (λ t. y ∷ t) (sym rest);
            place = refl;
            differ = differs g;
            collide = hashes;
          })
        ]
      ]

  -- Two logs of the same number of lines that verify and end in the same hash are the same log, or
  -- the last lines in which they differ, at the same place of both, have the same SHA-256.
  pub verify_chain_at_unique :
      (xs ys : List String)
      → verify_chain_at j xs ≡ ok true
      → verify_chain_at j ys ≡ ok true
      → length xs ≡ length ys
      → chain_end j genesis xs ≡ chain_end j genesis ys
      → (xs ≡ ys) ⊎ HaveCollision xs ys
  unfolding verify_chain_at
  verify_chain_at_unique xs ys v w n same = elim (chains-equal genesis genesis xs ys v w n same) [
    | inl (equal, hash) ↦ inl equal
    | inr collision ↦ inr collision
  ]
