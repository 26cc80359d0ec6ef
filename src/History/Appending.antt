-- ===== src/History/Appending.antt =====
-- Memory and disk after a rewrite and after an append.
use ultranix_mcp.Prelude.{
  nat_eq, string_eq, length, drop, length-append, length-drop, All, All-append, All-drop, All-imp,
  Result, ok, err, ok_injective, ℕ, ◌+◌, ◌-◌, ◌≤◌, ◌<◌, ◌≡◌, refl, sym, ap, ◌∙◌, subst, Option,
  none, some, List, [], ◌∷◌, ◌++◌, arith,
}
use ultranix_mcp.History.Records.{
  Bytes, ActionRecord, NewActionRecord, Cipher, IsCipher, IsStorable, v2_magic,
}
use ultranix_mcp.History.Frames.{magic_aad, frame_aad, seal_frame}
use ultranix_mcp.History.Sealing.{
  IsIncreasing, IsIncreasing-drop, IsIncreasing-append, HasNonces, seal_all-IsSealed,
  seal_frame-small, IsSealed-append,
}
use ultranix_mcp.History.Coherence.{IsCoherent}
use ultranix_mcp.History.Store.{
  Store, v2, Environment, HistoryError, keep_from, evict_batch, new_record, seal_all, committed,
}

pub committed-ok :
    (s s' : Store) (r r' : ActionRecord) (kept : List ActionRecord)
    (answer : Option Bytes × Result HistoryError Bytes)
    → committed s r kept answer ≡ (s', ok r')
    → (file : Option Bytes) × (tail : Bytes) × (answer ≡ (file, ok tail))
      × (r ≡ r')
      × (s' ≡ record s {
        records = kept;
        next_index = s.next_index + 1;
        disk_format = v2;
        tail_aad = tail;
        file = file;
      })
committed-ok s s' r r' kept (file, err e) h = let bad : ⊥ = cc in absurd bad
committed-ok s s' r r' kept (file, ok tail) h =
    (file, tail, refl, ok_injective (ap (λ p. p.1) h), sym (ap (λ p. p.0) h))

drop_none : (n : ℕ) (rs : List ActionRecord) → n ≡ 0 → drop n rs ≡ rs
drop_none n rs e = ap (λ k. drop k rs) e

some_injective : {a b : Bytes} → some a ≡ some b → a ≡ b
some_injective h = cc

pub pair :
    {a b : Option Bytes} {x y : Bytes} → a ≡ b → x ≡ y → Path (Option Bytes × Bytes) (a, x) (b, y)
pair h k = cc

-- The number of records that an append keeps.
keep_from-few : (m n : ℕ) → n - keep_from m n ≤ m
unfolding keep_from evict_batch
keep_from-few m n = ground arith

keep_from-zero : (m n : ℕ) → keep_from m n ≡ 0 → n ≤ m
unfolding keep_from evict_batch
keep_from-zero m n h = ground arith

module _ (env : Environment) (entry : NewActionRecord) (s : Store) where
  abbrev pub added : ActionRecord
  added = new_record env entry s.next_index

  abbrev pub pushed : List ActionRecord
  pushed = s.records ++ added ∷ []

  abbrev pub keep : ℕ
  keep = keep_from s.max_records (length pushed)

  added_index : added.index ≡ s.next_index
  unfolding new_record
  added_index = refl

module _ (c : Cipher) (env : Environment) (key : Bytes) (law : IsCipher c) (nonces : HasNonces env)
    (entry : NewActionRecord) (s : Store) (coherent : IsCoherent c key s)
    (readable : IsStorable c (new_record env entry s.next_index)) where
  records_below : All (λ r. r.index < s.next_index) s.records
  records_below =
      subst (λ rs. All (λ r. r.index < s.next_index) rs) (sym coherent.kept)
        (All-drop (λ r. r.index < s.next_index) _ coherent.all coherent.below)

  records-IsStorable : All (IsStorable c) s.records
  records-IsStorable =
      subst (All (IsStorable c)) (sym coherent.kept)
        (All-drop (IsStorable c) _ coherent.all coherent.readable)

  All-below :
      (rs : List ActionRecord)
      → All (λ r. r.index < s.next_index) rs
      → All (λ r. r.index < s.next_index + 1) (rs ++ (added env entry s) ∷ [])
  All-below rs h =
      All-append (λ r. r.index < s.next_index + 1) rs _ (All-imp rs (λ r lt. omega (arith, lt)) h)
        (omega (arith, (added_index env entry s)), tt)

  goes_up :
      (rs : List ActionRecord)
      → All (λ r. r.index < s.next_index) rs
      → IsIncreasing none rs
      → IsIncreasing none (rs ++ (added env entry s) ∷ [])
  goes_up rs below up =
      IsIncreasing-append none rs (added env entry s) refl
        (All-imp rs (λ r lt. omega (arith, lt, (added_index env entry s))) below) up

  -- The store after a rewrite.
  pub rewritten-IsCoherent :
      (out tail : Bytes)
      → seal_all c env key 0 (magic_aad c) (drop (keep env entry s) (pushed env entry s))
        ≡ ok (out, tail)
      → IsCoherent c key (record s {
        records = drop (keep env entry s) (pushed env entry s);
        next_index = s.next_index + 1;
        disk_format = v2;
        tail_aad = tail;
        file = some (v2_magic ++ out);
      })
  rewritten-IsCoherent out tail sealed =
      let up : IsIncreasing none (drop (keep env entry s) (pushed env entry s)) =
        IsIncreasing-drop (keep env entry s) (pushed env entry s) (
          goes_up s.records records_below (
            subst (IsIncreasing none) (sym coherent.kept)
              (IsIncreasing-drop _ coherent.all coherent.increasing))) in
      let storable : All (IsStorable c) (drop (keep env entry s) (pushed env entry s)) =
        All-drop (IsStorable c) (keep env entry s) (pushed env entry s)
          (All-append (IsStorable c) s.records _ records-IsStorable (readable, tt)) in
      record {
        all = drop (keep env entry s) (pushed env entry s);
        out = out;
        increasing = up;
        below =
            All-drop (λ r. r.index < s.next_index + 1) (keep env entry s) (pushed env entry s)
              (All-below s.records records_below);
        readable = storable;
        kept = sym (
            drop_none _ (drop (keep env entry s) (pushed env entry s)) (
              omega (
                arith,
                length-drop (keep env entry s) (pushed env entry s),
                keep_from-few s.max_records (length (pushed env entry s)),
              )));
        on_disk = λ format. (
          refl,
          seal_all-IsSealed c env key law nonces 0 (magic_aad c) none
              (drop (keep env entry s) (pushed env entry s)) out tail storable up sealed,
        );
      }

  -- The store after an append.
  module _ (bytes frame : Bytes) (none_dropped : (keep env entry s) ≡ 0)
      (format : s.disk_format ≡ v2) (was : s.file ≡ some bytes)
      (seal : seal_frame c key (env.nonces 0) (added env entry s) s.tail_aad ≡ some frame) where
    all_kept : s.records ≡ coherent.all
    all_kept =
        let few = keep_from-zero s.max_records (length (pushed env entry s)) none_dropped in
        let size =
          ap length coherent.kept
          ∙ length-drop (length coherent.all - s.max_records) coherent.all in
        coherent.kept
        ∙ drop_none _ coherent.all
            (omega (arith, few, size, length-append s.records ((added env entry s) ∷ [])))

    appended_bytes : bytes ≡ v2_magic ++ coherent.out
    appended_bytes = some_injective (sym was ∙ (coherent.on_disk format).0)

    pushed_all :
        drop (keep env entry s) (pushed env entry s) ≡ coherent.all ++ (added env entry s) ∷ []
    pushed_all =
        drop_none (keep env entry s) (pushed env entry s) none_dropped
        ∙ ap (λ rs. rs ++ (added env entry s) ∷ []) all_kept

    pub appended-IsCoherent : IsCoherent c key (record s {
      records = drop (keep env entry s) (pushed env entry s);
      next_index = s.next_index + 1;
      disk_format = v2;
      tail_aad = frame_aad c frame;
      file = some (bytes ++ frame);
    })
    appended-IsCoherent = record {
      all = coherent.all ++ (added env entry s) ∷ [];
      out = coherent.out ++ frame;
      increasing = goes_up coherent.all coherent.below coherent.increasing;
      below = All-below coherent.all coherent.below;
      readable = All-append (IsStorable c) coherent.all _ coherent.readable (readable, tt);
      kept =
          pushed_all
          ∙ sym (
              drop_none _ (coherent.all ++ (added env entry s) ∷ []) (
                omega (
                  arith,
                  keep_from-zero s.max_records (length (pushed env entry s)) none_dropped,
                  ap length (sym pushed_all),
                  ap length (drop_none (keep env entry s) (pushed env entry s) none_dropped),
                )));
      on_disk = λ f. (
        ap (λ bs. some (bs ++ frame)) appended_bytes,
        IsSealed-append c key (magic_aad c) (env.nonces 0) frame none coherent.all
            (added env entry s) coherent.out s.tail_aad (nonces 0) seal
            (seal_frame-small c key (env.nonces 0) s.tail_aad frame (added env entry s) law readable
              (nonces 0) seal)
            refl
            (All-imp coherent.all (λ r lt. omega (arith, lt, (added_index env entry s)))
              coherent.below)
            (coherent.on_disk format).1,
      );
    }
