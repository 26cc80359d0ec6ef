-- ===== src/History/Recording.antt =====
-- Memory and disk after an action is recorded.
use ultranix_mcp.Prelude.{nat_eq, string_eq, drop, ok, ◌+◌, ◌≡◌, sym, ap, subst, inl, inr, Option}
use ultranix_mcp.History.Records.{
  Bytes, ActionRecord, NewActionRecord, Cipher, IsCipher, IsStorable,
}
use ultranix_mcp.History.Sealing.{HasNonces}
use ultranix_mcp.History.Coherence.{IsCoherent, persist-ok}
use ultranix_mcp.History.Store.{Store, v2, Environment, new_record, persist, append_record}
use ultranix_mcp.History.Appending.{
  committed-ok, pair, rewritten-IsCoherent, appended-IsCoherent, added, pushed, keep,
}

module _ (c : Cipher) (env : Environment) (key : Bytes) (law : IsCipher c) (nonces : HasNonces env)
    (entry : NewActionRecord) (s : Store) (coherent : IsCoherent c key s)
    (readable : IsStorable c (new_record env entry s.next_index)) where
  persisted-IsCoherent :
      (file : Option Bytes) (tail : Bytes)
      → persist c env key s (keep env entry s) (pushed env entry s) (added env entry s)
        ≡ (file, ok tail)
      → IsCoherent c key (record s {
        records = drop (keep env entry s) (pushed env entry s);
        next_index = s.next_index + 1;
        disk_format = v2;
        tail_aad = tail;
        file = file;
      })
  persisted-IsCoherent file tail wrote =
      elim (persist-ok c env key s (keep env entry s) (pushed env entry s) (added env entry s) file
        tail wrote) [
          | inl (out, sealed, now) ↦
              subst
                (λ f. IsCoherent c key (record s {
                  records = drop (keep env entry s) (pushed env entry s);
                  next_index = s.next_index + 1;
                  disk_format = v2;
                  tail_aad = tail;
                  file = f;
                }))
                (sym now)
                (rewritten-IsCoherent c env key law nonces entry s coherent readable out tail
                  sealed)
          | inr (bytes, frame, none_dropped, format, was, seal, now, end) ↦
              subst
                (λ ft. IsCoherent c key (record s {
                  records = drop (keep env entry s) (pushed env entry s);
                  next_index = s.next_index + 1;
                  disk_format = v2;
                  tail_aad = ft.1;
                  file = ft.0;
                }))
                (pair (sym now) (sym end))
                (appended-IsCoherent c env key law nonces entry s coherent readable bytes frame
                  none_dropped format was seal)
        ]

  -- A record that succeeds on a coherent store leaves memory and disk coherent, on the second
  -- layout, and takes the next index. Nonces have their length, the cipher gives back what it
  -- encrypts, and the record is read back from its JSON and fits a frame of less than 4 GiB.
  pub append_record-IsCoherent :
      (s' : Store) (r : ActionRecord)
      → append_record c env key entry s ≡ (s', ok r)
      → IsCoherent c key s'
        × (s'.disk_format ≡ v2)
        × (r.index ≡ s.next_index)
        × (s'.next_index ≡ s.next_index + 1)
        × (s'.max_records ≡ s.max_records)
  unfolding append_record new_record
  append_record-IsCoherent s' r h =
      let (file, tail, wrote, same, after) = committed-ok s s' _ r _ _ h in
      (
        subst (IsCoherent c key) (sym after) (persisted-IsCoherent file tail wrote),
        ap (λ u. u.disk_format) after,
        sym (ap (λ x. x.index) same),
        ap (λ u. u.next_index) after,
        ap (λ u. u.max_records) after,
      )
