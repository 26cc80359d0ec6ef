-- ===== src/History/Reopening.antt =====
-- Opening the store again on what the disk holds.
use ultranix_mcp.Prelude.{
  nat_eq, string_eq, length, drop, All, ok, ℕ, ◌-◌, ◌≡◌, refl, sym, ap, ◌∙◌, Option, none, some,
  List, ◌++◌,
}
use ultranix_mcp.History.Records.{
  Bytes, ActionRecord, NewActionRecord, Cipher, IsCipher, IsStorable, v2_magic,
}
use ultranix_mcp.History.Frames.{magic_aad}
use ultranix_mcp.History.Framing.{IsSealed, parse_frames-sealed}
use ultranix_mcp.History.Sealing.{HasNonces}
use ultranix_mcp.History.Coherence.{IsCoherent}
use ultranix_mcp.History.Recording.{append_record-IsCoherent}
use ultranix_mcp.History.Opening.{load_bytes, loaded}
use ultranix_mcp.History.Store.{Store, v2, Environment, new_record, append_record}

module _ (c : Cipher) (payload : Bytes → Option (ℕ × List ActionRecord)) (key : Bytes)
    (law : IsCipher c) where
  -- Reading a coherent store's file back gives its records.
  load_bytes-framed :
      (fresh : Store) (rs : List ActionRecord) (out tail : Bytes)
      → All (IsStorable c) rs
      → IsSealed c key (magic_aad c) none rs out tail
      → load_bytes c payload fresh key (v2_magic ++ out) ≡ ok (loaded c payload v2 tail fresh rs)
  unfolding load_bytes
  load_bytes-framed fresh rs out tail read sealed =
      rw (parse_frames-sealed c key rs out tail law read sealed) refl

  -- A record that succeeds survives a restart: opening the file that a coherent store leaves, with
  -- the same key and cap, gives exactly the records in memory and the same end of the chain.
  -- Nonces have their length, the cipher gives back what it encrypts, and the record is read back
  -- from its JSON and fits a frame of less than 4 GiB.
  pub append_record-load_bytes :
      (env : Environment) (entry : NewActionRecord) (s s' fresh : Store) (r : ActionRecord)
      → HasNonces env
      → IsCoherent c key s
      → IsStorable c (new_record env entry s.next_index)
      → fresh.max_records ≡ s.max_records
      → append_record c env key entry s ≡ (s', ok r)
      → (bytes : Bytes) × (opened : Store) × (s'.file ≡ some bytes)
        × (load_bytes c payload fresh key bytes ≡ ok opened)
        × (opened.records ≡ s'.records)
        × (opened.tail_aad ≡ s'.tail_aad)
  append_record-load_bytes env entry s s' fresh r nonces coherent readable cap h =
      let (kept, format, index, next, same) =
        append_record-IsCoherent c env key law nonces entry s coherent readable s' r h in
      let (file, sealed) = kept.on_disk format in
      (
        v2_magic ++ kept.out,
        loaded c payload v2 s'.tail_aad fresh kept.all,
        file,
        load_bytes-framed fresh kept.all kept.out s'.tail_aad kept.readable sealed,
        ap (λ m. drop (length kept.all - m) kept.all) (cap ∙ sym same) ∙ sym kept.kept,
        refl,
      )
