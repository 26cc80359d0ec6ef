-- ===== src/History/Coherence.antt =====
-- A coherent store, and what a successful write leaves on disk.
use ultranix_mcp.Prelude.{
  ltb, nat_eq, string_eq, Bool-cases, length, drop, All, Result, ok, err, ℕ, ◌-◌, ◌<◌, ◌≡◌, refl,
  ◌⊎◌, inl, inr, Bool, true, not, ◌&&◌, ◌||◌, Option, none, some, List, ◌++◌, arith,
}
use ultranix_mcp.History.Records.{Bytes, ActionRecord, Cipher, IsStorable, v2_magic}
use ultranix_mcp.History.Frames.{magic_aad, frame_aad, seal_frame}
use ultranix_mcp.History.Framing.{IsSealed}
use ultranix_mcp.History.Sealing.{IsIncreasing}
use ultranix_mcp.History.Store.{
  Store, DiskFormat, absent, v1, v2, is_v2, names_path, Environment, HistoryError, seal_all,
  replaced, persist_v2, append_frame, extended, or_rewrite, persist,
}

-- The store's records are the last of those that its disk holds, in a sealed stream when the layout is
-- the second; their indices go up and lie below the next one.
pub record IsCoherent (c : Cipher) (key : Bytes) (s : Store) : Type 0 where
  pub all : List ActionRecord
  pub out : Bytes
  pub increasing : IsIncreasing none all
  pub below : All (λ r. r.index < s.next_index) all
  pub readable : All (IsStorable c) all
  pub kept : s.records ≡ drop (length all - s.max_records) all
  pub on_disk :
      s.disk_format ≡ v2
      → (s.file ≡ some (v2_magic ++ out)) × IsSealed c key (magic_aad c) none all out s.tail_aad

is_v2_sound : (d : DiskFormat) → is_v2 d ≡ true → d ≡ v2
is_v2_sound v2 h = refl
is_v2_sound v1 h = cc
is_v2_sound absent h = cc

module _ (c : Cipher) (env : Environment) (key : Bytes) where
  replaced-ok :
      (file file' : Option Bytes) (o : Result HistoryError (Bytes × Bytes)) (tail : Bytes)
      → replaced c env key file o ≡ (file', ok tail)
      → (out : Bytes) × (o ≡ ok (out, tail)) × (file' ≡ some (v2_magic ++ out))
  replaced-ok file file' (err e) tail h = let bad : ⊥ = cc in absurd bad
  replaced-ok file file' (ok (out, end)) tail h = elim (Bool-cases env.rewritten) [
    | inr e ↦ let bad : ⊥ = ground arith in absurd bad
    | inl e ↦ elim (Bool-cases env.chmod) [
      | inr f ↦ let bad : ⊥ = ground arith in absurd bad
      | inl f ↦ (out, ground arith, ground arith)
    ]
  ]

  extended-ok :
      (file file' : Option Bytes) (o : Option Bytes) (tail : Bytes)
      → extended c env key file o ≡ (file', ok tail)
      → (bytes : Bytes) × (frame : Bytes) × (file ≡ some bytes)
        × (o ≡ some frame)
        × (file' ≡ some (bytes ++ frame))
        × (tail ≡ frame_aad c frame)
  extended-ok file file' none tail h = let bad : ⊥ = cc in absurd bad
  extended-ok none file' (some frame) tail h = let bad : ⊥ = cc in absurd bad
  extended-ok (some bytes) file' (some frame) tail h = elim (Bool-cases env.file_opens) [
    | inr e ↦ let bad : ⊥ = ground arith in absurd bad
    | inl e ↦ elim (Bool-cases env.appended) [
      | inr f ↦ let bad : ⊥ = ground arith in absurd bad
      | inl f ↦ elim (Bool-cases env.chmod) [
        | inr g ↦ let bad : ⊥ = ground arith in absurd bad
        | inl g ↦ (bytes, frame, refl, refl, ground arith, ground arith)
      ]
    ]
  ]

  or_rewrite-ok :
      (says : Bool) (rs : List ActionRecord) (answer : Option Bytes × Result HistoryError Bytes)
      (file' : Option Bytes) (tail : Bytes)
      → or_rewrite c env key says rs answer ≡ (file', ok tail)
      → (answer ≡ (file', ok tail)) ⊎ (persist_v2 c env key answer.0 rs ≡ (file', ok tail))
  or_rewrite-ok says rs (file, ok t) file' tail h = inl h
  or_rewrite-ok says rs (file, err e) file' tail h = elim (Bool-cases (says && names_path e)) [
    | inl m ↦ inr (rw m at h)
    | inr m ↦ let bad : ⊥ = ground arith in absurd bad
  ]

  -- A write that succeeds has rewritten the file with the kept records or, with no eviction and on the
  -- second layout, appended the new record's frame.
  pub persist-ok :
      (s : Store) (keep : ℕ) (pushed : List ActionRecord) (r : ActionRecord) (file' : Option Bytes)
      (tail : Bytes)
      → persist c env key s keep pushed r ≡ (file', ok tail)
      → ((out : Bytes) × (seal_all c env key 0 (magic_aad c) (drop keep pushed) ≡ ok (out, tail))
          × (file' ≡ some (v2_magic ++ out)))
        ⊎ ((bytes : Bytes) × (frame : Bytes) × (keep ≡ 0)
            × (s.disk_format ≡ v2)
            × (s.file ≡ some bytes)
            × (seal_frame c key (env.nonces 0) r s.tail_aad ≡ some frame)
            × (file' ≡ some (bytes ++ frame))
            × (tail ≡ frame_aad c frame))
  unfolding persist persist_v2 append_frame
  persist-ok s keep pushed r file' tail h =
      elim (Bool-cases (ltb 0 keep || not (is_v2 s.disk_format))) [
        | inl e ↦ inl (replaced-ok s.file file' _ tail (rw e at h))
        | inr e ↦
            elim (or_rewrite-ok env.path_says (drop keep pushed)
              (append_frame c env key s.file r s.tail_aad) file' tail (rw e at h)) [
                | inr again ↦ inl (replaced-ok _ file' _ tail again)
                | inl done ↦
                    let (bytes, frame, was, seal, now, end) =
                      extended-ok s.file file' _ tail done in
                    inr (
                      bytes,
                      frame,
                      ground arith,
                      is_v2_sound s.disk_format (ground arith),
                      was,
                      seal,
                      now,
                      end,
                    )
              ]
      ]
