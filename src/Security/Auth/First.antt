-- ===== src/Security/Auth/First.antt =====
-- Authentication against the configuration: the first well-formed record of a key decides.
use ultranix_mcp.Prelude.{
  if◌then◌else◌, ◌==◌, nat_eq, string_eq, Bool-cases, length, take, find, contains, Result, err, ℕ,
  String, ◌≡◌, refl, sym, ap, ◌∙◌, ◌≢◌, inl, inr, Bool, true, false, ◌&&◌, Option, none, some, List,
  [], ◌∷◌, arith,
}
use ultranix_mcp.Prelude.Texts.{trim}
use ultranix_mcp.Security.Hashing.{Hashing}
use ultranix_mcp.Security.Auth.Compare.{ct_eq, ct_eq_iff}
use ultranix_mcp.Security.Auth.Keys.{
  required, KeyIdentity, AuthFailure, missing, malformed, RawRecord, StoredKey, is_valid_key,
  bytes_eq, beq_bytes_iff, is_skipped, stored, records_from, records_to_keys,
}
use ultranix_mcp.Security.Auth.Gate.{
  extract_credential, last_match, verdict, check_presented, authenticate_verbose,
}

-- SHA-256 answers 32 bytes.
abbrev pub IsDigest : Hashing → Type 0
IsDigest h = (s : String) → length (h.sha256 s) ≡ 32

module _ (h : Hashing) where
  -- The record is well-formed and its key has the digest.
  abbrev pub is_record : List ℕ → RawRecord → Bool
  is_record hash r = is_valid_key (trim r.key) && (h.sha256 (trim r.key) == hash)

  abbrev pub kept : Option RawRecord → Option StoredKey → Option StoredKey
  kept none found = found
  kept (some r) found = some (stored h r)

  -- The answer that the configured records give to a presented credential.
  abbrev pub answer : ℕ → List RawRecord → Option String → Result AuthFailure KeyIdentity
  answer now records none = err missing
  answer now records (some presented) =
      if is_valid_key presented
      then verdict now (kept (find (is_record (h.sha256 presented)) records) none)
      else err malformed

  module _ (digest : IsDigest h) (p : String) where
    pub ct_eq-same : (s : String) → ct_eq (h.sha256 p) (h.sha256 s) ≡ (h.sha256 s == h.sha256 p)
    ct_eq-same s =
        let lengths : length (h.sha256 p) ≡ length (h.sha256 s) = digest p ∙ sym (digest s) in
        let (to, from) = ct_eq_iff (h.sha256 p) (h.sha256 s) lengths in
        let (to₂, from₂) = beq_bytes_iff (h.sha256 s) (h.sha256 p) in
        elim (Bool-cases (h.sha256 s == h.sha256 p)) [
          | inl e ↦ rw e (from (sym (to₂ e)))
          | inr e ↦ elim (Bool-cases (ct_eq (h.sha256 p) (h.sha256 s))) [
            | inl f ↦ let yes = from₂ (sym (to f)) in cc
            | inr f ↦ cc
          ]
        ]

    -- Two digests of which one has been seen and the other not are different.
    seen_differs :
        (seen : List (List ℕ)) (s : String) (a b : Bool)
        → contains seen (h.sha256 p) ≡ a
        → contains seen (h.sha256 s) ≡ b
        → a ≢ b
        → (h.sha256 s == h.sha256 p) ≡ false
    seen_differs seen s a b ha hb apart = elim (Bool-cases (h.sha256 s == h.sha256 p)) [
      | inl e ↦
          let same = (beq_bytes_iff (h.sha256 s) (h.sha256 p)).0 e in
          absurd (apart (sym ha ∙ ap (contains seen) (sym same) ∙ hb))
      | inr e ↦ e
    ]

    not_skipped :
        (seen : List (List ℕ)) (r : RawRecord)
        → is_skipped h seen r ≡ false
        → (is_valid_key (trim r.key) ≡ true) × (contains seen (h.sha256 (trim r.key)) ≡ false)
    not_skipped seen r take = (ground arith, ground arith)

    last_match-taken :
        (found : Option StoredKey) (seen : List (List ℕ)) (r : RawRecord) (records : List RawRecord)
        → is_skipped h seen r ≡ false
        → last_match (h.sha256 p) found (records_from h seen (r ∷ records))
          ≡ last_match
              (h.sha256 p)
              (if h.sha256 (trim r.key) == h.sha256 p then some (stored h r) else found)
              (records_from h (h.sha256 (trim r.key) ∷ seen) records)
    unfolding last_match records_from
    last_match-taken found seen r records e = rw e (
        ap
          (λ b.
            last_match (h.sha256 p) (if b then some (stored h r) else found)
              (records_from h (h.sha256 (trim r.key) ∷ seen) records))
          (ct_eq-same (trim r.key)))

    last_match-passed :
        (found : Option StoredKey) (seen : List (List ℕ)) (r : RawRecord) (records : List RawRecord)
        → is_skipped h seen r ≡ true
        → last_match (h.sha256 p) found (records_from h seen (r ∷ records))
          ≡ last_match (h.sha256 p) found (records_from h seen records)
    unfolding records_from
    last_match-passed found seen r records e = rw e refl

    -- A key that has been seen is not found again.
    last_match-seen :
        (found : Option StoredKey) (seen : List (List ℕ)) (records : List RawRecord)
        → contains seen (h.sha256 p) ≡ true
        → last_match (h.sha256 p) found (records_from h seen records) ≡ found
    unfolding last_match records_from
    last_match-seen found seen [] old = refl
    last_match-seen found seen (r ∷ records) old = elim (Bool-cases (is_skipped h seen r)) [
      | inl skip ↦
          rw (last_match-passed found seen r records skip) (last_match-seen found seen records old)
      | inr kept_on ↦
          let s = trim r.key in
          let new = (not_skipped seen r kept_on).1 in
          let other = seen_differs seen s true false old new (λ e. cc) in
          rw (last_match-taken found seen r records kept_on, other)
            (last_match-seen found (h.sha256 s ∷ seen) records (rw (other, old) refl))
    ]

    -- The key set that the records give finds what the first well-formed record of the key says.
    last_match-records :
        (found : Option StoredKey) (seen : List (List ℕ)) (records : List RawRecord)
        → contains seen (h.sha256 p) ≡ false
        → last_match (h.sha256 p) found (records_from h seen records)
          ≡ kept (find (is_record (h.sha256 p)) records) found
    unfolding last_match records_from
    last_match-records found seen [] new = refl
    last_match-records found seen (r ∷ records) new = elim (Bool-cases (is_skipped h seen r)) [
      | inl skip ↦
          rw (last_match-passed found seen r records skip, passed_over seen r new skip)
            (last_match-records found seen records new)
      | inr kept_on ↦
          let s = trim r.key in
          let (valid, unseen) = not_skipped seen r kept_on in
          elim (Bool-cases (h.sha256 s == h.sha256 p)) [
            | inl here ↦
                rw (last_match-taken found seen r records kept_on, valid, here)
                  (last_match-seen (some (stored h r)) (h.sha256 s ∷ seen) records (rw here refl))
            | inr there ↦
                rw (last_match-taken found seen r records kept_on, valid, there)
                  (last_match-records found (h.sha256 s ∷ seen) records (rw (there, new) refl))
          ]
    ]
      where
        passed_over :
            (seen : List (List ℕ)) (r : RawRecord)
            → contains seen (h.sha256 p) ≡ false
            → is_skipped h seen r ≡ true
            → is_record (h.sha256 p) r ≡ false
        passed_over seen r new skip = elim (Bool-cases (is_valid_key (trim r.key))) [
          | inl valid ↦
              let old : contains seen (h.sha256 (trim r.key)) ≡ true = ground arith in
              rw (valid, seen_differs seen (trim r.key) false true new old (λ e. cc)) refl
          | inr invalid ↦ rw invalid refl
        ]

  check_presented-records :
      (digest : IsDigest h) (now : ℕ) (records : List RawRecord) (credential : Option String)
      → check_presented h now (records_to_keys h records) credential ≡ answer now records credential
  unfolding records_to_keys
  check_presented-records digest now records none = refl
  check_presented-records digest now records (some p) =
      rw (last_match-records digest p none [] records refl) refl

-- Where authentication is required, it answers as the configured records read in order do: the first
-- well-formed record whose key has the presented credential's digest decides, with its expiry and its
-- scopes. Later records of the key change nothing, malformed ones admit nothing, and without a
-- record of the key the request fails.
pub authenticate_verbose_refines :
    (h : Hashing) (records : List RawRecord) (header_key bearer : Option String) (now : ℕ)
    → IsDigest h
    → authenticate_verbose h
        (record { mode = required; keys = records_to_keys h records })
        header_key
        bearer
        now
      ≡ answer h now records (extract_credential header_key bearer)
unfolding authenticate_verbose
authenticate_verbose_refines h records header_key bearer now digest =
    check_presented-records h digest now records (extract_credential header_key bearer)
