-- ===== src/Examples/Keys.antt =====
-- API keys at a concrete key set.
use ultranix_mcp.Prelude.{
  if◌then◌else◌, ◌==◌, nat_eq, string_eq, All, ok, is_ok, ℕ, zero, suc, String, ◌≡◌, refl, false,
  none, some, List, [], ◌∷◌, arith,
}
use ultranix_mcp.Prelude.Texts.{trim, trim_start, trim_end}
use ultranix_mcp.Security.Hashing.{Hashing, hex}
use ultranix_mcp.Security.Auth.Keys.{
  required, RawRecord, ApiKeyStore, bytes_eq, key_id, records_to_keys,
}
use ultranix_mcp.Security.Auth.Gate.{extract_credential, authenticate_verbose, keygen, rotate}
use ultranix_mcp.Security.Auth.Format.{IsByte}
use ultranix_mcp.Security.Auth.First.{IsDigest, answer, authenticate_verbose_refines}
use ultranix_mcp.Security.Auth.Rotation.{rotate_overlap}

abbrev held : String
held = "uxcp_0000000000000000000000000000000000000000000000000000000000000000"

abbrev copies : ℕ → List ℕ
copies zero = []
copies (suc n) = 0 ∷ copies n

abbrev zeros : List ℕ
zeros = copies 31

copies_bytes : (n : ℕ) → All IsByte (copies n)
copies_bytes zero = tt
copies_bytes (suc n) = (omega arith, copies_bytes n)

-- The held key's digest differs from every other.
abbrev digests : Hashing
digests = record { sha256 = λ s. (if s == held then 1 else 0) ∷ zeros; quote = λ s. s }

digests-IsDigest : IsDigest digests
digests-IsDigest s = refl

abbrev records : List RawRecord
records = record { key = held; declared_key_id = none; expires_at = some 500; scopes = [] } ∷ []

authenticate_verbose_refines_example :
    authenticate_verbose digests
      (record { mode = required; keys = records_to_keys digests records })
      (some held)
      none
      10
    ≡ answer digests 10 records (extract_credential (some held) none)
authenticate_verbose_refines_example =
    authenticate_verbose_refines digests records (some held) none 10 digests-IsDigest

abbrev store : ApiKeyStore
store = record {
  mode = required;
  keys =
      record { hash = digests.sha256 held; key_id = "01000000"; expires_at = none; scopes = [] }
      ∷ [];
}

abbrev new_key : String
new_key = "uxcp_0100000000000000000000000000000000000000000000000000000000000000"

held_extracted : extract_credential (some held) none ≡ some held
unfolding extract_credential trim trim_start trim_end
held_extracted = refl

new_extracted : extract_credential (some new_key) none ≡ some (keygen (1 ∷ zeros))
unfolding extract_credential trim trim_start trim_end keygen hex
new_extracted = refl

new_differs : (digests.sha256 (keygen (1 ∷ zeros)) == digests.sha256 held) ≡ false
unfolding keygen hex
new_differs = refl

rotate_overlap_example :
    (authenticate_verbose digests
        (rotate digests 1000 100 50 (1 ∷ zeros) store).0
        (some held)
        none
        120
      ≡ authenticate_verbose digests store (some held) none 120)
    × (is_ok (
          authenticate_verbose digests
            (rotate digests 1000 100 50 (1 ∷ zeros) store).0
            (some held)
            none
            200)
        ≡ false)
    × (authenticate_verbose digests
          (rotate digests 1000 100 50 (1 ∷ zeros) store).0
          (some new_key)
          none
          110
        ≡ ok (record { key_id = some (key_id digests (keygen (1 ∷ zeros))); scopes = [] }))
rotate_overlap_example =
    rotate_overlap digests digests-IsDigest 1000 100 50 (1 ∷ zeros) store (some held) none
      (some new_key) none held 120 200 110 refl held_extracted new_extracted new_differs refl
      (omega arith, copies_bytes 31) (omega arith) (omega arith)
