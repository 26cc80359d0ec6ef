-- ===== src/Security/Auth/Listing.antt =====
-- src/security/auth.rs: what the loading of keys takes from outside, and the records of the
-- environment's list and of lines. The environment, the file system, JSON and RFC 3339 are other
-- code's; warnings change nothing and are left out.
use ultranix_mcp.Prelude.{
  if◌then◌else◌, ◌==◌, nat_eq, string_eq, option_beq, get_elem?, retain, ℕ, suc, code, String, Bool,
  not, ◌||◌, Option, none, some, List, [], ◌∷◌, ◌++◌, map, foldl,
}
use ultranix_mcp.Prelude.Texts.{
  is_empty_text, is_whitespace, push_char, trim, split, split_once, starts_with,
}
use ultranix_mcp.Json.{Value}
use ultranix_mcp.Security.Auth.Keys.{RawRecord}
use ultranix_mcp.Security.Auth.Gate.{strip_ignoring_case}

-- serde's `JsonKeyRecord`
pub record JsonKeyRecord : Type 0 where
  pub key : String
  pub key_id : Option String
  pub expires_at : Option String
  pub scopes : Option (List String)

pub data LoadError : Type 0 where
  stat_failed : String → LoadError
  not_private : String → LoadError
  read_failed : String → LoadError
  not_json : String → LoadError
  not_records : String → LoadError
  bad_record : String → ℕ → LoadError
  bad_expiry : String → ℕ → LoadError

-- `var` is a variable of the environment, `stat` a file's mode bits, `read_dir` the files of a folder
-- whose extension is `json`, `from_rfc3339` an instant in UTC.
pub record Environment : Type 0 where
  pub var : String → Option String
  pub stat : String → Option ℕ
  pub read_to_string : String → Option String
  pub read_dir : String → Option (List String)
  pub from_rfc3339 : String → Option ℕ
  pub from_str : String → Option Value
  pub from_value : Value → Option JsonKeyRecord

-- `true` in any case, or `1`
unfoldable pub is_truthy : String → Bool
is_truthy v =
    let s = trim v in
    let rest = strip_ignoring_case "true" s in option_beq rest (some "") || s == "1"

module _ (e : Environment) where
  unfoldable pub parse_rfc3339 : String → Option ℕ
  parse_rfc3339 s = e.from_rfc3339 (trim s)

  abbrev expiry_entry : String → Option ℕ
  expiry_entry s = if is_empty_text (trim s) then none else parse_rfc3339 (trim s)

  abbrev expiries : Option String → List (Option ℕ)
  expiries none = []
  expiries (some l) = map expiry_entry (split 44 l)

  abbrev flat : Option (Option ℕ) → Option ℕ
  flat none = none
  flat (some o) = o

  -- The keys of the list with the expiries at their positions, blank entries counted and then dropped.
  unfoldable pub env_records : ℕ → List (Option ℕ) → List String → List RawRecord
  env_records i expires [] = []
  env_records i expires (k ∷ ks) =
      let rest = env_records (suc i) expires ks in
      if is_empty_text (trim k)
      then rest
      else record {
        key = trim k;
        declared_key_id = none;
        expires_at = flat (get_elem? expires i);
        scopes = [];
      }
        ∷ rest

  unfoldable pub parse_env_records : String → Option String → List RawRecord
  unfolding env_records
  parse_env_records list expires_list = env_records 0 (expiries expires_list) (split 44 list)

  abbrev flush_word : String → List String
  flush_word word = if is_empty_text word then [] else word ∷ []

  -- `split_whitespace`, with the word so far
  unfoldable pub words : String → String → List String
  words word String.[] = flush_word word
  words word (String.◌∷◌ c s) =
      let space = is_whitespace (code c) in
      let rest = words (if space then "" else push_char word c) s in
      if space then flush_word word ++ rest else rest

  abbrev or_kept : Option ℕ → Option ℕ → Option ℕ
  or_kept none old = old
  or_kept (some t) old = some t

  abbrev with_field : RawRecord → Option (String × String) → RawRecord
  with_field r none = r
  with_field r (some (name, v)) =
      if name == "expires"
      then record r { expires_at = or_kept (parse_rfc3339 v) r.expires_at }
      else if name == "key_id"
      then record r { declared_key_id = some v }
      else if name == "scopes"
      then record r { scopes = retain (λ s. not (is_empty_text s)) (map trim (split 44 v)) }
      else r

  abbrev line_record : List String → RawRecord
  line_record [] = record { key = ""; declared_key_id = none; expires_at = none; scopes = [] }
  line_record (key ∷ fields) =
      foldl (λ r tok. with_field r (split_once 61 tok))
        (record { key = key; declared_key_id = none; expires_at = none; scopes = [] }) fields

  -- Lines are cut at the line feed: what `lines` takes off a line besides is trimmed here, and a last
  -- empty line is blank.
  unfoldable pub line_records : List String → List RawRecord
  unfolding words
  line_records [] = []
  line_records (raw ∷ lines) =
      let line = trim raw in
      let rest = line_records lines in
      if is_empty_text line || starts_with "#" line
      then rest
      else line_record (words "" line) ∷ rest

  unfoldable pub parse_line_records : String → List RawRecord
  unfolding line_records
  parse_line_records content = line_records (split 10 content)
