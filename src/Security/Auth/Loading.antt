-- ===== src/Security/Auth/Loading.antt =====
-- src/security/auth.rs: key files, the folder of keys, and which source is read.
use ultranix_mcp.Prelude.{
  nat_beq, if◌then◌else◌, nat_eq, string_eq, is_empty, Result, ok, err, ◌>>=◌, ◌>>◌, ok_or, ensure,
  ℕ, suc, ◌%◌, String, Bool, false, not, ◌||◌, Option, none, some, List, [], ◌∷◌, ◌++◌,
}
use ultranix_mcp.Prelude.Texts.{is_empty_text, trim_start, starts_with}
use ultranix_mcp.Prelude.Sorting.{sort, text_le}
use ultranix_mcp.Json.{Value, array, object, items}
use ultranix_mcp.Security.Hashing.{Hashing}
use ultranix_mcp.Security.Auth.Keys.{
  AuthMode, required, disabled, RawRecord, ApiKeyStore, records_to_keys,
}
use ultranix_mcp.Security.Auth.Listing.{
  LoadError, stat_failed, not_private, read_failed, not_json, not_records, bad_record, bad_expiry,
  Environment, is_truthy, parse_rfc3339, parse_env_records, parse_line_records,
}

module _ (e : Environment) where
  abbrev expiry_of : String → ℕ → Option String → Result LoadError (Option ℕ)
  expiry_of source i none = ok none
  expiry_of source i (some s) = ok_or (parse_rfc3339 e s) (bad_expiry source i) >>= λ t. ok (some t)

  abbrev or_unscoped : Option (List String) → List String
  or_unscoped none = []
  or_unscoped (some scopes) = scopes

  unfoldable pub json_record : String → ℕ → Value → Result LoadError RawRecord
  json_record source i v = do
    r ← ok_or (e.from_value v) (bad_record source i)
    t ← expiry_of source i r.expires_at
    ok (record {
      key = r.key;
      declared_key_id = r.key_id;
      expires_at = t;
      scopes = or_unscoped r.scopes;
    })

  unfoldable pub json_records : String → ℕ → List Value → Result LoadError (List RawRecord)
  unfolding json_record
  json_records source i [] = ok []
  json_records source i (v ∷ vs) = do
    r ← json_record source i v
    rs ← json_records source (suc i) vs
    ok (r ∷ rs)

  abbrev record_items : String → Value → Result LoadError (List Value)
  record_items source (array vs) = ok (items vs)
  record_items source (object ms) = ok (object ms ∷ [])
  record_items source v = err (not_records source)

  unfoldable pub parse_json_records : String → String → Result LoadError (List RawRecord)
  unfolding json_records
  parse_json_records content source = do
    value ← ok_or (e.from_str content) (not_json source)
    vs ← record_items source value
    json_records source 0 vs

  unfoldable pub parse_key_records : String → String → Result LoadError (List RawRecord)
  unfolding parse_json_records parse_line_records
  parse_key_records content source =
      let t = trim_start content in
      if starts_with "{" t || starts_with "[" t
      then parse_json_records t source
      else ok (parse_line_records e content)

  -- `mode() & 0o777`, and of that `& 0o077`: the low nine bits, and of these the low six
  unfoldable pub enforce_private_file : String → Result LoadError (Unit {0})
  enforce_private_file path = do
    mode ← ok_or (e.stat path) (stat_failed path)
    ensure (nat_beq (mode % 512 % 64) 0) (not_private path)

  unfoldable pub load_key_file : String → Result LoadError (List RawRecord)
  unfolding enforce_private_file parse_key_records
  load_key_file path = do
    enforce_private_file path
    content ← ok_or (e.read_to_string path) (read_failed path)
    parse_key_records content path

  unfoldable pub load_key_files : List String → Result LoadError (List RawRecord)
  unfolding load_key_file
  load_key_files [] = ok []
  load_key_files (path ∷ paths) = do
    here ← load_key_file path
    rest ← load_key_files paths
    ok (here ++ rest)

  unfoldable pub load_key_dir : String → Result LoadError (List RawRecord)
  unfolding load_key_files
  load_key_dir dir = do
    files ← ok_or (e.read_dir dir) (read_failed dir)
    load_key_files (sort text_le files)

  abbrev has_files : Option (List String) → Bool
  has_files none = false
  has_files (some files) = not (is_empty files)

  unfoldable pub dir_has_json : String → Bool
  dir_has_json dir = has_files (e.read_dir dir)

  abbrev non_empty_text : Option String → Option String
  non_empty_text none = none
  non_empty_text (some v) = if is_empty_text v then none else some v

  abbrev non_empty : String → Option String
  non_empty key = non_empty_text (e.var key)

  abbrev mode_of : Option String → AuthMode
  mode_of none = required
  mode_of (some v) = if is_truthy v then disabled else required

  -- The variable goes before the file, and the file before the folder of the state.
  abbrev sources : Option String → Option String → String → Result LoadError (List RawRecord)
  sources (some list) file dir =
      ok (parse_env_records e list (non_empty "ULTRANIX_MCP_API_KEY_EXPIRES"))
  sources none (some path) dir = load_key_file path
  sources none none dir = if dir_has_json dir then load_key_dir dir else ok []

  -- `key_dir` is the folder `api-keys` of the state root.
  unfoldable pub load : Hashing → String → Result LoadError ApiKeyStore
  unfolding parse_env_records load_key_file load_key_dir dir_has_json is_truthy
  load h key_dir = do
    raw ← sources (non_empty "ULTRANIX_MCP_API_KEY") (non_empty "ULTRANIX_MCP_API_KEY_FILE") key_dir
    ok (record {
      mode = mode_of (non_empty "ULTRANIX_MCP_DISABLE_AUTH");
      keys = records_to_keys h raw;
    })
