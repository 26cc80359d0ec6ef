-- ===== src/Plugins/Grammar.antt =====
-- src/plugins.rs: the grammars of names and versions. The source tests bytes; a character beyond
-- ASCII has only bytes that fail the tests, and its code fails them here.
use ultranix_mcp.Prelude.{
  leb, nat_beq, nat_eq, string_eq, all, ℕ, code, String, ◌≡◌, refl, Bool, true, false, not, ◌&&◌,
  ◌||◌, Option, none, some, List, [], ◌∷◌,
}
use ultranix_mcp.Prelude.Texts.{
  all_chars, is_empty_text, is_ascii_digit, is_ascii_lowercase, is_ascii_uppercase, split,
  split_once,
}
use ultranix_mcp.Security.Sanitize.{byte_len}

abbrev pub is_name_char : ℕ → ℕ → Bool
is_name_char extra c = is_ascii_lowercase c || is_ascii_digit c || nat_beq c extra

-- A lowercase letter, then at most 63 letters, digits and `extra`.
unfoldable pub valid_name : ℕ → String → Bool
valid_name extra String.[] = false
valid_name extra (String.◌∷◌ c s) =
    is_ascii_lowercase (code c)
    && leb (byte_len (String.◌∷◌ c s)) 64
    && all_chars (is_name_char extra) s

-- `-`
unfoldable pub valid_plugin_name : String → Bool
unfolding valid_name
valid_plugin_name name = valid_name 45 name

-- `_`
unfoldable pub valid_param_name : String → Bool
unfolding valid_name
valid_param_name name = valid_name 95 name

abbrev pub is_label_char : ℕ → Bool
is_label_char c = is_ascii_lowercase c || is_ascii_uppercase c || is_ascii_digit c || nat_beq c 45

-- `numeric`
abbrev pub is_numeric : String → Bool
is_numeric s = not (is_empty_text s) && all_chars is_ascii_digit s

abbrev pub is_label : String → Bool
is_label l = not (is_empty_text l) && all_chars is_label_char l

-- `labels`
unfoldable pub is_labels : String → Bool
is_labels s = not (is_empty_text s) && all is_label (split 46 s)

abbrev pub is_core : List String → Bool
is_core (major ∷ minor ∷ patch ∷ []) = is_numeric major && is_numeric minor && is_numeric patch
is_core _ = false

-- What follows the separator, if there is one, is labels.
abbrev pub cut : Option (String × String) → String → String × Option String
cut none s = (s, none)
cut (some (head, tail)) s = (head, some tail)

abbrev pub labels_or_none : Option String → Bool
labels_or_none none = true
labels_or_none (some s) = is_labels s

unfoldable pub valid_version : String → Bool
unfolding is_labels split split_once
valid_version v =
    let (head, build) = cut (split_once 43 v) v in
    let (core, pre) = cut (split_once 45 head) head in
    is_core (split 46 core) && labels_or_none pre && labels_or_none build

grammar_test :
    (valid_plugin_name "deploy-notes" ≡ true)
    × (valid_plugin_name "Deploy" ≡ false)
    × (valid_param_name "a_b" ≡ true)
    × (valid_param_name "a-b" ≡ false)
    × (valid_version "1.2.3-rc.1+build-5" ≡ true)
    × (valid_version "1.2" ≡ false)
    × (valid_version "1.2.3-" ≡ false)
unfolding valid_plugin_name valid_param_name valid_name valid_version is_labels split split_once
    byte_len
grammar_test = (refl, refl, refl, refl, refl, refl, refl)
