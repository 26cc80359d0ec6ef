-- ===== src/Prelude/Texts.antt =====
-- Texts by clauses: the methods of `str` that the source calls. A character is tested by its code.
use Prim.Native.Nat.{ℕ, suc}
use Prim.Native.Char.{Char, code}
use Prim.Native.String.{String}
use mathlib.Core.Path.{◌≡◌, refl}
use mathlib.Core.Bool.{Bool, true, false, ◌&&◌, ◌||◌}
use mathlib.Core.List.{List, [], ◌∷◌}
use mathlib.Core.Option.{Option, none, some}
use text.Mathlib.TextEquality.{Char-path}
pub use text.Mathlib.TextLemmas.{nil-append, cons-append, append-nil, append_assoc}
use ultranix_mcp.Prelude.Tests.{leb, nat_beq, if◌then◌else◌, string_eq, ◌⧺◌}

-- `bytes().all` and `chars().all`
abbrev pub all_chars : (ℕ → Bool) → String → Bool
all_chars p String.[] = true
all_chars p (String.◌∷◌ c s) = p (code c) && all_chars p s

abbrev pub is_empty_text : String → Bool
is_empty_text String.[] = true
is_empty_text (String.◌∷◌ c s) = false

-- `chars().count()`
unfoldable pub char_count : String → ℕ
char_count String.[] = 0
char_count (String.◌∷◌ c s) = suc (char_count s)

-- `push`
abbrev pub push_char : String → Char → String
push_char s c = s ⧺ String.◌∷◌ c String.[]

abbrev pub is_ascii_digit : ℕ → Bool
is_ascii_digit c = leb 48 c && leb c 57

abbrev pub is_ascii_lowercase : ℕ → Bool
is_ascii_lowercase c = leb 97 c && leb c 122

abbrev pub is_ascii_uppercase : ℕ → Bool
is_ascii_uppercase c = leb 65 c && leb c 90

-- `to_ascii_lowercase`, on a table: the uppercase letters are the only characters it changes
abbrev lowercase_letters : List (ℕ × Char)
lowercase_letters =
    (65, "a")
    ∷ (66, "b")
    ∷ (67, "c")
    ∷ (68, "d")
    ∷ (69, "e")
    ∷ (70, "f")
    ∷ (71, "g")
    ∷ (72, "h")
    ∷ (73, "i")
    ∷ (74, "j")
    ∷ (75, "k")
    ∷ (76, "l")
    ∷ (77, "m")
    ∷ (78, "n")
    ∷ (79, "o")
    ∷ (80, "p")
    ∷ (81, "q")
    ∷ (82, "r")
    ∷ (83, "s")
    ∷ (84, "t")
    ∷ (85, "u")
    ∷ (86, "v")
    ∷ (87, "w")
    ∷ (88, "x")
    ∷ (89, "y")
    ∷ (90, "z")
    ∷ []

abbrev letter_in : List (ℕ × Char) → Char → Char
letter_in [] c = c
letter_in ((n, d) ∷ table) c = if nat_beq (code c) n then d else letter_in table c

unfoldable pub lowered : String → String
lowered String.[] = ""
lowered (String.◌∷◌ c s) = String.◌∷◌ (letter_in lowercase_letters c) (lowered s)

-- `char::is_whitespace`
abbrev pub is_whitespace : ℕ → Bool
is_whitespace c =
    leb 9 c && leb c 13
    || nat_beq c 32
    || nat_beq c 133
    || nat_beq c 160
    || nat_beq c 5760
    || leb 8192 c && leb c 8202
    || nat_beq c 8232
    || nat_beq c 8233
    || nat_beq c 8239
    || nat_beq c 8287
    || nat_beq c 12288

-- `trim_start`
unfoldable pub trim_start : String → String
trim_start String.[] = ""
trim_start (String.◌∷◌ c s) =
    let rest = trim_start s in if is_whitespace (code c) then rest else String.◌∷◌ c s

-- `trim_end`
unfoldable pub trim_end : String → String
trim_end String.[] = ""
trim_end (String.◌∷◌ c s) =
    let rest = trim_end s in
    if is_empty_text rest && is_whitespace (code c) then "" else String.◌∷◌ c rest

-- `trim`
unfoldable pub trim : String → String
unfolding trim_start trim_end
trim s = trim_end (trim_start s)

-- The first character of a part goes in front of the first part.
abbrev onto_first : Char → List String → List String
onto_first c [] = String.◌∷◌ c "" ∷ []
onto_first c (part ∷ parts) = String.◌∷◌ c part ∷ parts

-- `split` on one character
unfoldable pub split : ℕ → String → List String
split sep String.[] = "" ∷ []
split sep (String.◌∷◌ c s) =
    let rest = split sep s in if nat_beq (code c) sep then "" ∷ rest else onto_first c rest

abbrev before_first : Char → Option (String × String) → Option (String × String)
before_first c none = none
before_first c (some (head, tail)) = some (String.◌∷◌ c head, tail)

-- `split_once` on one character
unfoldable pub split_once : ℕ → String → Option (String × String)
split_once sep String.[] = none
split_once sep (String.◌∷◌ c s) =
    let rest = split_once sep s in
    if nat_beq (code c) sep then some ("", s) else before_first c rest

-- `strip_prefix`
unfoldable pub strip_prefix : String → String → Option String
strip_prefix String.[] s = some s
strip_prefix (String.◌∷◌ c p) String.[] = none
strip_prefix (String.◌∷◌ c p) (String.◌∷◌ d s) =
    let rest = strip_prefix p s in if nat_beq (code c) (code d) then rest else none

abbrev pub is_stripped : Option String → Bool
is_stripped none = false
is_stripped (some rest) = true

-- `starts_with`
abbrev pub starts_with : String → String → Bool
starts_with p s = is_stripped (strip_prefix p s)

texts_test :
    (trim "  a b\t" ≡ "a b")
    × (split 44 "a,,b" ≡ "a" ∷ "" ∷ "b" ∷ [])
    × (split_once 61 "k=v=w" ≡ some ("k", "v=w"))
    × (strip_prefix "plugin_" "plugin_run" ≡ some "run")
    × (split_once 43 "1.2.3" ≡ none)
unfolding trim split split_once strip_prefix
texts_test = (refl, refl, refl, refl, refl)

pub ruleset text_laws = (nil-append, cons-append, append-nil, append_assoc)

pub code_injective : (c d : Char) → code c ≡ code d → c ≡ d
code_injective = Char-path
