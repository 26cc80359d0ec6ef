-- ===== src/Security/Paths.antt =====
-- src/security/paths.rs: the path whitelist. A path is its components, the last one first, as
-- `Path::components` gives them; a canonical one is the list of its names from the root. `canonicalize`
-- and the environment are parameters, and the file system stands still during a check.
pub mod Walk
pub mod Resolved
pub mod Fresh
use ultranix_mcp.Prelude.{
  ltb, leb, nat_beq, nat_beq_iff, if◌then◌else◌, ltb→lt, leb→le, Equality, ◌==◌, nat_eq, string_eq,
  option_beq, option_beq_iff, Bool-cases, Option-cases, and-eq-true, length, get_elem?, take, drop,
  is_empty, retain, any, all, find, length-append, length-retain-le, length-take, length-drop,
  drop-append, take_prefix, drop_prefix, contains, All, All-append, All-drop, All-retain, All-map,
  All-imp, ◌⧺◌, Result, ok, err, ◌>>=◌, ◌>>◌, ok_or, ensure, to_option, is_ok, Result-cases,
  >>=-eq-ok, >>-eq-ok, ok_or-eq-ok, ensure-eq-ok, ok_injective, ℕ, zero, suc, ◌+◌, ◌-◌, ◌*◌, ◌/◌,
  ◌%◌, ◌^◌, ◌≤◌, ◌<◌, min, max, Char, code, String, ◌≡◌, refl, sym, ap, ◌∙◌, ◌≡⟨◌⟩◌, ◌∎, subst, ◌≢◌,
  ◌↔◌, ◌⊎◌, inl, inr, Bool, true, false, not, ◌&&◌, ◌||◌, Option, none, some, List, [], ◌∷◌, ◌++◌,
  map, reverse, foldl, arith,
}
use ultranix_mcp.Prelude.Texts.{split, is_empty_text}

pub data Component : Type 0 where
  root_dir : Component
  cur_dir : Component
  parent_dir : Component
  normal : String → Component

-- `is_trailing`: the text has separators or dots after its last component.
pub record PathBuf : Type 0 where
  pub components : List Component
  pub is_trailing : Bool

-- The names of a canonical path.
abbrev pub Canonical : Type 0
Canonical = List String

pub data PathWhitelistError : Type 0 where
  unresolvable : PathBuf → String → PathWhitelistError
  outside_roots : Canonical → PathWhitelistError
  no_leaf : PathBuf → PathWhitelistError

-- A piece between separators that is not the first.
abbrev pub piece_component : String → List Component → List Component
piece_component piece rest =
    if is_empty_text piece || piece == "."
    then rest
    else (if piece == ".." then parent_dir else normal piece) ∷ rest

unfoldable pub pieces : List String → List Component
pieces [] = []
pieces (p ∷ ps) = piece_component p (pieces ps)

abbrev pub first_piece : List String → List Component
first_piece [] = []
first_piece (p ∷ []) = if p == "." then cur_dir ∷ [] else piece_component p []
first_piece (p ∷ q ∷ ps) =
    let rest = pieces (q ∷ ps) in
    if is_empty_text p
    then root_dir ∷ rest
    else if p == "."
    then cur_dir ∷ rest
    else piece_component p rest

-- `Path::components`, the first one first
unfoldable pub components_of : String → List Component
unfolding split pieces
components_of text = first_piece (split 47 text)

abbrev pub ends_open : List String → Bool
ends_open (p ∷ q ∷ ps) = last_open q ps
  where
    last_open : String → List String → Bool
    last_open r [] = is_empty_text r || r == "."
    last_open r (t ∷ ts) = last_open t ts
ends_open _ = false

unfoldable pub path_of : String → PathBuf
unfolding components_of
path_of text = record {
  components = reverse (components_of text);
  is_trailing = ends_open (split 47 text);
}

abbrev pub cursor : List Component → Bool → PathBuf
cursor components is_trailing = record { components = components; is_trailing = is_trailing }

-- `Path::file_name`
abbrev pub file_name : PathBuf → Option String
file_name p = last_name p.components
  where
    last_name : List Component → Option String
    last_name (normal name ∷ cs) = some name
    last_name _ = none

-- `Path::parent`
abbrev pub parent : PathBuf → Option PathBuf
parent p = all_but_last p.components
  where
    all_but_last : List Component → Option PathBuf
    all_but_last [] = none
    all_but_last (root_dir ∷ cs) = none
    all_but_last (c ∷ cs) = some (record { components = cs; is_trailing = false })

-- `join` of one name
abbrev pub join : PathBuf → String → PathBuf
join p name = record { components = normal name ∷ p.components; is_trailing = false }

-- A text of one plain component.
abbrev pub is_one_normal : List Component → Bool
is_one_normal (normal name ∷ []) = true
is_one_normal _ = false

unfoldable pub is_plain : String → Bool
unfolding components_of
is_plain name = is_one_normal (components_of name)

-- `Path::starts_with`, by components
unfoldable pub is_under : Canonical → Canonical → Bool
is_under [] q = true
is_under (r ∷ rs) [] = false
is_under (r ∷ rs) (n ∷ q) = let rest = is_under rs q in if r == n then rest else false

abbrev pub inside : List Canonical → Canonical → Result PathWhitelistError Canonical
inside roots resolved =
    if any (λ root. is_under root resolved) roots then ok resolved else err (outside_roots resolved)

abbrev pub is_inside : List Canonical → Option Canonical → Bool
is_inside roots none = false
is_inside roots (some dir) = any (λ root. is_under root dir) roots

abbrev pub pushed_root : Option Canonical → List Canonical → List Canonical
pushed_root none roots = roots
pushed_root (some root) roots = root ∷ roots

module _ (canonicalize : PathBuf → Result String Canonical) where
  -- The turn at a cursor that is missing: `next` is what its parent gives, with the name on the tail.
  abbrev pub missing :
      PathBuf
      → String
      → Option String
      → Option PathBuf
      → Result PathWhitelistError Canonical
      → Result PathWhitelistError Canonical
  missing path e none up next = err (no_leaf path)
  missing path e (some name) none next =
      if is_plain name then err (unresolvable path e) else err (no_leaf path)
  missing path e (some name) (some up) next = if is_plain name then next else err (no_leaf path)

  abbrev pub at_cursor :
      PathBuf
      → PathBuf
      → List String
      → Result String Canonical
      → Result PathWhitelistError Canonical
      → Result PathWhitelistError Canonical
  at_cursor path cursor tail (ok canon) next = ok (canon ++ tail)
  at_cursor path cursor tail (err e) next = missing path e (file_name cursor) (parent cursor) next

  abbrev pub with_name : Component → List String → List String
  with_name (normal name) tail = name ∷ tail
  with_name _ tail = tail

  -- The walk up from a cursor; the tail has the names that are missing below it.
  unfoldable pub climb :
      PathBuf → List Component → Bool → List String → Result PathWhitelistError Canonical
  climb path [] trailing tail =
      at_cursor path (cursor [] trailing) tail (canonicalize (cursor [] trailing))
        (err (no_leaf path))
  climb path (c ∷ cs) trailing tail =
      at_cursor path (cursor (c ∷ cs) trailing) tail (canonicalize (cursor (c ∷ cs) trailing))
        (climb path cs false (with_name c tail))

  unfoldable pub canonicalize_lenient : PathBuf → Result PathWhitelistError Canonical
  unfolding climb is_plain
  canonicalize_lenient path = climb path path.components path.is_trailing []

  unfoldable pub check_path_with_roots :
      List Canonical → PathBuf → Result PathWhitelistError Canonical
  unfolding canonicalize_lenient is_under
  check_path_with_roots roots path = do resolved ← canonicalize_lenient path; inside roots resolved

  abbrev pub resolved_parent : Option PathBuf → Option Canonical
  resolved_parent none = none
  resolved_parent (some up) = to_option (canonicalize up)

  unfoldable pub parent_under_roots : List Canonical → PathBuf → Bool
  unfolding is_under
  parent_under_roots roots path = is_inside roots (resolved_parent (parent path))

  abbrev pub root_of : Option String → Option Canonical
  root_of none = none
  root_of (some text) = to_option (canonicalize (path_of text))

  -- The state directory, which need not be there yet.
  abbrev pub state_or_home : PathBuf → Result String Canonical → Option Canonical
  state_or_home home (ok canon) = some canon
  state_or_home home (err e) = below_home (canonicalize home)
    where
      below_home : Result String Canonical → Option Canonical
      below_home (ok canon) = some (canon ++ ".ultranix-mcp" ∷ [])
      below_home (err e) = none

  abbrev pub state_root : Option String → Option Canonical
  state_root none = none
  state_root (some home) =
      state_or_home (path_of home) (canonicalize (join (path_of home) ".ultranix-mcp"))

  unfoldable pub allowed_roots : (String → Option String) → List Canonical
  unfolding path_of
  allowed_roots var =
      pushed_root (root_of (var "XDG_RUNTIME_DIR"))
        (pushed_root (root_of (some "/tmp")) (pushed_root (state_root (var "HOME")) []))

  unfoldable pub check_path :
      (String → Option String) → PathBuf → Result PathWhitelistError Canonical
  unfolding allowed_roots check_path_with_roots
  check_path var path = check_path_with_roots (allowed_roots var) path
