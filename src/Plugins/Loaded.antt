-- ===== src/Plugins/Loaded.antt =====
-- That a plugin which can be run has passed validation.
use ultranix_mcp.Prelude.{
  nat_eq, string_eq, Bool-cases, find, contains, All, Result, ok, err, >>=-eq-ok, >>-eq-ok, String,
  ◌≡◌, refl, subst, inl, inr, Bool, true, Option, none, some, List, [], ◌∷◌, arith,
}
use ultranix_mcp.Prelude.Sorting.{All-sort}
use ultranix_mcp.Plugins.Manifest.{ToolSpec, PluginManifest, ManifestError}
use ultranix_mcp.Plugins.Accepted.{IsValid, validate-IsValid}
use ultranix_mcp.Plugins.Store.{
  Plugin, Scan, Folder, or_io, or_json, parse_manifest, load_one, with_tool, with_loaded,
  scan_files, by_name, listed, scan, get,
}

abbrev IsGood : Plugin → Type 0
IsGood p = IsValid p.manifest

load_one-IsValid :
    (f : Folder) (path : String) (m : PluginManifest) → load_one f path ≡ ok m → IsValid m
unfolding load_one parse_manifest
load_one-IsValid f path m h =
    let (bytes, read, h₁) = >>=-eq-ok (or_io (f.read path)) _ h in
    let (small, h₂) = >>-eq-ok _ _ _ h₁ in
    let (raw, parsed, h₃) = >>=-eq-ok (or_json (f.from_slice bytes)) _ h₂ in
    validate-IsValid raw m h₃

module _ (tools : List String) (path : String) (m : PluginManifest) (valid : IsValid m) where
  with_tool-IsGood :
      (rest : List String → Scan) (o : Option ToolSpec)
      → ((ts : List String) → All IsGood (rest ts).plugins)
      → All IsGood (with_tool tools path m rest o).plugins
  with_tool-IsGood rest none h = (valid, h tools)
  with_tool-IsGood rest (some t) h = elim (Bool-cases (contains tools t.name)) [
    | inl taken ↦ rw taken (h tools)
    | inr free ↦ rw free (valid, h (t.name ∷ tools))
  ]

with_loaded-IsGood :
    (seen tools : List String) (path : String) (rest : List String → List String → Scan)
    (r : Result ManifestError PluginManifest)
    → ((m : PluginManifest) → r ≡ ok m → IsValid m)
    → ((ns ts : List String) → All IsGood (rest ns ts).plugins)
    → All IsGood (with_loaded seen tools path rest r).plugins
with_loaded-IsGood seen tools path rest (err e) v h = h seen tools
with_loaded-IsGood seen tools path rest (ok m) v h = elim (Bool-cases (contains seen m.name)) [
  | inl taken ↦ rw taken (h seen tools)
  | inr free ↦ rw free (
      with_tool-IsGood tools path m (v m refl) (rest (m.name ∷ seen)) m.tool
        (λ ts. h (m.name ∷ seen) ts))
]

scan_files-IsGood :
    (f : Folder) (paths seen tools : List String)
    → All IsGood (scan_files (load_one f) paths seen tools).plugins
unfolding scan_files
scan_files-IsGood f [] seen tools = tt
scan_files-IsGood f (path ∷ paths) seen tools =
    with_loaded-IsGood seen tools path (λ ns ts. scan_files (load_one f) paths ns ts)
      (load_one f path) (load_one-IsValid f path) (λ ns ts. scan_files-IsGood f paths ns ts)

find-All {ℓ κ} :
    {A : Type ℓ} (P : A → Type κ) (test : A → Bool) (xs : List A) (a : A)
    → All P xs
    → find test xs ≡ some a
    → P a × (test a ≡ true)
find-All P test [] a h e = cc
find-All P test (x ∷ xs) a h e = elim (Bool-cases (test x)) [
  | inl here ↦
      let same : x ≡ a = ground arith in (subst P same h.0, subst (λ b. test b ≡ true) same here)
  | inr there ↦ find-All P test xs a h.1 (ground arith)
]

-- Whatever the manifest folder holds, the plugin that a name resolves to has passed validation.
pub get-IsValid :
    (f : Folder) (name : String) (p : Plugin) → get f name ≡ some p → IsValid p.manifest
unfolding get scan
get-IsValid f name p h =
    (find-All IsGood _ _ p
      (All-sort by_name IsGood _ (scan_files-IsGood f (listed f.listing) [] [])) h).0
