-- ===== src/Plugins/Unique.antt =====
-- What the scan of the manifest folder guarantees of names.
use ultranix_mcp.Prelude.{
  ◌==◌, nat_eq, string_eq, Bool-cases, contains, All, All-imp, Result, ok, err, String, ◌≡◌, refl,
  sym, inl, inr, true, false, Option, none, some, List, [], ◌∷◌, arith,
}
use text.Mathlib.TextEquality.{eq_iff}
use ultranix_mcp.Prelude.Sorting.{Pairwise, Pairwise-sort}
use ultranix_mcp.Plugins.Manifest.{ToolSpec, PluginManifest, ManifestError}
use ultranix_mcp.Plugins.Store.{
  Plugin, Scan, Folder, load_one, keep, with_tool, with_loaded, scan_files, by_name, listed, scan,
}

-- Two tools of two plugins have different names.
abbrev pub OtherTool : Option ToolSpec → Option ToolSpec → Type 0
OtherTool (some t) (some u) = ¬ (t.name ≡ u.name)
OtherTool (some t) none = Unit
OtherTool none u = Unit

abbrev pub IsOther : Plugin → Plugin → Type 0
IsOther p q = ¬ (p.manifest.name ≡ q.manifest.name) × OtherTool p.manifest.tool q.manifest.tool

abbrev NewTool : List String → Option ToolSpec → Type 0
NewTool tools none = Unit
NewTool tools (some t) = contains tools t.name ≡ false

abbrev IsNew : List String → List String → Plugin → Type 0
IsNew seen tools p = (contains seen p.manifest.name ≡ false) × NewTool tools p.manifest.tool

abbrev IsFresh : List String → List String → Scan → Type 0
IsFresh seen tools s = All (IsNew seen tools) s.plugins × Pairwise IsOther s.plugins

-- What is not in a list with one more entry is not that entry, nor in the list.
contains-cons_false :
    (x y : String) (xs : List String)
    → contains (x ∷ xs) y ≡ false
    → ¬ (x ≡ y) × (contains xs y ≡ false)
contains-cons_false x y xs h = (
  λ e. let same : (x == y) ≡ true = (eq_iff x y).1 e in let bad : ⊥ = ground arith in absurd bad,
  ground arith,
)

abbrev tools_after : Option ToolSpec → List String → List String
tools_after none tools = tools
tools_after (some t) tools = t.name ∷ tools

apart_tool :
    (o : Option ToolSpec) (tools : List String) (u : Option ToolSpec)
    → NewTool (tools_after o tools) u
    → NewTool tools u × OtherTool o u × OtherTool u o
apart_tool none tools none h = (tt, tt, tt)
apart_tool none tools (some u) h = (h, tt, tt)
apart_tool (some t) tools none h = (tt, tt, tt)
apart_tool (some t) tools (some u) h =
    let (differ, new) = contains-cons_false t.name u.name tools h in
    (new, differ, λ e. differ (sym e))

module _ (seen tools : List String) where
  IsFresh-keep :
      (p : Plugin) (s : Scan)
      → IsNew seen tools p
      → IsFresh (p.manifest.name ∷ seen) (tools_after p.manifest.tool tools) s
      → IsFresh seen tools (keep p s)
  IsFresh-keep p s new (fresh, apart) = (
    (
      new,
      All-imp s.plugins
          (λ q h. (
            (contains-cons_false p.manifest.name q.manifest.name seen h.0).1,
            (apart_tool p.manifest.tool tools q.manifest.tool h.1).0,
          ))
          fresh,
    ),
    (
      All-imp s.plugins
          (λ q h.
            let differ = (contains-cons_false p.manifest.name q.manifest.name seen h.0).0 in
            let tool = apart_tool p.manifest.tool tools q.manifest.tool h.1 in
            ((differ, tool.1), (λ e. differ (sym e), tool.2)))
          fresh,
      apart,
    ),
  )

  -- What is fresh after one more name is fresh before it.
  IsFresh-older : (name : String) (s : Scan) → IsFresh (name ∷ seen) tools s → IsFresh seen tools s
  IsFresh-older name s (fresh, apart) = (
    All-imp s.plugins (λ q h. ((contains-cons_false name q.manifest.name seen h.0).1, h.1)) fresh,
    apart,
  )

  IsFresh-tool :
      (path : String) (m : PluginManifest) (rest : List String → Scan) (o : Option ToolSpec)
      → m.tool ≡ o
      → contains seen m.name ≡ false
      → ((ts : List String) → IsFresh (m.name ∷ seen) ts (rest ts))
      → IsFresh seen tools (with_tool tools path m rest o)
  IsFresh-tool path m rest none e new h =
      IsFresh-keep (record { manifest = m; source = path }) (rest tools) (new, rw e tt)
        (rw e (h tools))
  IsFresh-tool path m rest (some t) e new h = elim (Bool-cases (contains tools t.name)) [
    | inl taken ↦ rw taken (IsFresh-older m.name (rest tools) (h tools))
    | inr free ↦ rw free (
        IsFresh-keep (record { manifest = m; source = path }) (rest (t.name ∷ tools))
          (new, rw e free) (rw e (h (t.name ∷ tools))))
  ]

  IsFresh-loaded :
      (path : String) (rest : List String → List String → Scan)
      (r : Result ManifestError PluginManifest)
      → ((ns ts : List String) → IsFresh ns ts (rest ns ts))
      → IsFresh seen tools (with_loaded seen tools path rest r)
  IsFresh-loaded path rest (err e) h = h seen tools
  IsFresh-loaded path rest (ok m) h = elim (Bool-cases (contains seen m.name)) [
    | inl taken ↦ rw taken (h seen tools)
    | inr free ↦
        rw free
          (IsFresh-tool path m (rest (m.name ∷ seen)) m.tool refl free (λ ts. h (m.name ∷ seen) ts))
  ]

scan_files-IsFresh :
    (load : String → Result ManifestError PluginManifest) (paths seen tools : List String)
    → IsFresh seen tools (scan_files load paths seen tools)
unfolding scan_files
scan_files-IsFresh load [] seen tools = (tt, tt)
scan_files-IsFresh load (path ∷ paths) seen tools =
    IsFresh-loaded seen tools path (λ ns ts. scan_files load paths ns ts) (load path)
      (λ ns ts. scan_files-IsFresh load paths ns ts)

-- Whatever the manifest folder holds, no two plugins that a scan finds have the same name, and no two
-- of them expose tools of the same name.
pub scan_unique : (f : Folder) → Pairwise IsOther (scan f).plugins
unfolding scan
scan_unique f =
    Pairwise-sort IsOther by_name _ (scan_files-IsFresh (load_one f) (listed f.listing) [] []).1
