-- ===== src/Tree/Graph/Loops.antt =====
-- What every `add_entry` keeps, the loops of `build_graph` keep.
use nix_strix_halo.Prelude.{◌≡◌, refl, Bool, true, false, Option, none, some, List, [], ◌∷◌}
use nix_strix_halo.Prelude.Text.{Text}
use nix_strix_halo.Prelude.Dict.{get, values}
use nix_strix_halo.Tree.Git.{Outcome, stops, yields, ◌>>=◌, tree_commit}
use nix_strix_halo.Tree.Flake.{SourceEntry}
use nix_strix_halo.Tree.Graph.{
  GitSource, Git, Entries, Specs, Deep, add_entry, add_root, add_roots, add_nested, add_all_nested,
  add_below, add_specs, add_deep_below, add_deep, resolve, below, nested_specs, build_graph,
  compare_entry,
}
use nix_strix_halo.Prelude.Sort.{sorted}

pub >>=-yields {ℓ κ} :
    {A : Type ℓ} {B : Type κ} (first : Outcome A) (next : A → Outcome B) {last : B}
    → (first >>= next) ≡ yields last
    → (value : A) × (first ≡ yields value) × (next value ≡ yields last)
>>=-yields (stops failure) next h = cc
>>=-yields (yields value) next h = (value, refl, h)

module _ (git : Git) (series target : Text) (P : Entries → Type 0)
    (step : (path url rev : Text) (entries : Entries)
      → P entries
      → P (add_entry git series target path url rev entries)) where
  pub add_root-keeps :
      (root : GitSource) (path : Text) (entries out : Entries)
      → add_root git series target root path entries ≡ yields out
      → P entries
      → P out
  add_root-keeps root path entries out h p =
      let (m, e, h') = >>=-yields (resolve git series target root path false) _ h in
      let (commit, e', h'') = >>=-yields (tree_commit (git.ls_tree root path) path) _ h' in
      let same : add_entry git series target path m.url commit entries ≡ out = cc in
      rw (← same) (step path m.url commit entries p)

  add_roots-keeps :
      (root : GitSource) (paths : List Text) (entries out : Entries)
      → add_roots git series target root paths entries ≡ yields out
      → P entries
      → P out
  unfolding add_roots
  add_roots-keeps root [] entries out h p = let same : entries ≡ out = cc in rw (← same) p
  add_roots-keeps root (path ∷ paths) entries out h p =
      let (middle, e, rest) = >>=-yields (add_root git series target root path entries) _ h in
      add_roots-keeps root paths middle out rest (add_root-keeps root path entries middle e p)

  add_nested-keeps :
      (repo : GitSource) (parent : Text) (prefer_name : Bool) (path : Text) (entries out : Entries)
      → add_nested git series target repo parent prefer_name path entries ≡ yields out
      → P entries
      → P out
  add_nested-keeps repo parent prefer_name path entries out h p =
      let (m, e, h') = >>=-yields (resolve git series target repo path prefer_name) _ h in
      let (commit, e', h'') = >>=-yields (tree_commit (git.ls_tree repo m.path) m.path) _ h' in
      let same : add_entry git series target (below git series target parent m.path) m.url commit
            entries
          ≡ out =
        cc in
      rw (← same) (step _ m.url commit entries p)

  add_all_nested-keeps :
      (repo : GitSource) (parent : Text) (prefer_name : Bool) (paths : List Text)
      (entries out : Entries)
      → add_all_nested git series target repo parent prefer_name paths entries ≡ yields out
      → P entries
      → P out
  unfolding add_all_nested
  add_all_nested-keeps repo parent prefer_name [] entries out h p =
      let same : entries ≡ out = cc in rw (← same) p
  add_all_nested-keeps repo parent prefer_name (path ∷ paths) entries out h p =
      let (middle, e, rest) =
        >>=-yields (add_nested git series target repo parent prefer_name path entries) _ h in
      add_all_nested-keeps repo parent prefer_name paths middle out rest
        (add_nested-keeps repo parent prefer_name path entries middle e p)

  add_below-keeps :
      (parent : Text) (paths : List Text) (entry : Option SourceEntry) (entries out : Entries)
      → add_below git series target parent paths entry entries ≡ yields out
      → P entries
      → P out
  add_below-keeps parent paths none entries out h p = let same : entries ≡ out = cc in rw (← same) p
  add_below-keeps parent paths (some entry) entries out h p =
      add_all_nested-keeps _ parent true paths entries out h p

  add_specs-keeps :
      (root : GitSource) (specs : Specs) (entries out : Entries)
      → add_specs git series target root specs entries ≡ yields out
      → P entries
      → P out
  unfolding add_specs
  add_specs-keeps root [] entries out h p = let same : entries ≡ out = cc in rw (← same) p
  add_specs-keeps root ((name, paths) ∷ specs) entries out h p =
      let (parent, e, h') = >>=-yields (resolve git series target root name true) _ h in
      let (middle, e', rest) =
        >>=-yields (add_below git series target parent.path paths (get parent.path entries) entries)
          _ h' in
      add_specs-keeps root specs middle out rest
        (add_below-keeps parent.path paths _ entries middle e' p)

  add_deep_below-keeps :
      (parent : Text) (paths : List Text) (entry : Option SourceEntry) (entries out : Entries)
      → add_deep_below git series target parent paths entry entries ≡ yields out
      → P entries
      → P out
  add_deep_below-keeps parent paths none entries out h p = cc
  add_deep_below-keeps parent paths (some entry) entries out h p =
      add_all_nested-keeps _ parent false paths entries out h p

  add_deep-keeps :
      (deep : Deep) (entries out : Entries)
      → add_deep git series target deep entries ≡ yields out
      → P entries
      → P out
  unfolding add_deep
  add_deep-keeps [] entries out h p = let same : entries ≡ out = cc in rw (← same) p
  add_deep-keeps ((parent, paths) ∷ deep) entries out h p =
      let (middle, e, rest) =
        >>=-yields (add_deep_below git series target parent paths (get parent entries) entries) _
          h in
      add_deep-keeps deep middle out rest (add_deep_below-keeps parent paths _ entries middle e p)

  -- The entries of a graph are those of a table that the later loops have filled, from the table
  -- that the loop over the enabled paths has left.
  pub build_graph-roots :
      (root : GitSource) (paths fetch_args : List Text) (deep : Deep) (entry : SourceEntry)
      → (entries : List SourceEntry)
      → build_graph git series target root paths fetch_args deep ≡ yields (entry, entries)
      → (roots : Entries) × (add_roots git series target root paths [] ≡ yields roots)
        × ((table : Entries) × (P roots → P table)
            × (sorted compare_entry (values table) ≡ entries))
  unfolding build_graph
  build_graph-roots root paths fetch_args deep entry entries h =
      let (roots, e1, h1) = >>=-yields (add_roots git series target root paths []) _ h in
      let (specs, e2, h2) = >>=-yields (nested_specs fetch_args) _ h1 in
      let (nested, e3, h3) = >>=-yields (add_specs git series target root specs roots) _ h2 in
      let (table, e4, h4) = >>=-yields (add_deep git series target deep nested) _ h3 in
      (
        roots,
        e1,
        (
          table,
          λ p. add_deep-keeps deep nested table e4 (add_specs-keeps root specs roots nested e3 p),
          cc,
        ),
      )

  pub build_graph-keeps :
      (root : GitSource) (paths fetch_args : List Text) (deep : Deep) (entry : SourceEntry)
      → (entries : List SourceEntry)
      → build_graph git series target root paths fetch_args deep ≡ yields (entry, entries)
      → P []
      → (table : Entries) × (P table) × (sorted compare_entry (values table) ≡ entries)
  build_graph-keeps root paths fetch_args deep entry entries h p =
      let (roots, filled, (table, later, listed)) =
        build_graph-roots root paths fetch_args deep entry entries h in
      (table, later (add_roots-keeps root paths [] roots filled p), listed)
