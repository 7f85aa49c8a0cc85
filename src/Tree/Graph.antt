-- ===== src/Tree/Graph.antt =====
-- `nested_specs`, `enabled_root_paths` and `build_graph` of update-source-tree.py.
pub mod Loops
pub mod Entries
pub mod Roots
use nix_strix_halo.Prelude.{
  ℕ, suc, ◌+◌, Bool, true, false, not, Option, none, some, List, [], ◌∷◌, ◌++◌, if◌then◌else◌,
  compare, Ordering, keep, any, ◌==◌, ◌&&◌,
}
use nix_strix_halo.Prelude.Order.{lex, and_then}
use nix_strix_halo.Prelude.Sort.{sorted}
use nix_strix_halo.Prelude.Text.{Text, codes, text_eq, strip, split, partition, starts_with}
use nix_strix_halo.Prelude.Dict.{Dict, get, put, values}
use nix_strix_halo.Tree.Git.{
  Outcome, stops, yields, runtime_error, exception, ◌>>=◌, Meta, submodules, resolve_submodule,
  tree_commit, has_text,
}
use nix_strix_halo.Tree.Names.{input_name}
use nix_strix_halo.Tree.Flake.{SourceEntry}

pub record GitSource : Type 0 where
  pub url : Text
  pub rev : Text

-- What git prints in the checkout of a source: the paths and the urls of .gitmodules (`none` is a
-- command that fails), and the line of `ls-tree` for a path.
pub record Git : Type 0 where
  pub module_paths : GitSource → Option Text
  pub module_urls : GitSource → Option Text
  pub ls_tree : GitSource → Text → Text
  pub sha1 : Text → Text

-- The values of a `--nested-submodules` option up to the next option.
abbrev pub nonblank : List Text → List Text
nonblank [] = []
nonblank (v ∷ vs) = let rest = nonblank vs in if has_text (strip v) then strip v ∷ rest else rest

abbrev pub Specs : Type 0
Specs = List (Text × List Text)

abbrev pub add_spec : Text → Outcome Specs → Outcome Specs
add_spec arg rest =
    let p = partition b':' arg in
    if p.found
    then rest >>= (λ specs. yields ((p.head, nonblank (split b',' p.tail)) ∷ specs))
    else stops exception

-- `within` says that the inner loop runs; it ends at an option, which the outer loop reads.
unfoldable pub specs_from : Bool → List Text → Outcome Specs
specs_from within [] = yields []
specs_from within (arg ∷ args) =
    let inner = specs_from true args in
    let outer = specs_from false args in
    if text_eq arg (codes "--nested-submodules")
    then inner
    else if within && not (starts_with (codes "--") arg)
    then add_spec arg inner
    else outer

unfoldable pub nested_specs : List Text → Outcome Specs
nested_specs fetch_args = specs_from false fetch_args

abbrev pub Entries : Type 0
Entries = Dict SourceEntry

-- A deep nested submodule of the source: its parent's path and the paths below.
abbrev pub Deep : Type 0
Deep = List (Text × List Text)

-- path.count("/")
abbrev pub depth : Text → ℕ
depth [] = 0
depth (c ∷ s) = let rest = depth s in if c == b'/' then suc rest else rest

-- key=lambda entry: (entry.path.count("/"), entry.path)
unfoldable pub compare_entry : SourceEntry → SourceEntry → Ordering
compare_entry a b = and_then (compare (depth a.path) (depth b.path)) (lex compare a.path b.path)

module _ (git : Git) (series target : Text) where
  -- add_entry
  unfoldable pub add_entry : Text → Text → Text → Entries → Entries
  add_entry path url rev entries = elim (get path entries) [
    | some entry ↦ entries
    | none ↦
        put path
          (record {
            path = path;
            url = url;
            rev = rev;
            input_name = input_name git.sha1 series target path;
          })
          entries
  ]

  abbrev pub modules_of : GitSource → Outcome (Dict Meta × Dict Meta)
  modules_of source = submodules (git.module_paths source) (git.module_urls source)

  abbrev pub resolve : GitSource → Text → Bool → Outcome Meta
  resolve source selector prefer_name =
      modules_of source >>= λ modules. resolve_submodule modules selector prefer_name

  -- The body of the loop over the enabled paths.
  abbrev pub add_root : GitSource → Text → Entries → Outcome Entries
  add_root root path entries = do
    m ← resolve root path false
    commit ← tree_commit (git.ls_tree root path) path
    yields (add_entry path m.url commit entries)

  unfoldable pub add_roots : GitSource → List Text → Entries → Outcome Entries
  add_roots root [] entries = yields entries
  add_roots root (path ∷ paths) entries = add_root root path entries >>= add_roots root paths

  -- f"{parent_path}/{nested_meta['path']}"
  abbrev pub below : Text → Text → Text
  below parent path = parent ++ b'/' ∷ path

  abbrev pub add_nested : GitSource → Text → Bool → Text → Entries → Outcome Entries
  add_nested repo parent prefer_name path entries = do
    m ← resolve repo path prefer_name
    commit ← tree_commit (git.ls_tree repo m.path) m.path
    yields (add_entry (below parent m.path) m.url commit entries)

  unfoldable pub add_all_nested : GitSource → Text → Bool → List Text → Entries → Outcome Entries
  add_all_nested repo parent prefer_name [] entries = yields entries
  add_all_nested repo parent prefer_name (path ∷ paths) entries =
      add_nested repo parent prefer_name path entries
      >>= add_all_nested repo parent prefer_name paths

  abbrev pub source_of : SourceEntry → GitSource
  source_of entry = record { url = entry.url; rev = entry.rev }

  -- A parent that was not fetched is skipped.
  abbrev pub add_below : Text → List Text → Option SourceEntry → Entries → Outcome Entries
  add_below parent paths none entries = yields entries
  add_below parent paths (some entry) entries =
      add_all_nested (source_of entry) parent true paths entries

  unfoldable pub add_specs : GitSource → Specs → Entries → Outcome Entries
  add_specs root [] entries = yields entries
  add_specs root ((parent_name, paths) ∷ specs) entries = do
    parent ← resolve root parent_name true
    entries' ← add_below parent.path paths (get parent.path entries) entries
    add_specs root specs entries'

  -- Here such a parent is an error.
  abbrev pub add_deep_below : Text → List Text → Option SourceEntry → Entries → Outcome Entries
  add_deep_below parent paths none entries =
      stops (runtime_error (codes "deep nested parent " ++ (parent ++ codes " was not fetched")))
  add_deep_below parent paths (some entry) entries =
      add_all_nested (source_of entry) parent false paths entries

  unfoldable pub add_deep : Deep → Entries → Outcome Entries
  add_deep [] entries = yields entries
  add_deep ((parent, paths) ∷ deep) entries =
      add_deep_below parent paths (get parent entries) entries >>= add_deep deep

  -- `paths` is what `enabled_root_paths` reads from the output of TheRock's own script.
  unfoldable pub build_graph :
      GitSource → List Text → List Text → Deep → Outcome (SourceEntry × List SourceEntry)
  build_graph root paths fetch_args deep = do
    entries ← add_roots root paths []
    specs ← nested_specs fetch_args
    nested ← add_specs root specs entries
    all_entries ← add_deep deep nested
    yields (
      record {
        path = [];
        url = root.url;
        rev = root.rev;
        input_name = input_name git.sha1 series target [];
      },
      sorted compare_entry (values all_entries),
    )
