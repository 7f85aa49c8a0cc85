-- ===== src/Tests/Tree.antt =====
-- A graph of one submodule, its block in flake.nix, and the revision of a tag.
use nix_strix_halo.Prelude.{
  In, ◌≡◌, refl, ◌⊎◌, inl, none, some, List, [], ◌∷◌, ◌++◌, All, Bool, true, false,
}
use nix_strix_halo.Prelude.Sort.{sorted, insert}
use nix_strix_halo.Prelude.Text.{Text, codes}
use nix_strix_halo.Prelude.Dict.{get, put}
use nix_strix_halo.Json.{Json, json_eq, text, object, Fields, end, field, get_field}
use nix_strix_halo.Tree.Git.{
  yields, exception, ◌>>=◌, git_rev, find_ref, split_words, splitlines, git_config_blob,
  config_lines, modules_by_name, by_path_of, submodules, resolve_submodule, tree_commit, peeled,
}
use nix_strix_halo.Tree.Git.Revision.{IsGiven, IsOther, ref_lines, git_rev-IsGiven}
use nix_strix_halo.Tree.Names.{Parsed, input_name, slug_from}
use nix_strix_halo.Tree.Flake.{
  SourceEntry, begin_inputs, end_inputs, index_of, input_lines, all_entry_lines, update_lines,
  update_flake_inputs, text_of,
}
use nix_strix_halo.Tree.Flake.Block.{update_lines-block}
use nix_strix_halo.Tree.Flake.Again.{update_flake_inputs-again}
use nix_strix_halo.Tree.Graph.{
  Git, GitSource, add_entry, add_roots, add_specs, add_deep, nested_specs, specs_from, build_graph,
}
use nix_strix_halo.Tree.Graph.Roots.{IsPinnedAt, build_graph-Roots}
use nix_strix_halo.Tree.Main.{
  World, Files, main, resolve_source, graph_of, update_sources_file, enabled_root_paths,
  paths_among, behind, behind_dashes, deep_of_items, source_in,
}
use nix_strix_halo.Tree.Main.Runs.{IsUndone, IsWritten, main-Ends}

abbrev rocm_url : Text
rocm_url = codes "https://github.com/ROCm/rocm.git"

abbrev git : Git
git = record {
  module_paths = λ source. some (codes "submodule.rocm.path rocm");
  module_urls = λ source. some (codes "submodule.rocm.url https://github.com/ROCm/rocm.git");
  ls_tree = λ source path. codes "160000 commit abc rocm";
  sha1 = λ s. codes "0123456789";
}

abbrev root_source : GitSource
root_source = record { url = codes "u"; rev = codes "r" }

abbrev root : SourceEntry
root = record {
  path = [];
  url = codes "u";
  rev = codes "r";
  input_name = codes "therock-src-10-0-gfx1151-root";
}

abbrev rocm : SourceEntry
rocm = record {
  path = codes "rocm";
  url = rocm_url;
  rev = codes "abc";
  input_name = codes "therock-src-10-0-gfx1151-rocm-01234567";
}

built :
    build_graph git (codes "10.0") (codes "gfx1151") root_source (codes "rocm" ∷ []) [] []
    ≡ yields (root, rocm ∷ [])
unfolding build_graph add_roots submodules git_config_blob config_lines splitlines split_words put
    get modules_by_name by_path_of resolve_submodule tree_commit add_entry input_name slug_from
    nested_specs specs_from add_specs add_deep sorted insert
built = refl

build_graph-Roots_example :
    (e : SourceEntry) × In e (rocm ∷ [])
    × IsPinnedAt git (codes "10.0") (codes "gfx1151") root_source (codes "rocm") e
build_graph-Roots_example =
    build_graph-Roots git (codes "10.0") (codes "gfx1151") root_source (codes "rocm" ∷ []) [] []
      root (rocm ∷ []) (codes "rocm") built (inl refl)

abbrev parse_url : Text → Parsed
parse_url url = record {
  scheme = codes "https";
  netloc = codes "github.com";
  path = codes "/ROCm/rocm.git";
}

abbrev flake_lines : List Text
flake_lines = codes "{" ∷ begin_inputs ∷ codes "    old = 1;" ∷ end_inputs ∷ codes "}" ∷ []

no_begin : index_of begin_inputs (codes "{" ∷ []) ≡ none
unfolding index_of
no_begin = refl

no_end : index_of end_inputs (codes "{" ∷ []) ≡ none
unfolding index_of
no_end = refl

open_end : index_of end_inputs (codes "    old = 1;" ∷ []) ≡ none
unfolding index_of
open_end = refl

update_lines-block_example :
    update_lines parse_url root (rocm ∷ []) flake_lines
    ≡ yields ((codes "{" ∷ []) ++ (input_lines parse_url root (rocm ∷ []) ++ codes "}" ∷ []))
update_lines-block_example =
    update_lines-block parse_url root (rocm ∷ []) (codes "{" ∷ []) (codes "    old = 1;" ∷ [])
      (codes "}" ∷ []) no_begin no_end open_end

abbrev after_update : Text
after_update = text_of ((codes "{" ∷ []) ++ (input_lines parse_url root [] ++ codes "}" ∷ []))

updated : update_flake_inputs parse_url root [] (text_of flake_lines) ≡ yields after_update
unfolding update_flake_inputs splitlines update_lines index_of input_lines all_entry_lines
updated = refl

update_flake_inputs-again_example :
    update_flake_inputs parse_url root [] after_update ≡ yields after_update
update_flake_inputs-again_example =
    update_flake_inputs-again parse_url root [] (text_of flake_lines) after_update updated

abbrev tag : Text
tag = codes "refs/tags/v1"

abbrev remote : Text
remote = codes "aaa refs/tags/v1" ++ 10 ∷ codes "bbb refs/tags/v1^{}"

tag_rev : git_rev remote (codes "u") tag ≡ yields (codes "bbb")
unfolding git_rev splitlines find_ref split_words
tag_rev = refl

git_rev-IsGiven_example :
    IsGiven (ref_lines remote) (codes "bbb") (peeled tag)
    ⊎ (All (IsOther (peeled tag)) (ref_lines remote) × IsGiven (ref_lines remote) (codes "bbb") tag)
git_rev-IsGiven_example = git_rev-IsGiven remote (codes "u") tag (codes "bbb") tag_rev

abbrev str_of : Json → Text
str_of (text t) = t
str_of v = []

-- A world in which every file can be opened for writing, the tree only if `opens` says so.
abbrev world : Bool → World
world opens = record {
  git = git;
  ls_remote = λ url ref. [];
  fetch_sources = λ source args. yields (codes "$ git update-index --no-skip-worktree -- rocm");
  shlex_split = λ s. some (codes "git" ∷ codes "--" ∷ codes "rocm" ∷ []);
  str = str_of;
  urlparse = parse_url;
  now = [];
  opens_sources = true;
  opens_flake = true;
  opens_tree = opens;
}

abbrev source : Fields
source =
    field (codes "version") (text (codes "10.0"))
      (field (codes "url") (text (codes "u")) (field (codes "rev") (text (codes "r")) end))

abbrev files : Files
files = record {
  sources = field (codes "targets") (object (field (codes "gfx1151") (object source) end)) end;
  flake = text_of flake_lines;
  tree = codes "t";
}

abbrev new_flake : Text
new_flake = text_of ((codes "{" ∷ []) ++ (input_lines parse_url root (rocm ∷ []) ++ codes "}" ∷ []))

-- The last write fails, when flake.nix is written already.
run_test :
    main (world false) (codes "gfx1151") files
    ≡ record { files = record files { flake = new_flake }; failure = some exception }
unfolding main get_field resolve_source graph_of update_sources_file enabled_root_paths paths_among
    behind behind_dashes deep_of_items build_graph add_roots submodules git_config_blob config_lines
    splitlines split_words put get modules_by_name by_path_of resolve_submodule tree_commit
    add_entry input_name slug_from nested_specs specs_from add_specs add_deep sorted insert
    update_flake_inputs update_lines index_of input_lines all_entry_lines json_eq
run_test = refl

run_well_test : (main (world true) (codes "gfx1151") files).failure ≡ none
unfolding main get_field resolve_source graph_of update_sources_file enabled_root_paths paths_among
    behind behind_dashes deep_of_items build_graph add_roots submodules git_config_blob config_lines
    splitlines split_words put get modules_by_name by_path_of resolve_submodule tree_commit
    add_entry input_name slug_from nested_specs specs_from add_specs add_deep sorted insert
    update_flake_inputs update_lines index_of input_lines all_entry_lines json_eq
run_well_test = refl

main-Ends_example :
    IsUndone (world true) files (main (world true) (codes "gfx1151") files)
    ⊎ ((s : Fields) × ((source_in files.sources (codes "gfx1151") >>= resolve_source (world true))
          ≡ yields s)
        × IsWritten
            (world true)
            (codes "gfx1151")
            s
            files
            (main (world true) (codes "gfx1151") files))
main-Ends_example = main-Ends (world true) (codes "gfx1151") files
