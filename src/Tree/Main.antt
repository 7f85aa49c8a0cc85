-- ===== src/Tree/Main.antt =====
-- `resolve_source`, `update_sources_file`, `enabled_root_paths` and `main` of update-source-tree.py.
pub mod Runs
use nix_strix_halo.Prelude.{
  ℕ, suc, Bool, true, false, Option, none, some, List, [], ◌∷◌, ◌++◌, if◌then◌else◌, drop, length,
}
use nix_strix_halo.Prelude.Text.{Text, codes, text_eq, starts_with}
use nix_strix_halo.Json.{
  Json, null, text, array, object, Items, nil, cons, Fields, get_field, put_field, iterated,
  json_eq,
}
use nix_strix_halo.Tree.Git.{
  Outcome, stops, yields, Failure, runtime_error, exception, ◌>>=◌, git_rev, splitlines,
}
use nix_strix_halo.Tree.Names.{Parsed}
use nix_strix_halo.Tree.Flake.{SourceEntry, update_flake_inputs, write_tree}
use nix_strix_halo.Tree.Graph.{Git, GitSource, Deep, build_graph}

-- What the script calls: git, `git ls-remote` of an url and a ref, what TheRock's own script prints
-- for a checkout and its arguments, `shlex.split`, `str` of a decoded value, `urlparse`, the clock,
-- and whether each of the three files can be opened for writing: where it cannot, the write raises
-- an exception and the file stays as it was.
pub record World : Type 0 where
  pub git : Git
  pub ls_remote : Text → Text → Text
  pub fetch_sources : GitSource → List Text → Outcome Text
  pub shlex_split : Text → Option (List Text)
  pub str : Json → Text
  pub urlparse : Text → Parsed
  pub now : Text
  pub opens_sources : Bool
  pub opens_flake : Bool
  pub opens_tree : Bool

-- What lies behind the first occurrence of `sep`.
unfoldable pub behind : Text → Text → Option Text
behind sep [] = if starts_with sep [] then some [] else none
behind sep (c ∷ s) =
    let later = behind sep s in
    if starts_with sep (c ∷ s) then some (drop (length sep) (c ∷ s)) else later

abbrev pub marker : Text
marker = codes "$ git update-index --no-skip-worktree -- "

-- parts[parts.index("--") + 1:]
unfoldable pub behind_dashes : List Text → Outcome (List Text)
behind_dashes [] = stops exception
behind_dashes (part ∷ parts) =
    let later = behind_dashes parts in if text_eq part (codes "--") then yields parts else later

abbrev pub parts_of : Option (List Text) → Outcome (List Text)
parts_of none = stops exception
parts_of (some parts) = behind_dashes parts

module _ (world : World) where
  abbrev pub paths_in : Option Text → Outcome (List Text)
  paths_in none = stops exception
  paths_in (some command) = parts_of (world.shlex_split command)

  unfoldable pub paths_among : List Text → Outcome (List Text)
  paths_among [] =
      stops (runtime_error (codes "could not find enabled source paths in fetch_sources.py output"))
  paths_among (line ∷ lines) =
      let later = paths_among lines in
      elim (behind marker line) [ none ↦ later | some rest ↦ paths_in (behind (codes "$ ") line) ]

  unfoldable pub enabled_root_paths : GitSource → List Text → Outcome (List Text)
  enabled_root_paths root fetch_args =
      world.fetch_sources root fetch_args >>= λ output. paths_among (splitlines output)

  -- source[key] as a text
  abbrev pub text_at : Text → Fields → Outcome Text
  text_at key source = elim (get_field key source) [
    | none ↦ stops exception
    | some v ↦ yields (world.str v)
  ]

  abbrev pub given : Option Json → Option Json
  given (some null) = none
  given o = o

  abbrev pub resolve_ref : Fields → Option Json → Outcome Fields
  resolve_ref source none =
      stops (runtime_error (codes "TheRock source requires either a rev or a ref"))
  resolve_ref source (some ref) = do
    url ← text_at (codes "url") source
    rev ← git_rev (world.ls_remote url (world.str ref)) url (world.str ref)
    yields
        (put_field (codes "updated") (text world.now) (put_field (codes "rev") (text rev) source))

  unfoldable pub resolve_source : Fields → Outcome Fields
  resolve_source source = elim (given (get_field (codes "rev") source)) [
    | some rev ↦ yields source
    | none ↦ resolve_ref source (given (get_field (codes "ref") source))
  ]

  abbrev pub strs : Items → List Text
  strs nil = []
  strs (cons v vs) = world.str v ∷ strs vs

  -- [str(x) for x in value]; a missing key stands for the empty list.
  abbrev pub strs_of : Option Json → Outcome (List Text)
  strs_of none = yields []
  strs_of (some v) = elim (iterated v) [ none ↦ stops exception | some vs ↦ yields (strs vs) ]

  abbrev pub deep_of_item : Json → Outcome (Text × List Text)
  deep_of_item (object item) = do
    parent ← text_at (codes "parent") item
    paths ← elim (get_field (codes "paths") item) [
      | none ↦ stops exception
      | some v ↦ strs_of (some v)
    ]
    yields (parent, paths)
  deep_of_item _ = stops exception

  unfoldable pub deep_of_items : Items → Outcome Deep
  deep_of_items nil = yields []
  deep_of_items (cons v vs) = do
    first ← deep_of_item v
    rest ← deep_of_items vs
    yields (first ∷ rest)

  abbrev pub deep_of : Option Json → Outcome Deep
  deep_of none = yields []
  deep_of (some v) = elim (iterated v) [ none ↦ stops exception | some vs ↦ deep_of_items vs ]

  -- The graph of a resolved source, from the fields that `build_graph` reads; all of them are read
  -- first, so of two failures it may be another one that ends the run.
  unfoldable pub graph_of : Text → Fields → Outcome (SourceEntry × List SourceEntry)
  graph_of target source = do
    series ← text_at (codes "version") source
    url ← text_at (codes "url") source
    rev ← text_at (codes "rev") source
    let root : GitSource = record { url = url; rev = rev }
    fetch_args ← strs_of (get_field (codes "fetchArgs") source)
    paths ← enabled_root_paths root fetch_args
    deep ← deep_of (get_field (codes "deepNestedSubmodules") source)
    build_graph world.git series target root paths fetch_args deep

abbrev pub replace_source : Bool → Fields → Text → Fields → Fields → Option Json → Outcome Fields
replace_source opens sources target source targets (some old) =
    if json_eq old (object source)
    then yields sources
    else if opens
    then yields
        (put_field (codes "targets") (object (put_field target (object source) targets)) sources)
    else stops exception
replace_source opens sources target source targets none = stops exception

abbrev pub replace_in : Bool → Fields → Text → Fields → Option Json → Outcome Fields
replace_in opens sources target source (some (object targets)) =
    replace_source opens sources target source targets (get_field target targets)
replace_in opens sources target source (some other) =
    stops (runtime_error (codes "invalid targets"))
replace_in opens sources target source none = stops exception

-- The value of the file after the call; `opens` tells whether it can be opened for writing.
unfoldable pub update_sources_file : Bool → Fields → Text → Fields → Outcome Fields
update_sources_file opens sources target source =
    replace_in opens sources target source (get_field (codes "targets") sources)

abbrev pub object_of : Option Json → Outcome Fields
object_of (some (object d)) = yields d
object_of _ = stops exception

abbrev pub source_in : Fields → Text → Outcome Fields
source_in sources target = object_of (get_field (codes "targets") sources) >>= λ targets.
    object_of (get_field target targets)

-- The files that the script writes.
pub record Files : Type 0 where
  pub sources : Fields
  pub flake : Text
  pub tree : Text

-- How a run ends: with the files that it leaves.
pub record Ended : Type 0 where
  pub files : Files
  pub failure : Option Failure

abbrev pub failed_with : Files → Failure → Ended
failed_with files failure = record { files = files; failure = some failure }

module _ (world : World) where
  -- write_tree(args.tree_output, …)
  abbrev pub written_tree : Text → Text → SourceEntry × List SourceEntry → Files → Ended
  written_tree target version (root, modules) files =
      if world.opens_tree
      then record {
        files = record files { tree = write_tree target version root modules };
        failure = none;
      }
      else failed_with files exception

  -- update_flake_inputs(args.flake, …), and the tree behind it.
  abbrev pub written_flake :
      Text → Text → SourceEntry × List SourceEntry → Files → Outcome Text → Ended
  written_flake target version entries files (stops failure) = failed_with files failure
  written_flake target version entries files (yields flake) =
      if world.opens_flake
      then written_tree target version entries (record files { flake = flake })
      else failed_with files exception

  -- Behind the sources file: the graph, then flake.nix, then the tree.
  abbrev pub write_inputs : Text → Fields → Files → Outcome (SourceEntry × List SourceEntry) → Ended
  write_inputs target source files (stops failure) = failed_with files failure
  write_inputs target source files (yields (root, modules)) =
      elim (text_at world (codes "version") source) [
        | stops failure ↦ failed_with files failure
        | yields version ↦
            written_flake target version (root, modules) files
              (update_flake_inputs world.urlparse root modules files.flake)
      ]

  abbrev pub with_source : Text → Files → Fields → Outcome Fields → Ended
  with_source target files source (stops failure) = failed_with files failure
  with_source target files source (yields sources) =
      write_inputs target source (record files { sources = sources }) (graph_of world target source)

  abbrev pub with_resolved : Text → Files → Outcome Fields → Ended
  with_resolved target files (stops failure) = failed_with files failure
  with_resolved target files (yields source) =
      with_source target files source
        (update_sources_file world.opens_sources files.sources target source)

  unfoldable pub main : Text → Files → Ended
  main target files =
      with_resolved target files (source_in files.sources target >>= resolve_source world)
