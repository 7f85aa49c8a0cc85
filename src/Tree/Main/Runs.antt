-- ===== src/Tree/Main/Runs.antt =====
-- What a run of update-source-tree.py leaves behind.
use nix_strix_halo.Prelude.{
  ◌≡◌, ◌⊎◌, refl, inl, inr, Bool, true, false, none, some, List, if◌then◌else◌,
}
use nix_strix_halo.Prelude.Text.{Text, codes}
use nix_strix_halo.Json.{Fields}
use nix_strix_halo.Tree.Git.{Outcome, stops, yields, Failure, ◌>>=◌}
use nix_strix_halo.Tree.Flake.{SourceEntry, update_flake_inputs, write_tree}
use nix_strix_halo.Tree.Main.{
  World, Files, Ended, failed_with, resolve_source, text_at, source_in, update_sources_file,
  graph_of, written_tree, written_flake, write_inputs, with_source, with_resolved, main,
}

-- The run failed and left the tree as it was, and flake.nix too, unless the tree cannot be opened.
pub record IsUndone (world : World) (files : Files) (ended : Ended) : Type 0 where
  pub why : Failure
  pub failed : ended.failure ≡ some why
  pub same_tree : ended.files.tree ≡ files.tree
  pub same_flake : (ended.files.flake ≡ files.flake) ⊎ (world.opens_tree ≡ false)

-- The run wrote flake.nix and the tree for the graph of the source.
pub record IsWritten (world : World) (target : Text) (source : Fields) (files : Files)
    (ended : Ended) : Type 0 where
  pub root : SourceEntry
  pub modules : List SourceEntry
  pub version : Text
  pub ended_well : ended.failure ≡ none
  pub graph : graph_of world target source ≡ yields (root, modules)
  pub versioned : text_at world (codes "version") source ≡ yields version
  pub flake_written :
      update_flake_inputs world.urlparse root modules files.flake ≡ yields ended.files.flake
  pub tree_written : ended.files.tree ≡ write_tree target version root modules

module _ (world : World) (target : Text) where
  unchanged : (files : Files) (why : Failure) → IsUndone world files (failed_with files why)
  unchanged files why = record { why = why; failed = refl; same_tree = refl; same_flake = inl refl }

  module _ (source : Fields) where
    abbrev Ends : Files → Ended → Type 0
    Ends files ended = IsUndone world files ended ⊎ IsWritten world target source files ended

    on_test :
        (files : Files) (b : Bool) (first second : Ended)
        → (b ≡ true → Ends files first)
        → (b ≡ false → Ends files second)
        → Ends files (if b then first else second)
    on_test files true first second p q = p refl
    on_test files false first second p q = q refl

    module _ (root : SourceEntry) (modules : List SourceEntry)
        (graph : graph_of world target source ≡ yields (root, modules)) where
      written_tree-Ends :
          (version flake : Text) (files : Files)
          → text_at world (codes "version") source ≡ yields version
          → update_flake_inputs world.urlparse root modules files.flake ≡ yields flake
          → Ends files
              (written_tree world target version (root, modules) (record files { flake = flake }))
      written_tree-Ends version flake files v u =
          on_test files world.opens_tree _ _
            (λ opened. inr (record {
              root = root;
              modules = modules;
              version = version;
              ended_well = refl;
              graph = graph;
              versioned = v;
              flake_written = u;
              tree_written = refl;
            }))
            (λ shut.
              inl (record { why = _; failed = refl; same_tree = refl; same_flake = inr shut }))

      written_flake-Ends :
          (version : Text) (files : Files) (o : Outcome Text)
          → text_at world (codes "version") source ≡ yields version
          → update_flake_inputs world.urlparse root modules files.flake ≡ o
          → Ends files (written_flake world target version (root, modules) files o)
      written_flake-Ends version files (stops why) v u = inl (unchanged files why)
      written_flake-Ends version files (yields flake) v u =
          on_test files world.opens_flake _ _ (λ opened. written_tree-Ends version flake files v u)
            (λ shut. inl (unchanged files _))

      versioned-Ends :
          (files : Files) (o : Outcome Text)
          → text_at world (codes "version") source ≡ o
          → Ends files (elim o as (λ o. Ended) [
            | stops failure ↦ failed_with files failure
            | yields version ↦
                written_flake world target version
                  (root, modules)
                  files
                  (update_flake_inputs world.urlparse root modules files.flake)
          ])
      versioned-Ends files (stops why) v = inl (unchanged files why)
      versioned-Ends files (yields version) v = written_flake-Ends version files _ v refl

    write_inputs-Ends :
        (files : Files) (o : Outcome (SourceEntry × List SourceEntry))
        → graph_of world target source ≡ o
        → Ends files (write_inputs world target source files o)
    write_inputs-Ends files (stops why) g = inl (unchanged files why)
    write_inputs-Ends files (yields (root, modules)) g =
        versioned-Ends root modules g files (text_at world (codes "version") source) refl

    with_source-Ends :
        (files : Files) (o : Outcome Fields) → Ends files (with_source world target files source o)
    with_source-Ends files (stops why) = inl (unchanged files why)
    with_source-Ends files (yields sources) =
        elim (write_inputs-Ends (record files { sources = sources }) (graph_of world target source)
          refl) [
            | inl u ↦ inl (record {
              why = u.why;
              failed = u.failed;
              same_tree = u.same_tree;
              same_flake = u.same_flake;
            })
            | inr w ↦ inr (record {
              root = w.root;
              modules = w.modules;
              version = w.version;
              ended_well = w.ended_well;
              graph = w.graph;
              versioned = w.versioned;
              flake_written = w.flake_written;
              tree_written = w.tree_written;
            })
          ]

  with_resolved-Ends :
      (files : Files) (o : Outcome Fields)
      → IsUndone world files (with_resolved world target files o)
        ⊎ ((source : Fields) × (o ≡ yields source)
            × IsWritten world target source files (with_resolved world target files o))
  with_resolved-Ends files (stops why) = inl (unchanged files why)
  with_resolved-Ends files (yields source) =
      elim (with_source-Ends source files
        (update_sources_file world.opens_sources files.sources target source)) [
          | inl u ↦ inl u
          | inr w ↦ inr (source, refl, w)
        ]

  -- A run of update-source-tree.py either fails and leaves the tree file as it was, and flake.nix
  -- too, unless the tree file cannot be opened for writing, or it ends well, and then flake.nix is
  -- rewritten and the tree file written for one and the same graph, which is that of the resolved
  -- source, with the version of this source.
  pub main-Ends :
      (files : Files)
      → IsUndone world files (main world target files)
        ⊎ ((source : Fields) × ((source_in files.sources target >>= resolve_source world)
              ≡ yields source)
            × IsWritten world target source files (main world target files))
  unfolding main
  main-Ends files =
      with_resolved-Ends files (source_in files.sources target >>= resolve_source world)
