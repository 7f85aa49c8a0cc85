-- ===== src/Tree/Flake.antt =====
-- `input_lines`, `update_flake_inputs` and `write_tree` of update-source-tree.py, on the lines of
-- the files.
pub mod Markers
pub mod Block
pub mod Again
use nix_strix_halo.Prelude.{
  ℕ, suc, ◌+◌, Bool, true, false, Option, none, some, List, [], ◌∷◌, ◌++◌, if◌then◌else◌, ltb, take,
  drop,
}
use nix_strix_halo.Prelude.Text.{Text, codes, text_eq, join}
use nix_strix_halo.Tree.Git.{Outcome, stops, yields, runtime_error, splitlines}
use nix_strix_halo.Tree.Names.{Parsed, nix_string, input_url}

pub record SourceEntry : Type 0 where
  pub path : Text
  pub url : Text
  pub rev : Text
  pub input_name : Text

abbrev pub begin_inputs : Text
begin_inputs = codes "    # BEGIN generated TheRock source inputs"

abbrev pub end_inputs : Text
end_inputs = codes "    # END generated TheRock source inputs"

-- lines.index(x); `none` is the ValueError.
abbrev pub next_index : Option ℕ → Option ℕ
next_index none = none
next_index (some i) = some (suc i)

unfoldable pub index_of : Text → List Text → Option ℕ
index_of x [] = none
index_of x (line ∷ lines) =
    let later = index_of x lines in if text_eq line x then some 0 else next_index later

-- "\n".join(lines) + "\n"
abbrev pub text_of : List Text → Text
text_of lines = join (10 ∷ []) lines ++ 10 ∷ []

module _ (urlparse : Text → Parsed) where
  abbrev pub entry_lines : SourceEntry → List Text
  entry_lines entry =
      (codes "    " ++ (nix_string entry.input_name ++ codes " = {"))
      ∷ (codes "      url = " ++ (nix_string (input_url urlparse entry.url entry.rev) ++ codes ";"))
      ∷ codes "      flake = false;"
      ∷ codes "    };"
      ∷ []
      ∷ []

  unfoldable pub all_entry_lines : List SourceEntry → List Text
  all_entry_lines [] = []
  all_entry_lines (entry ∷ entries) = entry_lines entry ++ all_entry_lines entries

  abbrev pub generated_note : Text
  generated_note =
      codes "    # Generated by pkgs/therock/scripts/update-source-tree.py; do not edit by hand."

  unfoldable pub input_lines : SourceEntry → List SourceEntry → List Text
  input_lines root submodules =
      begin_inputs ∷ (generated_note ∷ (all_entry_lines (root ∷ submodules) ++ end_inputs ∷ []))

  abbrev pub replace_block : List Text → List Text → Option ℕ → Option ℕ → Outcome (List Text)
  replace_block replacement lines (some first) (some last) =
      if ltb first last
      then yields (take first lines ++ (replacement ++ drop (last + 1) lines))
      else stops (runtime_error (codes "invalid generated TheRock source input marker order"))
  replace_block replacement lines _ _ =
      stops (runtime_error (codes "missing generated TheRock source input markers"))

  unfoldable pub update_lines : SourceEntry → List SourceEntry → List Text → Outcome (List Text)
  update_lines root submodules lines =
      replace_block (input_lines root submodules) lines (index_of begin_inputs lines)
        (index_of end_inputs lines)

  abbrev pub written : Outcome (List Text) → Outcome Text
  written (stops failure) = stops failure
  written (yields lines) = yields (text_of lines)

  -- From the text of the file to the text that is written.
  unfoldable pub update_flake_inputs : SourceEntry → List SourceEntry → Text → Outcome Text
  update_flake_inputs root submodules content =
      written (update_lines root submodules (splitlines content))

unfoldable pub tree_lines : List SourceEntry → List Text
tree_lines [] = []
tree_lines (entry ∷ entries) =
    codes "      {"
    ∷ (codes "        path = " ++ (nix_string entry.path ++ codes ";"))
    ∷ (codes "        source = inputs." ++ (nix_string entry.input_name ++ codes ";"))
    ∷ codes "      }"
    ∷ tree_lines entries

unfoldable pub write_tree : Text → Text → SourceEntry → List SourceEntry → Text
write_tree target version root submodules = text_of (
    codes "# Generated by pkgs/therock/scripts/update-source-tree.py; do not edit by hand."
    ∷ codes "{ inputs }:"
    ∷ codes "{"
    ∷ (codes "  " ++ (nix_string target ++ codes " = {"))
    ∷ (codes "    version = " ++ (nix_string version ++ codes ";"))
    ∷ (codes "    root = inputs." ++ (nix_string root.input_name ++ codes ";"))
    ∷ codes "    submodules = ["
    ∷ (tree_lines submodules ++ codes "    ];" ∷ codes "  };" ∷ codes "}" ∷ []))
