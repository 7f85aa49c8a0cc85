-- ===== src/Tree/Git.antt =====
-- What update-source-tree.py reads from git: revisions, submodules and the commits of a tree.
-- The outputs of the commands are parameters; a checkout is known by the source it was fetched from.
pub mod Revision
use nix_strix_halo.Prelude.{
  ℕ, zero, suc, Bool, true, false, not, Option, none, some, List, [], ◌∷◌, ◌++◌, if◌then◌else◌,
  length, keep, leb, ◌&&◌, ◌||◌,
}
use nix_strix_halo.Prelude.Text.{
  Text, codes, text_eq, is_space, take_while, drop_while, strip, split, prepend,
}
use nix_strix_halo.Prelude.Dict.{Dict, get, put}

-- str.splitlines. The texts are read with universal newlines, so that none holds "\r\n".
abbrev pub is_break : ℕ → Bool
is_break c = (leb 10 c && leb c 13) || (leb 28 c && leb c 30)

unfoldable pub splitlines : Text → List Text
splitlines [] = []
splitlines (c ∷ s) = let rest = splitlines s in if is_break c then [] ∷ rest else prepend c rest

abbrev pub is_graphic : ℕ → Bool
is_graphic c = not (is_space c)

-- s.split(None, n): at most n words, then what is left behind the blanks.
unfoldable pub split_words : ℕ → Text → List Text
split_words zero s = elim (drop_while is_space s) [ [] ↦ [] | c ∷ t ↦ (c ∷ t) ∷ [] ]
split_words (suc n) s =
    let rest = split_words n (drop_while is_graphic (drop_while is_space s)) in
    elim (drop_while is_space s) [ [] ↦ [] | c ∷ t ↦ take_while is_graphic (c ∷ t) ∷ rest ]

-- s.split()
abbrev pub words : Text → List Text
words s = split_words (length s) s

-- How the script ends: by a RuntimeError of its own, or by another exception.
pub data Failure : Type 0 where
  runtime_error : Text → Failure
  exception : Failure

pub data Outcome {ℓ} (A : Type ℓ) : Type ℓ where
  stops : Failure → Outcome A
  yields : A → Outcome A

infixl 5 ◌>>=◌
abbrev pub ◌>>=◌ {ℓ κ} : {A : Type ℓ} {B : Type κ} → Outcome A → (A → Outcome B) → Outcome B
stops failure >>= next = stops failure
yields value >>= next = next value

-- What a loop over the lines of `git ls-remote` finds: a revision, nothing, or a line that cannot
-- be unpacked.
pub data Lookup : Type 0 where
  found : Text → Lookup
  absent : Lookup
  malformed : Lookup

-- rev, resolved_ref = line.split()[:2]
abbrev pub pair_of : List Text → Option (Text × Text)
pair_of (rev ∷ ref ∷ rest) = some (rev, ref)
pair_of _ = none

unfoldable pub find_ref : Text → List Text → Lookup
find_ref ref [] = absent
find_ref ref (line ∷ lines) =
    let later = find_ref ref lines in
    elim (pair_of (words line)) [
      | none ↦ malformed
      | some (rev, resolved_ref) ↦ if text_eq resolved_ref ref then found rev else later
    ]

-- f"{ref}^{{}}"
abbrev pub peeled : Text → Text
peeled ref = ref ++ codes "^{}"

abbrev pub has_text : Text → Bool
has_text [] = false
has_text (c ∷ s) = true

abbrev pub rev_or_error : Text → Text → Lookup → Outcome Text
rev_or_error url ref (found rev) = yields rev
rev_or_error url ref absent =
    stops (runtime_error (codes "no exact revision found for " ++ (url ++ (codes " " ++ ref))))
rev_or_error url ref malformed = stops exception

abbrev pub rev_of : Text → Text → List Text → Lookup → Outcome Text
rev_of url ref lines (found rev) = yields rev
rev_of url ref lines absent = rev_or_error url ref (find_ref ref lines)
rev_of url ref lines malformed = stops exception

abbrev pub rev_among : Text → Text → List Text → Outcome Text
rev_among url ref [] =
    stops (runtime_error (codes "no revision found for " ++ (url ++ (codes " " ++ ref))))
rev_among url ref (line ∷ lines) =
    rev_of url ref (line ∷ lines) (find_ref (peeled ref) (line ∷ lines))

-- `output` is what `git ls-remote` prints for the ref and its peeled form; the error messages leave
-- it out.
unfoldable pub git_rev : Text → Text → Text → Outcome Text
git_rev output url ref = rev_among url ref (keep (λ l. has_text (strip l)) (splitlines output))

-- The loop of `git_config_blob` over the lines of `git config --get-regexp`.
abbrev pub config_line : List Text → Dict Text → Outcome (Dict Text)
config_line (key ∷ value ∷ []) values = yields (put key value values)
config_line _ values = stops exception

unfoldable pub config_lines : List Text → Dict Text → Outcome (Dict Text)
config_lines [] values = yields values
config_lines (line ∷ lines) values =
    if has_text (strip line)
    then config_line (split_words 1 line) values >>= config_lines lines
    else config_lines lines values

-- `none` is a command that fails.
unfoldable pub git_config_blob : Option Text → Outcome (Dict Text)
git_config_blob none = yields []
git_config_blob (some output) = config_lines (splitlines output) []

pub record Meta : Type 0 where
  pub name : Text
  pub path : Text
  pub url : Text

-- key.split(".")[1]
abbrev pub second : List Text → Outcome Text
second (a ∷ b ∷ rest) = yields b
second _ = stops exception

-- One turn of the loop over the paths.
abbrev pub add_module : Dict Text → Text → Text → Dict Meta → Dict Meta
add_module urls name path by_name = elim (get (codes "submodule." ++ (name ++ codes ".url")) urls) [
  | none ↦ by_name
  | some url ↦ put name (record { name = name; path = path; url = url }) by_name
]

unfoldable pub modules_by_name : Dict Text → Dict Text → Dict Meta → Outcome (Dict Meta)
modules_by_name urls [] by_name = yields by_name
modules_by_name urls ((key, path) ∷ paths) by_name = second (split b'.' key) >>= λ name.
    modules_by_name urls paths (add_module urls name path by_name)

unfoldable pub by_path_of : Dict Meta → Dict Meta → Dict Meta
by_path_of [] by_path = by_path
by_path_of ((name, m) ∷ by_name) by_path = by_path_of by_name (put m.path m by_path)

unfoldable pub submodules : Option Text → Option Text → Outcome (Dict Meta × Dict Meta)
submodules paths_output urls_output = do
  paths ← git_config_blob paths_output
  urls ← git_config_blob urls_output
  by_name ← modules_by_name urls paths []
  yields (by_name, by_path_of by_name [])

abbrev pub not_resolved : Text → Outcome Meta
not_resolved selector = stops (runtime_error (codes "could not resolve submodule " ++ selector))

abbrev pub or_by_name : Dict Meta → Text → Outcome Meta
or_by_name by_name selector = elim (get selector by_name) [
  | none ↦ not_resolved selector
  | some m ↦ yields m
]

abbrev pub by_path_first : Dict Meta → Dict Meta → Text → Outcome Meta
by_path_first by_name by_path selector = elim (get selector by_path) [
  | none ↦ or_by_name by_name selector
  | some m ↦ yields m
]

unfoldable pub resolve_submodule : Dict Meta × Dict Meta → Text → Bool → Outcome Meta
resolve_submodule (by_name, by_path) selector true = elim (get selector by_name) [
  | none ↦ by_path_first by_name by_path selector
  | some m ↦ yields m
]
resolve_submodule (by_name, by_path) selector false = by_path_first by_name by_path selector

abbrev pub commit_of : Text → List Text → Outcome Text
commit_of path (mode ∷ kind ∷ commit ∷ rest) =
    if text_eq kind (codes "commit")
    then yields commit
    else stops (runtime_error (path ++ codes " is not a submodule gitlink"))
commit_of path _ = stops (runtime_error (path ++ codes " is not a submodule gitlink"))

-- `output` is what `git ls-tree HEAD -- path` prints.
unfoldable pub tree_commit : Text → Text → Outcome Text
tree_commit output path =
    let line = strip output in
    if has_text line
    then commit_of path (split_words 3 line)
    else stops (runtime_error (codes "no git tree entry for " ++ path))
