-- ===== src/ThirdParty.antt =====
-- update-rocm-third-party.py: the archives that TheRock's CMake files download, and the pins of the
-- two sources beside them.
pub mod Reuse
pub mod Archives
pub mod Main
use nix_strix_halo.Prelude.{
  ℕ, zero, suc, ◌+◌, ◌-◌, Bool, true, false, ◌&&◌, ◌||◌, not, Option, none, some, List, [], ◌∷◌,
  ◌++◌, if◌then◌else◌, length, drop, take, all, leb, ◌==◌,
}
use nix_strix_halo.Prelude.Text.{
  Text, codes, text_eq, starts_with, ends_with, is_digit, is_alpha, is_space, lower, take_while,
  drop_while, strip, strip_by, drop_last,
}
use nix_strix_halo.Prelude.Dict.{Dict, get, put}
use nix_strix_halo.Wheels.Filename.{file_name, is_nil}
use nix_strix_halo.Tree.Git.{splitlines, split_words, peeled}

-- What the script calls: base64 of the bytes of a hexadecimal digest (`none` is the ValueError),
-- `git ls-remote`, and the hashes that nix gives for a source.
pub record World : Type 0 where
  pub base64_of_hex : Text → Option Text
  pub ls_remote : Text → Text → Text
  pub prefetch_git : Text → Text → Option Text
  pub prefetch_unpacked : Text → Option Text

-- \w
abbrev pub is_name_char : ℕ → Bool
is_name_char c = is_digit c || (is_alpha c || c == b'_')

abbrev pub not_quote : ℕ → Bool
not_quote c = not (c == b'"')

-- A match, and what follows it.
pub record Found (A : Type 0) : Type 0 where
  pub value : A
  pub rest : Text

-- "([^"]+)"\) at the start
unfoldable pub quoted_at : Text → Option (Found Text)
quoted_at [] = none
quoted_at (c ∷ s) =
    let value = take_while not_quote s in
    if not (c == b'"') || (is_nil value || not (starts_with (codes "\")") (drop_while not_quote s)))
    then none
    else some (record { value = value; rest = drop 2 (drop_while not_quote s) })

abbrev named : Text → Option (Found Text) → Option (Found (Text × Text))
named name none = none
named name (some f) = some (record { value = (name, f.value); rest = f.rest })

-- \s*set\((\w+)\s+"([^"]+)"\) at the start
unfoldable pub set_at : Text → Option (Found (Text × Text))
set_at s =
    let t = drop_while is_space s in
    let u = drop 4 t in
    let name = take_while is_name_char u in
    let blanks = drop_while is_name_char u in
    if not (starts_with (codes "set(") t) || (is_nil name || is_nil (take_while is_space blanks))
    then none
    else named name (quoted_at (drop_while is_space blanks))

-- re.finditer in the multiline mode: `start` says that a line starts here, and `skip` characters
-- belong to the last match.
unfoldable pub vars_from : Bool → ℕ → Text → Dict Text → Dict Text
vars_from start skip [] vars = vars
vars_from start (suc skip) (c ∷ s) vars = vars_from (c == 10) skip s vars
vars_from false zero (c ∷ s) vars = vars_from (c == 10) 0 s vars
vars_from true zero (c ∷ s) vars =
    let here = set_at (c ∷ s) in
    vars_from (c == 10) (elim here [ none ↦ 0 | some f ↦ length s - length f.rest ]) s
      (elim here [ none ↦ vars | some f ↦ put f.value.0 f.value.1 vars ])

unfoldable pub cmake_vars : Text → Dict Text
cmake_vars content = vars_from true 0 content []

abbrev pub get_or : Text → Text → Dict Text → Text
get_or k v vars = elim (get k vars) [ none ↦ v | some w ↦ w ]

-- \$\{(\w+)\} at the start: the name.
abbrev pub variable_at : Text → Option Text
variable_at s =
    let name = take_while is_name_char (drop 2 s) in
    if starts_with (codes "${") s
      && (not (is_nil name) && starts_with (codes "}") (drop_while is_name_char (drop 2 s)))
    then some name
    else none

-- re.sub(r"\$\{(\w+)\}", repl, value)
unfoldable pub substitute : Dict Text → ℕ → Text → Text
substitute vars skip [] = []
substitute vars (suc skip) (c ∷ s) = substitute vars skip s
substitute vars zero (c ∷ s) =
    let here = variable_at (c ∷ s) in
    let rest = substitute vars (elim here [ none ↦ 0 | some name ↦ length name + 2 ]) s in
    elim here [
      | none ↦ c ∷ rest
      | some name ↦ get_or name (codes "${" ++ (name ++ codes "}")) vars ++ rest
    ]

unfoldable pub expand : Text → Dict Text → Text
expand value vars =
    let bare = strip_by (λ c. c == b'"') (strip value) in
    substitute vars 0 (
      if starts_with (codes "${") bare && ends_with (codes "}") bare
      then get_or (drop 2 (drop_last 1 bare)) bare vars
      else bare)

-- URL\s+(.+)$ at the start of a line without blanks at its ends
unfoldable pub url_of : Text → Option Text
url_of line =
    let rest = drop 3 line in
    if starts_with (codes "URL") line && not (is_nil (take_while is_space rest))
    then some (drop_while is_space rest)
    else none

abbrev pub is_hex : ℕ → Bool
is_hex c = is_digit c || ((leb b'A' c && leb c b'F') || (leb b'a' c && leb c b'f'))

abbrev pub digest_in : Text → Option (Text × Text)
digest_in s =
    let digest = take_while is_hex (drop 7 s) in
    let algo = take 6 s in
    if (starts_with (codes "SHA256=") s || starts_with (codes "SHA512=") s) && not (is_nil digest)
    then some (lower algo, digest)
    else none

-- URL_HASH\s+"?(SHA(256|512))=([0-9A-Fa-f]+)"? at the start
unfoldable pub hash_of : Text → Option (Text × Text)
hash_of line =
    let rest = drop 8 line in
    let value = drop_while is_space rest in
    if starts_with (codes "URL_HASH") line && not (is_nil (take_while is_space rest))
    then digest_in (if starts_with (codes "\"") value then drop 1 value else value)
    else none

pub record Archive : Type 0 where
  pub url : Text
  pub hash : Text

module _ (world : World) where
  -- `none` is the ValueError of bytes.fromhex.
  unfoldable pub sri : Text → Text → Option Text
  sri algo hex_digest = elim (world.base64_of_hex hex_digest) [
    | none ↦ none
    | some digest ↦ some (lower algo ++ b'-' ∷ digest)
  ]

  -- The variables of the loop over the lines.
  pub record Scan : Type 0 where
    pub pending_url : Option Text
    pub archives : Dict Archive

  abbrev pub add_archive : Text → Option Text → Scan → Option Scan
  add_archive url none scan = none
  add_archive url (some hash) scan = some (record {
    pending_url = none;
    archives = put (file_name url) (record { url = url; hash = hash }) scan.archives;
  })

  abbrev pub take_hash : Option (Text × Text) → Option Text → Scan → Option Scan
  take_hash (some (algo, digest)) (some url) scan =
      if starts_with (codes "https://") url
      then add_archive url (sri algo digest) scan
      else some scan
  take_hash _ _ scan = some scan

  -- One turn of the loop, at a stripped line.
  unfoldable pub scan_line : Dict Text → Text → Scan → Option Scan
  scan_line vars line scan =
      if is_nil line || starts_with (codes "#") line then some scan else elim (url_of line) [
        | some url ↦ some (record scan { pending_url = some (expand url vars) })
        | none ↦ take_hash (hash_of line) scan.pending_url scan
      ]

  unfoldable pub scan_lines : Dict Text → List Text → Scan → Option Scan
  scan_lines vars [] scan = some scan
  scan_lines vars (line ∷ lines) scan = elim (scan_line vars (strip line) scan) [
    | none ↦ none
    | some next ↦ scan_lines vars lines next
  ]

  -- `contents` are the CMake files in the order of their sorted paths.
  unfoldable pub scan_archives : List Text → Dict Archive → Option (Dict Archive)
  scan_archives [] archives = some archives
  scan_archives (content ∷ contents) archives =
      elim (scan_lines (cmake_vars content) (splitlines content)
        (record { pending_url = none; archives = archives })) [
          | none ↦ none
          | some scan ↦ scan_archives contents scan.archives
        ]
