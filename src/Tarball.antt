-- ===== src/Tarball.antt =====
-- update-rocm.py: the pins of the ROCm tarballs, one for each GPU target.
pub mod Version
pub mod Series
use nix_strix_halo.Prelude.{
  ℕ, zero, suc, ◌+◌, Bool, true, false, ◌&&◌, ◌||◌, not, Option, none, some, List, [], ◌∷◌, ◌++◌,
  if◌then◌else◌, length, drop, keep, last?, ◌==◌,
}
use nix_strix_halo.Prelude.Sort.{sorted}
use nix_strix_halo.Prelude.Text.{Text, codes, starts_with, is_digit, is_alpha}
use nix_strix_halo.Prelude.Dict.{Dict, get}
use nix_strix_halo.Json.{Json, text, object, Fields, end, field, fields, get_field, put_field}
use nix_strix_halo.Version.{compare_version, match_series, next_is}

abbrev pub base_url : Text
base_url = codes "https://stable.repo.amd.com/rocm/core/tarball/"

abbrev pub target_slugs : Dict Text
target_slugs =
    (codes "gfx1010", codes "gfx101X-dgpu")
    ∷ (codes "gfx1030", codes "gfx103X-all")
    ∷ (codes "gfx1036", codes "gfx103X-all")
    ∷ (codes "gfx1103", codes "gfx110X-all")
    ∷ (codes "gfx110X", codes "gfx110X-dgpu")
    ∷ (codes "gfx120X", codes "gfx120X-all")
    ∷ []

unfoldable pub target_slug : Text → Text
target_slug target = elim (get target target_slugs) [ none ↦ target | some slug ↦ slug ]

-- [0-9A-Za-z.+~_-]
abbrev pub is_version_char : ℕ → Bool
is_version_char c =
    is_digit c
    || (is_alpha c || (c == b'.' || (c == b'+' || (c == b'~' || (c == b'_' || c == b'-')))))

abbrev pub ends_here : Text → Option Text
ends_here s = if starts_with (codes ".tar.gz") s then some [] else none

-- [0-9A-Za-z.+~_-]*\.tar\.gz at the start: the longest part before the ending.
unfoldable pub greedy_version : Text → Option Text
greedy_version [] = none
greedy_version (c ∷ s) =
    let later = greedy_version s in
    if is_version_char c
    then elim later [ none ↦ ends_here (c ∷ s) | some v ↦ some (c ∷ v) ]
    else ends_here (c ∷ s)

-- ([0-9][0-9A-Za-z.+~_-]*)\.tar\.gz at the start
abbrev pub version_at : Text → Option Text
version_at [] = none
version_at (c ∷ s) =
    let rest = greedy_version s in
    if is_digit c then (elim rest [ none ↦ none | some v ↦ some (c ∷ v) ]) else none

abbrev pub prefix_of : Text → Text
prefix_of target = codes "therock-dist-linux-" ++ (target_slug target ++ codes "-")

abbrev pub match_at : Text → Text → Option Text
match_at prefix s = if starts_with prefix s then version_at (drop (length prefix) s) else none

-- pattern.findall(index): `skip` characters belong to the last match.
unfoldable pub find_all : Text → ℕ → Text → List Text
find_all prefix skip [] = []
find_all prefix (suc skip) (c ∷ s) = find_all prefix skip s
find_all prefix zero (c ∷ s) =
    let here = match_at prefix (c ∷ s) in
    let behind =
      find_all prefix (elim here [ none ↦ 0 | some v ↦ length prefix + length v + 6 ]) s in
    elim here [ none ↦ behind | some v ↦ v ∷ behind ]

-- re.match(rf"^{re.escape(series)}(?!\d)", version)
unfoldable pub in_series : Text → Text → Bool
in_series series version =
    starts_with series version && not (next_is is_digit (drop (length series) version))

abbrev pub of_series : Option Text → List Text → List Text
of_series none versions = versions
of_series (some series) versions = keep (in_series series) versions

-- How a run ends without writing.
pub data Stop : Type 0 where
  usage_error : Stop
  no_tarball : Text → Stop
  exception : Stop

pub data Step {ℓ} (A : Type ℓ) : Type ℓ where
  stop : Stop → Step A
  go : A → Step A

infixl 5 ◌>>=◌
abbrev pub ◌>>=◌ {ℓ κ} : {A : Type ℓ} {B : Type κ} → Step A → (A → Step B) → Step B
stop reason >>= next = stop reason
go value >>= next = next value

abbrev pub newest : Text → Option Text → Step Text
newest target none = stop (no_tarball target)
newest target (some version) = go version

-- What the script meets: the index, the hash that nix gives for an address, the order in which a
-- set is iterated over, and the clock.
pub record World : Type 0 where
  pub fetch_index : Option Text
  pub prefetch : Text → Option Text
  pub iterate : List Text → List Text
  pub now : Text

unfoldable pub find_version : (List Text → List Text) → Text → Text → Option Text → Step Text
find_version iterate index target series = newest target (
    last?
      (of_series series (sorted compare_version (iterate (find_all (prefix_of target) 0 index)))))

abbrev pub read_step : {A : Type 0} → Option A → Step A
read_step none = stop exception
read_step (some a) = go a

-- entry.get("version", ""), where it is a text; another value raises an exception that is not caught.
abbrev pub entry_version : Json → Step Text
entry_version (object entry) = elim (get_field (codes "version") entry) [
  | none ↦ go []
  | some (text version) ↦ go version
  | some other ↦ stop exception
]
entry_version _ = stop exception

unfoldable pub series_among : Fields → Step (Option Text)
series_among end = go none
series_among (field target entry entries) =
    let later = series_among entries in
    entry_version entry >>= λ version. elim (match_series version) [
      | none ↦ later
      | some series ↦ go (some series)
    ]

-- `none` for a file that cannot be read or parsed.
abbrev pub linux_series : Option Json → Step (Option Text)
linux_series none = go none
linux_series (some (object linux)) = series_among linux
linux_series (some other) = stop exception

unfoldable pub pinned_series : Option Fields → Step (Option Text)
pinned_series none = go none
pinned_series (some sources) = linux_series (get_field (codes "linux") sources)

pub record Args : Type 0 where
  pub targets : List Text
  pub series : Option Text
  pub version : Option Text

-- A text that is not empty.
abbrev pub given : Option Text → Option Text
given (some []) = none
given o = o

abbrev pub required : Option Text → Step (Option Text)
required o = elim (given o) [ none ↦ stop usage_error | some series ↦ go (some series) ]

-- args.series behind the default from the pin.
abbrev pub series_of : Args → Option Fields → Step (Option Text)
series_of args sources = elim (given args.series) [
  | some series ↦ go (some series)
  | none ↦ elim (given args.version) [
    | some version ↦ go args.series
    | none ↦ pinned_series sources >>= required
  ]
]

abbrev pub targets_of : List Text → List Text
targets_of [] = codes "gfx1151" ∷ []
targets_of (target ∷ targets) = target ∷ targets

abbrev pub filename_of : Text → Text → Text
filename_of target version = prefix_of target ++ (version ++ codes ".tar.gz")

abbrev pub pin_of : World → Text → Text → Text → Json
pin_of world target version hash = object (
    fields (
      (codes "url", text (base_url ++ filename_of target version))
      ∷ (codes "hash", text hash)
      ∷ (codes "version", text version)
      ∷ (codes "filename", text (filename_of target version))
      ∷ (codes "updated", text world.now)
      ∷ []))

abbrev pub version_of : World → Text → Option Text → Option Text → Text → Step Text
version_of world index version series target = elim (given version) [
  | some v ↦ go v
  | none ↦ find_version world.iterate index target series
]

-- The loop over the targets, on the pins of linux.
unfoldable pub pin_targets :
    World → Text → Option Text → Option Text → List Text → Fields → Step Fields
pin_targets world index version series [] linux = go linux
pin_targets world index version series (target ∷ targets) linux = do
  v ← version_of world index version series target
  hash ← read_step (world.prefetch (base_url ++ filename_of target v))
  pin_targets world index version series targets
      (put_field target (pin_of world target v hash) linux)

abbrev pub linux_of : Option Json → Step Fields
linux_of none = go end
linux_of (some (object linux)) = go linux
linux_of (some other) = stop exception

abbrev pub index_of : World → Option Text → Step Text
index_of world version = elim (given version) [
  | some v ↦ go []
  | none ↦ read_step world.fetch_index
]

abbrev pub sources_of : Option Fields → Fields
sources_of none = fields ((codes "linux", object end) ∷ [])
sources_of (some sources) = sources

-- From the value of the file, `none` where it is not there, to the value that is written.
unfoldable pub main : World → Args → Option Fields → Step Fields
main world args file = do
  series ← series_of args file
  index ← index_of world args.version
  linux ← linux_of (get_field (codes "linux") (sources_of file))
  pinned ← pin_targets world index args.version series (targets_of args.targets) linux
  go (put_field (codes "linux") (object pinned) (sources_of file))
