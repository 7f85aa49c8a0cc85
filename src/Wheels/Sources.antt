-- ===== src/Wheels/Sources.antt =====
-- `load_sources`, `pinned_python_tag`, `pinned_series` and `parse_package_version` of
-- update-python-wheels.py: what the script reads from its file and from its arguments.
use nix_strix_halo.Prelude.{◌||◌, not, Option, none, some, [], ◌∷◌, if◌then◌else◌, ◌==◌, drop}
use nix_strix_halo.Prelude.Text.{Text, codes, starts_with, is_space, drop_while, partition}
use nix_strix_halo.Json.{Json, null, text, object, Fields, end, get_field, fields}
use nix_strix_halo.Version.{match_series}
use nix_strix_halo.Wheels.{normalize_project}
use nix_strix_halo.Wheels.Filename.{is_nil}

-- d.get(k), with `None` as `null`
abbrev pub get_or_null : Text → Fields → Json
get_or_null k d = elim (get_field k d) [ none ↦ null | some v ↦ v ]

-- The legacy layout with one target: `none` where the name of the target is no text.
abbrev wrap_target : Fields → Json → Option Fields
wrap_target doc (text target) = some (
    fields (
      (codes "targets", object (fields ((target, object doc) ∷ [])))
      ∷ (codes "updated", get_or_null (codes "updated") doc)
      ∷ []))
wrap_target doc _ = none

-- `none` for a file that is not there; the file's value is an object.
unfoldable pub load_sources : Option Fields → Option Fields
load_sources none = some (fields ((codes "targets", object end) ∷ []))
load_sources (some doc) = elim (get_field (codes "targets") doc) [
  | some targets ↦ some doc
  | none ↦ elim (get_field (codes "target") doc) [
    | some target ↦ wrap_target doc target
    | none ↦ some (fields ((codes "targets", object doc) ∷ []))
  ]
]

abbrev text_of : Option Json → Option Text
text_of (some (text t)) = some t
text_of _ = none

-- A pin that is no object has no tag.
abbrev tag_of : Option Json → Option Text
tag_of (some (object pin)) = text_of (get_field (codes "pythonTag") pin)
tag_of _ = none

-- The outer `none` is the AttributeError of `.get` on targets that are no object.
unfoldable pub pinned_python_tag : Fields → Text → Option (Option Text)
pinned_python_tag sources target = elim (get_field (codes "targets") sources) [
  | none ↦ some none
  | some (object targets) ↦ some (tag_of (get_field target targets))
  | some other ↦ none
]

-- `"\s*"` and the rest of the pattern behind `"rocmVersion":`
abbrev series_behind : Text → Option Text
series_behind s = elim (drop_while is_space s) [
  | [] ↦ none
  | c ∷ t ↦ if c == b'"' then match_series t else none
]

-- re.search(r'"rocmVersion":\s*"(\d+\.\d+)\.', text), and its group
unfoldable pub search_series : Text → Option Text
search_series [] = none
search_series (c ∷ s) =
    let later = search_series s in
    let here =
      if starts_with (codes "\"rocmVersion\":") (c ∷ s)
      then series_behind (drop 14 (c ∷ s))
      else none in
    elim here [ none ↦ later | some series ↦ some series ]

-- `none` for a file that cannot be read (OSError).
unfoldable pub pinned_series : Option Text → Option Text
pinned_series none = none
pinned_series (some content) = search_series content

-- `none` is the ArgumentTypeError.
unfoldable pub parse_package_version : Text → Option (Text × Text)
parse_package_version value =
    let p = partition b'=' value in
    if not p.found || (is_nil p.head || is_nil p.tail)
    then none
    else some (normalize_project p.head, p.tail)
