-- ===== src/ThirdParty/Main.antt =====
-- `parse_esmi_pin`, `scan_esmi_ib_library` and `main` of update-rocm-third-party.py.
use nix_strix_halo.Prelude.{
  ℕ, Bool, true, false, ◌&&◌, ◌||◌, not, Option, none, some, List, [], ◌∷◌, ◌++◌, if◌then◌else◌,
  length, drop, all, leb, ◌==◌,
}
use nix_strix_halo.Prelude.Text.{
  Text, codes, starts_with, is_digit, is_space, take_while, drop_while, strip,
}
use nix_strix_halo.Prelude.Dict.{Dict, get}
use nix_strix_halo.Wheels.Filename.{is_nil}
use nix_strix_halo.ThirdParty.{World, Found, quoted_at, Archive, scan_archives}
use nix_strix_halo.ThirdParty.Reuse.{ls_remote_peeled_tag, Source, source_hash}

abbrev pub esmi_ib_library_url : Text
esmi_ib_library_url = codes "https://github.com/amd/esmi_ib_library.git"

abbrev value_of : Option (Found Text) → Option Text
value_of none = none
value_of (some f) = some f.value

-- set\(NAME\s+"([^"]+)"\) at the start, for `head` "set(NAME"
abbrev pub setting_at : Text → Text → Option Text
setting_at head s =
    let rest = drop (length head) s in
    if starts_with head s && not (is_nil (take_while is_space rest))
    then value_of (quoted_at (drop_while is_space rest))
    else none

abbrev pub is_lower_hex : ℕ → Bool
is_lower_hex c = is_digit c || (leb b'a' c && leb c b'f')

abbrev pub is_commit : Text → Bool
is_commit value = (length value == 40) && all is_lower_hex value

abbrev pub accepted : (Text → Bool) → Option Text → Option Text
accepted p none = none
accepted p (some value) = if p value then some value else none

-- re.search: the leftmost setting whose value is accepted.
unfoldable pub search_setting : Text → (Text → Bool) → Text → Option Text
search_setting head p [] = none
search_setting head p (c ∷ s) =
    let later = search_setting head p s in
    elim (accepted p (setting_at head (c ∷ s))) [ none ↦ later | some value ↦ some value ]

pub record EsmiPin : Type 0 where
  pub ref : Text
  pub rev : Text

abbrev pub tag_pin : World → Option Text → Option EsmiPin
tag_pin world none = none
tag_pin world (some tag) = elim (ls_remote_peeled_tag world esmi_ib_library_url tag) [
  | none ↦ none
  | some rev ↦ some (record { ref = codes "refs/tags/" ++ tag; rev = rev })
]

-- `none` is the RuntimeError, or an exception of the look-up of the tag.
unfoldable pub parse_esmi_pin : World → Text → Option EsmiPin
parse_esmi_pin world cmake = elim (search_setting (codes "set(ESMI_GIT_HASH") is_commit cmake) [
  | some rev ↦ some (record { ref = rev; rev = rev })
  | none ↦ tag_pin world (search_setting (codes "set(current_esmi_tag") (λ value. true) cmake)
]

pub record Args : Type 0 where
  pub spirv_headers_hash : Option Text
  pub esmi_ib_library_hash : Option Text

-- What the script reads of the source tree: the CMake files of third-party by their sorted paths,
-- that of amdsmi, and the tag of the SPIR-V headers.
pub record Staged : Type 0 where
  pub third_party : List Text
  pub amdsmi : Text
  pub spirv_headers_tag : Text

-- The values that are written.
pub record Data : Type 0 where
  pub archives : Dict Archive
  pub esmi : EsmiPin
  pub esmi_hash : Text
  pub spirv : Source
  pub spirv_hash : Text

abbrev pub source_of_tag : Text → Source
source_of_tag tag = record {
  url = codes "https://github.com/KhronosGroup/SPIRV-Headers/archive/" ++ (tag ++ codes ".tar.gz");
  rev = tag;
}

abbrev pub hash_given : Option Text → Option Text → Option Text
hash_given (some (c ∷ s)) hash = some (c ∷ s)
hash_given _ hash = hash

-- previous.get(key, {})
abbrev pub previous_of : Text → Dict (Dict Text) → Dict Text
previous_of key previous = elim (get key previous) [ none ↦ [] | some pin ↦ pin ]

abbrev pub bind_option : {A B : Type 0} → Option A → (A → Option B) → Option B
bind_option none next = none
bind_option (some value) next = next value

-- `previous` is the value of the file, empty where it is not there; `none` is an exception.
unfoldable pub main : World → Args → Dict (Dict Text) → Staged → Option Data
main world args previous staged =
    let spirv = source_of_tag (strip staged.spirv_headers_tag) in
    bind_option (parse_esmi_pin world staged.amdsmi) λ esmi.
      bind_option
        (hash_given args.esmi_ib_library_hash (
          source_hash world (record { url = esmi_ib_library_url; rev = esmi.rev })
            (previous_of (codes "esmiIbLibrary") previous) true))
        λ esmi_hash.
          bind_option
            (hash_given args.spirv_headers_hash
              (source_hash world spirv (previous_of (codes "spirvHeaders") previous) false))
            λ spirv_hash. bind_option (scan_archives world staged.third_party []) λ archives.
              some (record {
                archives = archives;
                esmi = esmi;
                esmi_hash = esmi_hash;
                spirv = spirv;
                spirv_hash = spirv_hash;
              })
