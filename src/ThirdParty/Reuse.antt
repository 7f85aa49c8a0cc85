-- ===== src/ThirdParty/Reuse.antt =====
-- `ls_remote_peeled_tag` and `source_hash` of update-rocm-third-party.py.
use nix_strix_halo.Prelude.{
  Bool, true, false, ◌&&◌, Option, none, some, List, [], ◌∷◌, ◌++◌, if◌then◌else◌,
}
use nix_strix_halo.Prelude.Text.{Text, codes, text_eq}
use nix_strix_halo.Prelude.Dict.{Dict, get, put}
use nix_strix_halo.Tree.Git.{splitlines, split_words, peeled}
use nix_strix_halo.ThirdParty.{World}

abbrev pub add_rev : List Text → Dict Text → Option (Dict Text)
add_rev (rev ∷ ref ∷ []) revs = some (put ref rev revs)
add_rev _ revs = none

-- `none` is the ValueError of a line that cannot be unpacked.
unfoldable pub revs_of : List Text → Dict Text → Option (Dict Text)
revs_of [] revs = some revs
revs_of ([] ∷ lines) revs = revs_of lines revs
revs_of ((c ∷ line) ∷ lines) revs = elim (add_rev (split_words 1 (c ∷ line)) revs) [
  | none ↦ none
  | some more ↦ revs_of lines more
]

-- revs.get(peeled, revs[plain]): the default is looked up first.
abbrev pub peeled_first : Text → Dict Text → Option Text
peeled_first ref revs = elim (get ref revs) [
  | none ↦ none
  | some plain ↦ elim (get (peeled ref) revs) [ none ↦ some plain | some rev ↦ some rev ]
]

-- `none` is an exception.
unfoldable pub ls_remote_peeled_tag : World → Text → Text → Option Text
ls_remote_peeled_tag world url tag =
    let ref = codes "refs/tags/" ++ tag in
    elim (revs_of (splitlines (world.ls_remote url ref)) []) [
      | none ↦ none
      | some revs ↦ peeled_first ref revs
    ]

pub record Source : Type 0 where
  pub url : Text
  pub rev : Text

-- source.get(key) == previous.get(key)
abbrev pub same_as : Text → Option Text → Bool
same_as value none = false
same_as value (some previous) = text_eq value previous

abbrev pub prefetched : World → Source → Bool → Option Text
prefetched world source true = world.prefetch_git source.url source.rev
prefetched world source false = world.prefetch_unpacked source.url

-- previous.get("hash") where it is there and not empty.
abbrev pub old_hash : Dict Text → Option Text
old_hash previous = elim (get (codes "hash") previous) [
  | none ↦ none
  | some [] ↦ none
  | some (c ∷ hash) ↦ some (c ∷ hash)
]

abbrev pub hash_or : Option Text → Option Text → Option Text
hash_or (some hash) fresh = some hash
hash_or none fresh = fresh

-- `none` is an exception of nix.
unfoldable pub source_hash : World → Source → Dict Text → Bool → Option Text
source_hash world source previous git =
    if same_as source.url (get (codes "url") previous)
      && same_as source.rev (get (codes "rev") previous)
    then hash_or (old_hash previous) (prefetched world source git)
    else prefetched world source git
