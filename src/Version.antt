-- ===== src/Version.antt =====
-- Version strings: `version_key`, `public_package_version` and `in_rocm_series` of
-- pkgs/therock/scripts/update-python-wheels.py, with `version_key` repeated in update-rocm.py.
pub mod Parse
pub mod Order
pub mod Prerelease
pub mod Series
use nix_strix_halo.Prelude.{
  ℕ, Bool, true, false, ◌&&◌, not, ◌||◌, Option, none, some, List, [], ◌∷◌, ◌++◌, map, compare,
  Ordering, if◌then◌else◌, ◌==◌, leb, length, take, all,
}
use nix_strix_halo.Prelude.Order.{lex, and_then}
use nix_strix_halo.Prelude.Text.{
  Text, codes, text_eq, is_digit, is_alpha, lower, split, before, int, has_char, prepend,
  take_while, drop_while,
}

-- Does the text go on with a character that passes the test?
abbrev pub next_is : (ℕ → Bool) → Text → Bool
next_is p [] = false
next_is p (c ∷ s) = p c

-- A matched prefix and what follows it.
pub record Match : Type 0 where
  pub matched : Text
  pub rest : Text

abbrev pub extend : ℕ → Match → Match
extend c m = record { matched = c ∷ m.matched; rest = m.rest }

-- What `\d*(?:\.\d+)*` takes, greedily, behind a digit.
unfoldable pub release_tail : Text → Match
release_tail [] = record { matched = []; rest = [] }
release_tail (c ∷ s) =
    let more = release_tail s in
    if is_digit c
    then extend c more
    else if (c == b'.') && next_is is_digit s
    then extend c more
    else record { matched = []; rest = c ∷ s }

-- re.fullmatch(r"(\d+(?:\.\d+)*)(.*)", version): `.` matches no newline.
unfoldable pub match_release : Text → Option Match
unfolding release_tail
match_release version =
    let m = release_tail version in
    if next_is is_digit version && not (has_char 10 m.rest) then some m else none

-- re.findall(r"\d+|[A-Za-z]+", suffix)
unfoldable pub suffix_parts : Text → List Text
suffix_parts [] = []
suffix_parts (c ∷ s) =
    let parts = suffix_parts s in
    if is_digit c
    then (if next_is is_digit s then prepend c parts else (c ∷ []) ∷ parts)
    else if is_alpha c
    then (if next_is is_alpha s then prepend c parts else (c ∷ []) ∷ parts)
    else parts

-- The tagged pairs of a suffix key: `(0, word)` and `(1, number)`.
pub data Part : Type 0 where
  word : Text → Part
  number : ℕ → Part

-- s.isdigit(): false of the empty text.
abbrev pub is_digits : Text → Bool
is_digits [] = false
is_digits (c ∷ s) = is_digit c && all is_digit s

abbrev pub part_key : Text → Part
part_key part = if is_digits part then number (int part) else word (lower part)

pub record Key : Type 0 where
  pub release : List ℕ
  pub final : ℕ
  pub suffix : List Part

-- int(not suffix)
abbrev pub is_final : Text → ℕ
is_final [] = 1
is_final (c ∷ s) = 0

abbrev pub key_of_match : Match → Key
key_of_match m = record {
  release = map int (split b'.' m.matched);
  final = is_final m.rest;
  suffix = map part_key (suffix_parts m.rest);
}

unfoldable pub version_key : Text → Key
version_key version = elim (match_release version) [
  | none ↦ record { release = []; final = 0; suffix = word (lower version) ∷ [] }
  | some m ↦ key_of_match m
]

-- Python's order on the tagged pairs: the tags first, so that no word is compared with a number.
unfoldable pub compare_part : Part → Part → Ordering
compare_part (word s) (word t) = lex compare s t
compare_part (word s) (number n) = Ordering.lt
compare_part (number m) (word t) = Ordering.gt
compare_part (number m) (number n) = compare m n

unfoldable pub compare_key : Key → Key → Ordering
compare_key a b =
    and_then (lex compare a.release b.release)
      (and_then (compare a.final b.final) (lex compare_part a.suffix b.suffix))

-- The order by which `sorted(..., key=version_key)` sorts.
unfoldable pub compare_version : Text → Text → Ordering
compare_version v w = compare_key (version_key v) (version_key w)

-- version.split("+", 1)[0]
unfoldable pub public_package_version : Text → Text
public_package_version version = before b'+' version

-- a[: len(b)] == b on lists of texts
abbrev pub texts_eq : List Text → List Text → Bool
texts_eq [] [] = true
texts_eq [] (t ∷ ts) = false
texts_eq (s ∷ ss) [] = false
texts_eq (s ∷ ss) (t ∷ ts) = if text_eq s t then texts_eq ss ts else false

unfoldable pub in_rocm_series : Text → Text → Bool
in_rocm_series version series =
    let series_parts = split b'.' series in
    if not (all is_digits series_parts) then false else elim (match_release version) [
      | none ↦ false
      | some m ↦
          let release = split b'.' m.matched in
          leb (length series_parts) (length release)
          && texts_eq (take (length series_parts) release) series_parts
    ]

-- (\d+\.\d+) from the start of a text, greedily: what is matched and what follows.
unfoldable pub major_minor : Text → Option Match
major_minor s =
    let major = take_while is_digit s in
    elim (drop_while is_digit s) [
      | [] ↦ none
      | c ∷ t ↦
          let minor = take_while is_digit t in
          if not (is_digits major) || (not (c == b'.') || not (is_digits minor))
          then none
          else some (record { matched = major ++ c ∷ minor; rest = drop_while is_digit t })
    ]

-- (\d+\.\d+)\. from the start of a text: the group.
unfoldable pub match_series : Text → Option Text
match_series s = elim (major_minor s) [
  | none ↦ none
  | some m ↦ if next_is (λ c. c == b'.') m.rest then some m.matched else none
]
