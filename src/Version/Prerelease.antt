-- ===== src/Version/Prerelease.antt =====
-- How `version_key` ranks releases, and prereleases against their release.
use mathlib.Core.List.{append-nil}
use nix_strix_halo.Prelude.{
  ℕ, ◌≡◌, refl, ap, ◌∙◌, List, [], ◌∷◌, ◌++◌, map, compare, Ordering, arith, some,
}
use nix_strix_halo.Prelude.Order.{lex, self, compare-IsOrder, lex-IsOrder}
use nix_strix_halo.Prelude.Text.{Text, int}
use nix_strix_halo.Version.{
  is_final, Match, suffix_parts, part_key, version_key, compare_key, compare_version, key_of_match,
  match_release,
}
use nix_strix_halo.Version.Parse.{IsRelease, IsSuffix, render, match_release-render, split-render}

version_key-of_match :
    (v : Text) (m : Match) → match_release v ≡ some m → version_key v ≡ key_of_match m
unfolding version_key
version_key-of_match v m h = ground arith

-- The key of a release with a suffix has the numbers of the components, the mark of a final
-- release, and the key of each part of the suffix.
pub version_key-render :
    (p : Text) (ps : List Text) (s : Text)
    → IsRelease (p ∷ ps)
    → IsSuffix s
    → version_key (render (p ∷ ps) ++ s) ≡ record {
      release = map int (p ∷ ps);
      final = is_final s;
      suffix = map part_key (suffix_parts s);
    }
version_key-render p ps s h k =
    version_key-of_match _ _ (match_release-render p ps s h k)
    ∙ ap
        (λ parts. record {
          release = map int parts;
          final = is_final s;
          suffix = map part_key (suffix_parts s);
        })
        (split-render p ps h)

nothing-IsSuffix : IsSuffix []
nothing-IsSuffix = record { no_digit = refl; no_component = λ t e. cc; one_line = refl }

version_key-release :
    (p : Text) (ps : List Text)
    → IsRelease (p ∷ ps)
    → version_key (render (p ∷ ps))
      ≡ record { release = map int (p ∷ ps); final = 1; suffix = map part_key (suffix_parts []) }
version_key-release p ps h =
    ap version_key (sym_nil (render (p ∷ ps))) ∙ version_key-render p ps [] h nothing-IsSuffix
  where
    sym_nil : (t : Text) → t ≡ t ++ []
    sym_nil t = cc (append-nil t)

-- A version that is a release with a non-empty suffix sorts before the release.
pub prerelease-lt-release :
    (p : Text) (ps : List Text) (c : ℕ) (s : Text)
    → IsRelease (p ∷ ps)
    → IsSuffix (c ∷ s)
    → compare_version (render (p ∷ ps) ++ c ∷ s) (render (p ∷ ps)) ≡ Ordering.lt
unfolding compare_version compare_key
prerelease-lt-release p ps c s h k =
    rw (version_key-render p ps (c ∷ s) h k, version_key-release p ps h)
      (ground (arith, self (lex-IsOrder compare-IsOrder) (map int (p ∷ ps))))

-- Of two versions whose releases differ in their numbers, the one with the smaller numbers sorts
-- first, whatever the suffixes.
pub release_numbers-decide :
    (p q : Text) (ps qs : List Text) (s t : Text)
    → IsRelease (p ∷ ps)
    → IsRelease (q ∷ qs)
    → IsSuffix s
    → IsSuffix t
    → lex compare (map int (p ∷ ps)) (map int (q ∷ qs)) ≡ Ordering.lt
    → compare_version (render (p ∷ ps) ++ s) (render (q ∷ qs) ++ t) ≡ Ordering.lt
unfolding compare_version compare_key
release_numbers-decide p q ps qs s t h k hs kt less =
    rw (version_key-render p ps s h hs, version_key-render q qs t k kt) (ground arith)

-- A version that is a release with a non-empty suffix sorts before the release itself, and after
-- every version, with a suffix or not, whose release has smaller numbers.
pub prerelease-between :
    (p q : Text) (ps qs : List Text) (c : ℕ) (s t : Text)
    → IsRelease (p ∷ ps)
    → IsRelease (q ∷ qs)
    → IsSuffix (c ∷ s)
    → IsSuffix t
    → lex compare (map int (q ∷ qs)) (map int (p ∷ ps)) ≡ Ordering.lt
    → (compare_version (render (q ∷ qs) ++ t) (render (p ∷ ps) ++ c ∷ s) ≡ Ordering.lt)
      × (compare_version (render (p ∷ ps) ++ c ∷ s) (render (p ∷ ps)) ≡ Ordering.lt)
prerelease-between p q ps qs c s t h k hs kt less =
    (release_numbers-decide q p qs ps t (c ∷ s) k h kt hs less, prerelease-lt-release p ps c s h hs)
