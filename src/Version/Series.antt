-- ===== src/Version/Series.antt =====
-- `in_rocm_series` compares whole components.
use mathlib.Core.Path.{ap₂}
use nix_strix_halo.Prelude.{
  ◌≡◌, refl, sym, ◌∙◌, ◌↔◌, ◌&&◌, Bool, true, some, List, [], ◌∷◌, ◌++◌, arith, All, length, take,
  all, leb,
}
use nix_strix_halo.Prelude.Text.{Text, split, text_eq, text_eq_iff}
use nix_strix_halo.Version.{is_digits, Match, match_release, texts_eq, in_rocm_series}
use nix_strix_halo.Version.Parse.{IsRelease, IsSuffix, render, match_release-render, split-render}

abbrev pub prefix_test : List Text → List Text → Bool
prefix_test release series =
    leb (length series) (length release) && texts_eq (take (length series) release) series

pub prefix_test_cons :
    (p q : Text) (ps qs : List Text)
    → prefix_test (p ∷ ps) (q ∷ qs) ≡ (text_eq p q && prefix_test ps qs)
prefix_test_cons p q ps qs = ground arith

-- The test finds the series at the front of the release.
pub prefix_test_iff :
    (release series : List Text)
    → (prefix_test release series ≡ true) ↔ ((more : List Text) × (release ≡ series ++ more))
prefix_test_iff ps [] = (λ h. (ps, refl), λ h. ground arith)
prefix_test_iff [] (q ∷ qs) = (λ h. absurd (ground arith), λ h. cc (h.1))
prefix_test_iff (p ∷ ps) (q ∷ qs) = (
  λ h.
      let (to, from) = prefix_test_iff ps qs in
      let (more, e) = to (ground (arith, prefix_test_cons p q ps qs)) in
      let same : p ≡ q = ground (arith, text_eq_iff p q, prefix_test_cons p q ps qs) in (more, cc),
  λ h.
      let (to, from) = prefix_test_iff ps qs in
      let rest : prefix_test ps qs ≡ true = from (h.0, cc (h.1)) in
      let same : p ≡ q = cc (h.1) in ground (arith, text_eq_iff p q, prefix_test_cons p q ps qs),
)

all-is_digits : (ps : List Text) → All (λ q. is_digits q ≡ true) ps → all is_digits ps ≡ true
all-is_digits [] h = refl
all-is_digits (p ∷ ps) h = ground (arith, all-is_digits ps)

in_rocm_series-of_match :
    (version series : Text) (m : Match)
    → match_release version ≡ some m
    → all is_digits (split b'.' series) ≡ true
    → in_rocm_series version series ≡ prefix_test (split b'.' m.matched) (split b'.' series)
unfolding in_rocm_series
in_rocm_series-of_match version series m h k = rw (h, k, in_rocm_series)

-- On releases the test compares the components.
pub in_rocm_series-components :
    (p q : Text) (ps qs : List Text) (s : Text)
    → IsRelease (p ∷ ps)
    → IsRelease (q ∷ qs)
    → IsSuffix s
    → in_rocm_series (render (p ∷ ps) ++ s) (render (q ∷ qs)) ≡ prefix_test (p ∷ ps) (q ∷ qs)
in_rocm_series-components p q ps qs s h k hs =
    let series = render (q ∷ qs) in
    let digits : all is_digits (split b'.' series) ≡ true =
      rw (split-render q qs k) (all-is_digits (q ∷ qs) k) in
    in_rocm_series-of_match _ series _ (match_release-render p ps s h hs) digits
    ∙ ap₂ prefix_test (split-render p ps h) (split-render q qs k)

-- A version that is a release with a suffix belongs to a series, itself a release, exactly if the
-- components of the series begin those of the release.
pub in_rocm_series_iff :
    (p q : Text) (ps qs : List Text) (s : Text)
    → IsRelease (p ∷ ps)
    → IsRelease (q ∷ qs)
    → IsSuffix s
    → (in_rocm_series (render (p ∷ ps) ++ s) (render (q ∷ qs)) ≡ true)
      ↔ ((more : List Text) × (p ∷ ps ≡ (q ∷ qs) ++ more))
in_rocm_series_iff p q ps qs s h k hs =
    let e = in_rocm_series-components p q ps qs s h k hs in
    let (to, from) = prefix_test_iff (p ∷ ps) (q ∷ qs) in (λ t. to (sym e ∙ t), λ t. e ∙ from t)
