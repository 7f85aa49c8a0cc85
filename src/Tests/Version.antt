-- ===== src/Tests/Version.antt =====
-- The order of the versions and the test of a series, on concrete versions.
use nix_strix_halo.Prelude.{◌≡◌, refl, ◌↔◌, true, false, List, [], ◌∷◌, ◌++◌, Ordering, arith}
use nix_strix_halo.Prelude.Order.{lex}
use nix_strix_halo.Prelude.Text.{Text, codes}
use nix_strix_halo.Version.{
  compare_version, compare_key, version_key, match_release, release_tail, suffix_parts,
  in_rocm_series,
}
use nix_strix_halo.Version.Parse.{IsRelease, IsSuffix}
use nix_strix_halo.Version.Prerelease.{prerelease-between}
use nix_strix_halo.Version.Series.{in_rocm_series_iff}
use nix_strix_halo.Tarball.{in_series}
use nix_strix_halo.Tarball.Series.{in_series-in_rocm_series}

abbrev ten_zero : List Text
ten_zero = codes "10" ∷ codes "0" ∷ []

abbrev ten_zero_one : List Text
ten_zero_one = codes "10" ∷ codes "0" ∷ codes "1" ∷ []

abbrev nine_nine : List Text
nine_nine = codes "9" ∷ codes "9" ∷ []

ten_zero-IsRelease : IsRelease ten_zero
ten_zero-IsRelease = (refl, (refl, tt))

ten_zero_one-IsRelease : IsRelease ten_zero_one
ten_zero_one-IsRelease = (refl, (refl, (refl, tt)))

nine_nine-IsRelease : IsRelease nine_nine
nine_nine-IsRelease = (refl, (refl, tt))

rc-IsSuffix : IsSuffix (codes "rc1")
rc-IsSuffix = record { no_digit = refl; no_component = λ t e. ground arith; one_line = refl }

nothing-IsSuffix : IsSuffix []
nothing-IsSuffix = record { no_digit = refl; no_component = λ t e. cc; one_line = refl }

in_rocm_series_iff_example :
    (in_rocm_series (codes "10.0.1rc1") (codes "10.0") ≡ true)
    ↔ ((more : List Text) × (ten_zero_one ≡ ten_zero ++ more))
in_rocm_series_iff_example =
    in_rocm_series_iff (codes "10") (codes "10") (codes "0" ∷ codes "1" ∷ []) (codes "0" ∷ [])
      (codes "rc1") ten_zero_one-IsRelease ten_zero-IsRelease rc-IsSuffix

in_series-in_rocm_series_example :
    in_series (codes "10.0") (codes "10.0.1rc1") ≡ in_rocm_series (codes "10.0.1rc1") (codes "10.0")
in_series-in_rocm_series_example =
    in_series-in_rocm_series (codes "10") (codes "10") (codes "0" ∷ codes "1" ∷ []) (codes "0" ∷ [])
      (codes "rc1") ten_zero_one-IsRelease ten_zero-IsRelease rc-IsSuffix

-- 10.0 is not a series of 10.01
in_rocm_series_test : in_rocm_series (codes "10.01.2") (codes "10.0") ≡ false
unfolding in_rocm_series match_release release_tail
in_rocm_series_test = refl

compare_version_test : compare_version (codes "7.10.0rc2") (codes "7.9.1") ≡ Ordering.gt
unfolding lex compare_version compare_key version_key match_release release_tail suffix_parts
compare_version_test = refl

prerelease-between_example :
    (compare_version (codes "9.9") (codes "10.0rc1") ≡ Ordering.lt)
    × (compare_version (codes "10.0rc1") (codes "10.0") ≡ Ordering.lt)
unfolding lex
prerelease-between_example =
    prerelease-between (codes "10") (codes "9") (codes "0" ∷ []) (codes "9" ∷ []) b'r' (codes "c1")
      [] ten_zero-IsRelease nine_nine-IsRelease rc-IsSuffix nothing-IsSuffix refl
