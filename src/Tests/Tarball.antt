-- ===== src/Tests/Tarball.antt =====
-- The choice of a tarball from an index of three.
use nix_strix_halo.Prelude.{◌≡◌, ◌≢◌, refl, inl, Option, some, ◌++◌, In, Ordering}
use nix_strix_halo.Prelude.Text.{Text, codes}
use nix_strix_halo.Prelude.Sort.{sorted}
use nix_strix_halo.Prelude.Order.{lex}
use nix_strix_halo.Prelude.Dict.{get}
use nix_strix_halo.Version.{compare_version, compare_key, version_key, match_release}
use nix_strix_halo.Tarball.{greedy_version, find_version, in_series, find_all, target_slug, go}
use nix_strix_halo.Tarball.Version.{IsInSeries, offered, find_version-newest, find_version-found}

abbrev index : Text
index =
    codes "therock-dist-linux-gfx1151-10.0.0rc1.tar.gz "
    ++ (codes "therock-dist-linux-gfx1151-10.0.0.tar.gz "
        ++ codes "therock-dist-linux-gfx1151-10.1.0.tar.gz")

abbrev target : Text
target = codes "gfx1151"

abbrev series : Option Text
series = some (codes "10.0")

chosen : find_version (λ vs. vs) index target series ≡ go (codes "10.0.0")
unfolding find_version sorted find_all target_slug get greedy_version compare_version compare_key
    lex version_key match_release in_series
chosen = refl

candidate-offered :
    In (codes "10.0.0rc1") (offered (λ vs. vs) (λ vs v. (λ m. m, λ m. m)) index target series)
unfolding find_all target_slug get greedy_version
candidate-offered = inl refl

candidate-IsInSeries : IsInSeries series (codes "10.0.0rc1")
unfolding in_series
candidate-IsInSeries = refl

find_version-newest_example : compare_version (codes "10.0.0") (codes "10.0.0rc1") ≢ Ordering.lt
find_version-newest_example =
    find_version-newest (λ vs. vs) (λ vs v. (λ m. m, λ m. m)) index target series (codes "10.0.0")
      (codes "10.0.0rc1") chosen candidate-offered candidate-IsInSeries

find_version-found_example : (v : Text) × (find_version (λ vs. vs) index target series ≡ go v)
find_version-found_example =
    find_version-found (λ vs. vs) (λ vs v. (λ m. m, λ m. m)) index target series (codes "10.0.0rc1")
      candidate-offered candidate-IsInSeries
