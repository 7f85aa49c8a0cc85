-- ===== src/Wheels/Choose/Best.antt =====
-- `choose_distribution` chooses the greatest candidate, wheels before source archives.
use nix_strix_halo.Prelude.{
  ◌≡◌, ◌≢◌, refl, Bool, true, Option, List, [], ◌∷◌, arith, keep, In, In-keep, Ordering,
}
use nix_strix_halo.Prelude.Order.{IsOrder, compare-IsOrder, by_key-IsOrder, pair-IsOrder}
use nix_strix_halo.Prelude.Sort.{sorted-last, sorted-last_of_In}
use nix_strix_halo.Prelude.Text.{Text}
use nix_strix_halo.Version.{public_package_version}
use nix_strix_halo.Version.Order.{compare_version-IsOrder}
use nix_strix_halo.Wheels.{Distribution, is_wheel, wheel}
use nix_strix_halo.Wheels.Choose.{
  ok, err, index_error, best_of, compare_distribution, is_candidate, choose_distribution, rank,
}
use nix_strix_halo.Wheels.Choose.Newest.{last_of-ok}

compare_distribution-IsOrder : IsOrder compare_distribution
unfolding compare_distribution
compare_distribution-IsOrder =
    pair-IsOrder (by_key-IsOrder compare-IsOrder (λ d. rank (is_wheel d.kind)))
      (by_key-IsOrder compare_version-IsOrder (λ d. public_package_version d.package_version))

best_of-max :
    (dists candidates : List Distribution) (d : Distribution)
    → best_of dists candidates ≡ ok d
    → In d candidates
      × ((e : Distribution) → In e candidates → compare_distribution d e ≢ Ordering.lt)
best_of-max dists [] d h = cc
best_of-max dists (c ∷ cs) d h =
    sorted-last compare_distribution-IsOrder (c ∷ cs) d (last_of-ok _ _ h)

best_of-ok :
    (dists candidates : List Distribution) (e : Distribution)
    → In e candidates
    → (d : Distribution) × (best_of dists candidates ≡ ok d)
best_of-ok dists [] e m = absurd m
best_of-ok dists (c ∷ cs) e m =
    let (d, h) = sorted-last_of_In compare_distribution-IsOrder (c ∷ cs) e m in (d, rw h)

wheel_first :
    (d e : Distribution) → compare_distribution d e ≢ Ordering.lt → e.kind ≡ wheel → d.kind ≡ wheel
unfolding compare_distribution
wheel_first d e h k = ground arith

-- A file of the list that meets the request.
abbrev pub IsCandidate : List Distribution → Text → Text → Option Text → Distribution → Type 0
IsCandidate dists rocm_version python_tag package_version d =
    In d dists × (is_candidate rocm_version python_tag package_version d ≡ true)

module _ (dists : List Distribution) (rocm_version python_tag : Text)
    (package_version : Option Text) where
  test : Distribution → Bool
  test = is_candidate rocm_version python_tag package_version

  -- The file that choose_distribution returns is one of the list that meets the request.
  pub choose_distribution-IsCandidate :
      (d : Distribution)
      → choose_distribution dists rocm_version python_tag package_version ≡ ok d
      → IsCandidate dists rocm_version python_tag package_version d
  unfolding choose_distribution test
  choose_distribution-IsCandidate d h =
      (In-keep test d dists).0 (best_of-max dists (keep test dists) d h).0

  -- No file of the list that meets the request ranks above the one that choose_distribution
  -- returns.
  pub choose_distribution-best :
      (d e : Distribution)
      → choose_distribution dists rocm_version python_tag package_version ≡ ok d
      → IsCandidate dists rocm_version python_tag package_version e
      → compare_distribution d e ≢ Ordering.lt
  unfolding choose_distribution test
  choose_distribution-best d e h c =
      (best_of-max dists (keep test dists) d h).1 e ((In-keep test e dists).1 c)

  -- choose_distribution returns a wheel if some wheel of the list meets the request.
  pub choose_distribution-wheel :
      (d e : Distribution)
      → choose_distribution dists rocm_version python_tag package_version ≡ ok d
      → IsCandidate dists rocm_version python_tag package_version e
      → e.kind ≡ wheel
      → d.kind ≡ wheel
  choose_distribution-wheel d e h c = wheel_first d e (choose_distribution-best d e h c)

  -- choose_distribution returns a file whenever some file of the list meets the request.
  pub choose_distribution-found :
      (e : Distribution)
      → IsCandidate dists rocm_version python_tag package_version e
      → (d : Distribution) × (choose_distribution dists rocm_version python_tag package_version
          ≡ ok d)
  unfolding choose_distribution test
  choose_distribution-found e c = best_of-ok dists (keep test dists) e ((In-keep test e dists).1 c)

-- On an index page with no file at all, the message of the failure cannot be built: the script
-- stops on the index of an empty list, whatever is asked for.
pub choose_distribution-empty :
    (rocm_version python_tag : Text) (package_version : Option Text)
    → choose_distribution [] rocm_version python_tag package_version ≡ err index_error
unfolding choose_distribution
choose_distribution-empty rocm_version python_tag package_version = refl
