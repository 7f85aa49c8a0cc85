-- ===== src/Wheels/Choose.antt =====
-- `choose_rocm_version` and `choose_distribution` of update-python-wheels.py.
-- A set is a list of its members; the order in which Python iterates over it is a parameter.
pub mod Common
pub mod Newest
pub mod Best
use nix_strix_halo.Prelude.{
  ◌≡◌, refl, ℕ, Bool, true, false, ◌&&◌, Option, none, some, List, [], ◌∷◌, if◌then◌else◌, keep,
  any, last?, compare, Ordering, not,
}
use nix_strix_halo.Prelude.Order.{and_then}
use nix_strix_halo.Prelude.Sort.{sorted}
use nix_strix_halo.Prelude.Text.{Text, text_eq}
use nix_strix_halo.Prelude.Dict.{Dict, get}
use nix_strix_halo.Version.{compare_version, public_package_version, in_rocm_series}
use nix_strix_halo.Wheels.{
  Distribution, is_wheel, normalize_project, dist_matches_python, dist_matches_platform,
  dist_matches_package_version,
}

-- How the script ends early: each `raise SystemExit` of the choices, and an uncaught `IndexError`.
pub data Failure : Type 0 where
  no_linux_distribution : Text → Failure
  no_common_version : Failure
  no_distribution : Text → Failure
  index_error : Failure

pub data Result {ℓ} (A : Type ℓ) : Type ℓ where
  err : Failure → Result A
  ok : A → Result A

abbrev pub member : Text → List Text → Bool
member v vs = any (λ w. text_eq v w) vs

infixl 5 ◌>>=◌
abbrev pub ◌>>=◌ {ℓ κ} : {A : Type ℓ} {B : Type κ} → Result A → (A → Result B) → Result B
err failure >>= next = err failure
ok chosen >>= next = next chosen

-- What is asked for: the keyword arguments of `choose_rocm_version`.
pub record Request : Type 0 where
  pub series : Text
  pub python_tag : Text
  pub package_versions : Dict Text

-- The condition of the set comprehension at a distribution whose `rocm_version` is `version`.
unfoldable pub fits : Request → Text → Text → Distribution → Bool
fits r project version dist =
    in_rocm_series version r.series
    && (dist_matches_python dist r.python_tag
        && (dist_matches_platform dist
            && dist_matches_package_version dist
                (get (normalize_project project) r.package_versions)))

-- What a distribution adds to the set.
abbrev pub add_version : Request → Text → Distribution → Option Text → List Text → List Text
add_version r project dist none versions = versions
add_version r project dist (some version) versions =
    if fits r project version dist then version ∷ versions else versions

-- The set comprehension over one project's distributions.
unfoldable pub versions_of : Request → Text → List Distribution → List Text
versions_of r project [] = []
versions_of r project (dist ∷ dists) =
    add_version r project dist dist.rocm_version (versions_of r project dists)

abbrev pub has_rocm_version : Distribution → Bool
has_rocm_version dist = elim dist.rocm_version [ none ↦ false | some v ↦ true ]

-- versions if common_versions is None else common_versions & versions
abbrev pub meet : Option (List Text) → List Text → List Text
meet none versions = versions
meet (some common) versions = keep (λ v. member v versions) common

abbrev pub merge_versions : Text → Option (List Text) → List Text → Result (Option (List Text))
merge_versions project common [] = err (no_linux_distribution project)
merge_versions project common (v ∷ vs) = ok (some (meet common (v ∷ vs)))

-- One turn of the loop over the projects.
unfoldable pub visit_project :
    Request → Option (List Text) → Text → List Distribution → Result (Option (List Text))
visit_project r common project dists =
    if not (any has_rocm_version dists)
    then ok common
    else merge_versions project common (versions_of r project dists)

-- A chain of choices ends well only if its first part does.
pub >>=-eq-ok {ℓ κ} :
    {A : Type ℓ} {B : Type κ} (first : Result A) (next : A → Result B) {last : B}
    → (first >>= next) ≡ ok last
    → (chosen : A) × (first ≡ ok chosen) × (next chosen ≡ ok last)
>>=-eq-ok (err failure) next h = cc
>>=-eq-ok (ok chosen) next h = (chosen, refl, h)

unfoldable pub common_versions :
    Request → Option (List Text) → Dict (List Distribution) → Result (Option (List Text))
common_versions r common [] = ok common
common_versions r common ((project, dists) ∷ rest) =
    visit_project r common project dists >>= λ common'. common_versions r common' rest

-- sorted(..., key=...)[-1]
abbrev pub last_of : {A : Type 0} → Failure → Option A → Result A
last_of e none = err e
last_of e (some a) = ok a

module _ (iterate : List Text → List Text) where
  unfoldable pub pick_newest : Option (List Text) → Result Text
  pick_newest none = err no_common_version
  pick_newest (some []) = err no_common_version
  pick_newest (some (v ∷ vs)) =
      last_of index_error (last? (sorted compare_version (iterate (v ∷ vs))))

  unfoldable pub choose_rocm_version : Request → Dict (List Distribution) → Result Text
  choose_rocm_version r distributions_by_project =
      common_versions r none distributions_by_project >>= pick_newest

abbrev pub rank : Bool → ℕ
rank false = 0
rank true = 1

-- key=lambda dist: (dist.kind == "wheel", package_version_key(dist.package_version))
unfoldable pub compare_distribution : Distribution → Distribution → Ordering
compare_distribution a b = and_then (compare (rank (is_wheel a.kind)) (rank (is_wheel b.kind))) (
    compare_version (public_package_version a.package_version)
      (public_package_version b.package_version))

abbrev pub rocm_version_fits : Option Text → Text → Bool
rocm_version_fits none rocm_version = true
rocm_version_fits (some v) rocm_version = text_eq v rocm_version

-- The condition of the list comprehension.
unfoldable pub is_candidate : Text → Text → Option Text → Distribution → Bool
is_candidate rocm_version python_tag package_version dist =
    rocm_version_fits dist.rocm_version rocm_version
    && (dist_matches_python dist python_tag
        && (dist_matches_platform dist && dist_matches_package_version dist package_version))

-- The error message names `distributions[0].project`.
abbrev pub no_candidates : List Distribution → Failure
no_candidates [] = index_error
no_candidates (dist ∷ dists) = no_distribution dist.project

-- `if not candidates: raise`, and the last one in the order otherwise.
abbrev pub best_of : List Distribution → List Distribution → Result Distribution
best_of distributions [] = err (no_candidates distributions)
best_of distributions (d ∷ ds) = last_of index_error (last? (sorted compare_distribution (d ∷ ds)))

unfoldable pub choose_distribution :
    List Distribution → Text → Text → Option Text → Result Distribution
choose_distribution distributions rocm_version python_tag package_version =
    best_of distributions
      (keep (is_candidate rocm_version python_tag package_version) distributions)
