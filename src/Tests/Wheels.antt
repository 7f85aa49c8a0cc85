-- ===== src/Tests/Wheels.antt =====
-- The choices of update-python-wheels.py among a few files of torch.
use nix_strix_halo.Prelude.{
  ◌≡◌, refl, ◌≢◌, inl, inr, none, some, List, [], ◌∷◌, ◌++◌, Ordering, All,
}
use nix_strix_halo.Prelude.Order.{lex}
use nix_strix_halo.Prelude.Sort.{sorted, insert}
use nix_strix_halo.Prelude.Text.{Text, codes}
use nix_strix_halo.Prelude.Dict.{Dict, get}
use nix_strix_halo.Version.{
  compare_version, compare_key, version_key, match_release, release_tail, suffix_parts,
  in_rocm_series, public_package_version,
}
use nix_strix_halo.Wheels.{
  Distribution, wheel, dist_matches_python, dist_matches_platform, dist_matches_package_version,
}
use nix_strix_halo.Wheels.Filename.{
  Urls, numeric_version, search_rocm, rocm_version_of, parse_distribution,
}
use nix_strix_halo.Wheels.Filename.RoundTrip.{IsField, parse_distribution-whl}
use nix_strix_halo.Wheels.Choose.{
  Request, ok, fits, versions_of, visit_project, common_versions, pick_newest, choose_rocm_version,
  compare_distribution, is_candidate, choose_distribution,
}
use nix_strix_halo.Wheels.Choose.Common.{Supports}
use nix_strix_halo.Wheels.Choose.Newest.{
  choose_rocm_version-Supports, choose_rocm_version-newest, choose_rocm_version-found,
}
use nix_strix_halo.Wheels.Choose.Best.{
  IsCandidate, choose_distribution-best, choose_distribution-wheel,
}

abbrev pub plain_urls : Urls
plain_urls = record { path = λ s. s; unquote = λ s. s; join = λ base href. href }

abbrev pub torch_file : Text
torch_file = codes "torch-2.9.1+rocm10.0.0-cp312-cp312-linux_x86_64.whl"

abbrev old_file : Text
old_file = codes "torch-2.8.0+rocm10.0.0-cp312-cp312-linux_x86_64.whl"

abbrev archive_file : Text
archive_file = codes "torch-2.9.9+rocm10.0.0.tar.gz"

abbrev torch_of : Text → Text → Distribution
torch_of filename version = record {
  project = codes "torch";
  filename = filename;
  url = filename;
  package_version = version;
  rocm_version = some (codes "10.0.0");
  python_tag = codes "cp312";
  abi_tag = codes "cp312";
  platform_tag = codes "linux_x86_64";
  kind = wheel;
}

abbrev torch : Distribution
torch = torch_of torch_file (codes "2.9.1+rocm10.0.0")

abbrev old_torch : Distribution
old_torch = torch_of old_file (codes "2.8.0+rocm10.0.0")

abbrev torch_dists : List Distribution
torch_dists = old_torch ∷ torch ∷ []

version-IsField : IsField (codes "2.9.1+rocm10.0.0")
version-IsField = record { no_dash = refl; no_slash = refl }

tag-IsField : IsField (codes "cp312")
tag-IsField = record { no_dash = refl; no_slash = refl }

platform-IsField : IsField (codes "linux_x86_64")
platform-IsField = record { no_dash = refl; no_slash = refl }

parse_distribution-whl_example :
    parse_distribution plain_urls (codes "torch") (codes "/whl/" ++ torch_file) []
    ≡ some (record {
      project = codes "torch";
      filename = torch_file;
      url = codes "/whl/" ++ torch_file;
      package_version = codes "2.9.1+rocm10.0.0";
      rocm_version = rocm_version_of (codes "torch") (codes "2.9.1+rocm10.0.0");
      python_tag = codes "cp312";
      abi_tag = codes "cp312";
      platform_tag = codes "linux_x86_64";
      kind = wheel;
    })
parse_distribution-whl_example =
    parse_distribution-whl (codes "/whl") (codes "torch") (codes "2.9.1+rocm10.0.0") (codes "cp312")
      (codes "cp312") (codes "linux_x86_64") refl version-IsField tag-IsField tag-IsField
      platform-IsField plain_urls (codes "torch") (codes "/whl/" ++ torch_file) [] refl refl

rocm_version_of_test :
    rocm_version_of (codes "torch") (codes "2.9.1+rocm10.0.0") ≡ some (codes "10.0.0")
unfolding rocm_version_of search_rocm numeric_version
rocm_version_of_test = refl

abbrev request : Request
request = record { series = codes "10.0"; python_tag = codes "cp312"; package_versions = [] }

abbrev offers : Dict (List Distribution)
offers = (codes "torch", torch_dists) ∷ []

chosen_version : choose_rocm_version (λ vs. vs) request offers ≡ ok (codes "10.0.0")
unfolding choose_rocm_version common_versions visit_project versions_of fits in_rocm_series
    match_release release_tail dist_matches_python dist_matches_platform
    dist_matches_package_version get pick_newest sorted insert compare_version compare_key lex
    version_key suffix_parts
chosen_version = refl

torch-IsOffered : Supports request (codes "10.0.0") (codes "torch", torch_dists)
unfolding fits in_rocm_series match_release dist_matches_python dist_matches_platform
    dist_matches_package_version get
torch-IsOffered h = record {
  dist = torch;
  listed = inr (inl refl);
  versioned = refl;
  fitting = refl;
}

choose_rocm_version-Supports_example : All (Supports request (codes "10.0.0")) offers
choose_rocm_version-Supports_example =
    choose_rocm_version-Supports (λ vs. vs) (λ vs v. (λ m. m, λ m. m)) request offers
      (codes "10.0.0") chosen_version

choose_rocm_version-newest_example : compare_version (codes "10.0.0") (codes "10.0.0") ≢ Ordering.lt
choose_rocm_version-newest_example =
    choose_rocm_version-newest (λ vs. vs) (λ vs v. (λ m. m, λ m. m)) request offers (codes "10.0.0")
      (codes "10.0.0") chosen_version (torch-IsOffered, tt)

choose_rocm_version-found_example :
    (v : Text) × (choose_rocm_version (λ vs. vs) request offers ≡ ok v)
choose_rocm_version-found_example =
    choose_rocm_version-found (λ vs. vs) (λ vs v. (λ m. m, λ m. m)) request offers (codes "10.0.0")
      (inl refl) (torch-IsOffered, tt)

chosen_file : choose_distribution torch_dists (codes "10.0.0") (codes "cp312") none ≡ ok torch
unfolding choose_distribution is_candidate dist_matches_python dist_matches_platform
    dist_matches_package_version sorted compare_distribution compare_version compare_key lex
    version_key match_release public_package_version
chosen_file = refl

old-IsCandidate : IsCandidate torch_dists (codes "10.0.0") (codes "cp312") none old_torch
unfolding is_candidate dist_matches_python dist_matches_platform dist_matches_package_version
old-IsCandidate = (inl refl, refl)

choose_distribution-best_example : compare_distribution torch old_torch ≢ Ordering.lt
choose_distribution-best_example =
    choose_distribution-best torch_dists (codes "10.0.0") (codes "cp312") none torch old_torch
      chosen_file old-IsCandidate

choose_distribution-wheel_example : torch.kind ≡ wheel
choose_distribution-wheel_example =
    choose_distribution-wheel torch_dists (codes "10.0.0") (codes "cp312") none torch old_torch
      chosen_file old-IsCandidate refl
