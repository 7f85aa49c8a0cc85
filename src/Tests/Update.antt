-- ===== src/Tests/Update.antt =====
-- One run of update-python-wheels.py for torch and its device wheel, on pages written out here.
use nix_strix_halo.Prelude.{
  ℕ, ◌≡◌, refl, inl, inr, true, none, some, List, [], ◌∷◌, ◌++◌, if◌then◌else◌, ◌==◌,
}
use nix_strix_halo.Prelude.Order.{lex}
use nix_strix_halo.Prelude.Sort.{sorted, insert}
use nix_strix_halo.Prelude.Text.{
  Text, codes, text_eq, rpartition, rsplit, drop_last, ends_with, starts_with,
}
use nix_strix_halo.Prelude.Dict.{get, put, set_default}
use nix_strix_halo.Json.{null, text, object, Fields, fields, get_field, put_field}
use nix_strix_halo.Version.{
  compare_version, compare_key, version_key, match_release, release_tail, suffix_parts,
  in_rocm_series, public_package_version,
}
use nix_strix_halo.Wheels.{
  Distribution, wheel, normalize_project, dist_matches_python, dist_matches_platform,
  dist_matches_package_version,
}
use nix_strix_halo.Wheels.Filename.{
  file_name, numeric_version, search_rocm, rocm_version_of, file_parts, hrefs, parse_distribution,
  list_distributions,
}
use nix_strix_halo.Wheels.Choose.{
  fits, versions_of, visit_project, common_versions, pick_newest, choose_rocm_version,
  compare_distribution, is_candidate, choose_distribution, ok,
}
use nix_strix_halo.Wheels.Retry.{Attempt, got, returned, caught, fetch_index, prefetch, try_from}
use nix_strix_halo.Wheels.Update.{
  World, Args, done, Selection, Package, to_dict, pin_devices, package_versions_of, list_all,
  choose_and_prefetch, choose_package, choose_packages, select, store_target, projects_of,
  torch_device,
}
use nix_strix_halo.Wheels.Update.Packages.{AreListed}
use nix_strix_halo.Wheels.Update.Main.{select-Holds, select-torch}
use nix_strix_halo.Tests.Wheels.{plain_urls, torch_file}

-- The third try answers.
abbrev late : ℕ → Attempt Text
late n = if n == 3 then returned (codes "sha256-") else caught

abbrev device : Text
device = codes "amd-torch-device-gfx115x"

abbrev device_file : Text
device_file = codes "amd_torch_device_gfx115x-2.9.1+rocm10.0.0-cp312-cp312-linux_x86_64.whl"

-- The page of torch is found at its own address, and every other page is that of the device wheel.
abbrev page_at : Text → Text
page_at url =
    if text_eq url (codes "https://stable.repo.amd.com/rocm/whl-next/torch/")
    then codes "<a href=\"" ++ (torch_file ++ codes "\">torch</a>")
    else codes "<a href=\"" ++ (device_file ++ codes "\">device</a>")

abbrev world : World
world = record {
  open_url = λ url n. returned (page_at url);
  run_nix = λ url n. returned (codes "sha256-");
  iterate = λ vs. vs;
  urls = plain_urls;
  now = codes "now";
}

abbrev args : Args
args = record {
  target = codes "gfx1151";
  python_tag = some (codes "cp312");
  series = some (codes "10.0");
  rocm_version = none;
  packages = codes "torch" ∷ device ∷ [];
  package_versions = (codes "torch", codes "2.9.1") ∷ [];
}

abbrev package_of : Text → Text → Package
package_of project filename = record {
  dist = record {
    project = project;
    filename = filename;
    url = filename;
    package_version = codes "2.9.1+rocm10.0.0";
    rocm_version = some (codes "10.0.0");
    python_tag = codes "cp312";
    abi_tag = codes "cp312";
    platform_tag = codes "linux_x86_64";
    kind = wheel;
  };
  hash = codes "sha256-";
}

abbrev selection : Selection
selection = record {
  rocm_version = codes "10.0.0";
  packages =
      (codes "torch", package_of (codes "torch") torch_file)
      ∷ (device, package_of device device_file)
      ∷ [];
}

selected : select world args (codes "cp312") (some (codes "10.0")) ≡ done selection
unfolding select list_all put get set_default to_dict pin_devices package_versions_of fetch_index
    try_from prefetch list_distributions hrefs parse_distribution file_parts file_name rpartition
    rsplit drop_last ends_with rocm_version_of search_rocm numeric_version normalize_project
    choose_and_prefetch choose_package choose_packages choose_rocm_version common_versions
    visit_project versions_of fits in_rocm_series match_release release_tail dist_matches_python
    dist_matches_platform dist_matches_package_version public_package_version pick_newest sorted
    insert compare_version compare_key lex version_key suffix_parts choose_distribution is_candidate
    compare_distribution
selected = refl

device_prefix : starts_with torch_device (normalize_project device) ≡ true
unfolding normalize_project
device_prefix = refl

select-Holds_example :
    (dists : List Distribution) × AreListed world device dists
    × ((p : Package) × (get device selection.packages ≡ some p)
        × (choose_distribution dists
              (codes "10.0.0")
              (codes "cp312")
              (get (normalize_project device) (package_versions_of args (projects_of args)))
            ≡ ok p.dist)
        × ((prefetch (world.run_nix p.dist.url)).outcome ≡ got p.hash))
select-Holds_example =
    select-Holds world args (codes "cp312") (some (codes "10.0")) selection device selected
      (inr (inl refl))

select-torch_example :
    (p : Package) × (get device selection.packages ≡ some p)
    × (public_package_version p.dist.package_version ≡ codes "2.9.1")
unfolding get to_dict put normalize_project
select-torch_example =
    select-torch world args (codes "cp312") (some (codes "10.0")) selection device (codes "2.9.1")
      selected (inr (inl refl)) refl refl refl

abbrev before_run : Fields
before_run = fields (
    (
      codes "targets",
      object (fields ((codes "gfx1151", null) ∷ (codes "gfx1201", text (codes "kept")) ∷ [])),
    )
    ∷ [])

abbrev old_targets : Fields
old_targets = fields ((codes "gfx1151", null) ∷ (codes "gfx1201", text (codes "kept")) ∷ [])

abbrev after_run : Fields
after_run = fields (
    (
      codes "targets",
      object (
          fields
            ((codes "gfx1151", text (codes "pin")) ∷ (codes "gfx1201", text (codes "kept")) ∷ [])),
    )
    ∷ (codes "updated", text (codes "now"))
    ∷ [])

stored :
    store_target before_run (codes "gfx1151") (text (codes "pin")) (codes "now") ≡ done after_run
unfolding store_target get_field put_field
stored = refl
