-- ===== src/Wheels.antt =====
-- pkgs/therock/scripts/update-python-wheels.py: the files of a package index and which of them fit.
-- The child modules read file names, choose the ROCm version and the files, and prove the choices.
pub mod Filename
pub mod Choose
pub mod Retry
pub mod Sources
pub mod Update
use nix_strix_halo.Prelude.{
  ℕ, Bool, true, false, ◌&&◌, ◌||◌, Option, none, some, List, [], ◌∷◌, ◌++◌, if◌then◌else◌,
}
use nix_strix_halo.Prelude.Text.{Text, codes, text_eq, lower, replace}
use nix_strix_halo.Prelude.Dict.{Dict, get}
use nix_strix_halo.Version.{public_package_version}

pub data Kind : Type 0 where
  wheel sdist : Kind

abbrev pub is_wheel : Kind → Bool
is_wheel wheel = true
is_wheel sdist = false

pub record Distribution : Type 0 where
  pub project : Text
  pub filename : Text
  pub url : Text
  pub package_version : Text
  pub rocm_version : Option Text
  pub python_tag : Text
  pub abi_tag : Text
  pub platform_tag : Text
  pub kind : Kind

-- project.replace("_", "-").lower()
unfoldable pub normalize_project : Text → Text
normalize_project project = lower (replace b'_' b'-' project)

abbrev pub base_packages : List Text
base_packages =
    codes "rocm"
    ∷ codes "rocm-bootstrap"
    ∷ codes "torch"
    ∷ codes "torchvision"
    ∷ codes "torchaudio"
    ∷ codes "triton"
    ∷ codes "rocm-sdk-core"
    ∷ codes "rocm-sdk-devel"
    ∷ codes "rocm-sdk-libraries"
    ∷ []

abbrev pub torch_device_families : Dict Text
torch_device_families =
    (codes "gfx1100", codes "gfx110x")
    ∷ (codes "gfx1101", codes "gfx110x")
    ∷ (codes "gfx1102", codes "gfx110x")
    ∷ (codes "gfx1103", codes "gfx110x")
    ∷ (codes "gfx1150", codes "gfx115x")
    ∷ (codes "gfx1151", codes "gfx115x")
    ∷ (codes "gfx1152", codes "gfx115x")
    ∷ (codes "gfx1153", codes "gfx115x")
    ∷ (codes "gfx1200", codes "gfx12-0")
    ∷ (codes "gfx1201", codes "gfx12-0")
    ∷ []

unfoldable pub default_packages : Text → List Text
default_packages target =
    let packages =
      base_packages
      ++ (codes "amd-torch-device-" ++ target)
        ∷ (codes "amd-torchvision-device-" ++ target)
        ∷ (codes "rocm-sdk-device-" ++ target)
        ∷ [] in
    elim (get target torch_device_families) [
      | none ↦ packages
      | some family ↦ packages ++ (codes "amd-torch-device-" ++ family) ∷ []
    ]

unfoldable pub dist_matches_python : Distribution → Text → Bool
dist_matches_python dist python_tag =
    if text_eq dist.python_tag (codes "py3") || text_eq dist.python_tag (codes "source")
    then true
    else text_eq dist.python_tag python_tag && text_eq dist.abi_tag python_tag

unfoldable pub dist_matches_platform : Distribution → Bool
dist_matches_platform dist =
    text_eq dist.platform_tag (codes "linux_x86_64")
    || (text_eq dist.platform_tag (codes "any") || text_eq dist.platform_tag (codes "source"))

unfoldable pub dist_matches_package_version : Distribution → Option Text → Bool
dist_matches_package_version dist none = true
dist_matches_package_version dist (some package_version) =
    text_eq (public_package_version dist.package_version) package_version
