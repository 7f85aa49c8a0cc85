-- ===== src/Wheels/Update.antt =====
-- `main` of update-python-wheels.py, from the parsed arguments to the value that is written.
pub mod Pins
pub mod Packages
pub mod Main
use nix_strix_halo.Prelude.{
  ℕ, ◌≡◌, refl, Bool, true, false, Option, none, some, List, [], ◌∷◌, ◌++◌, if◌then◌else◌,
}
use nix_strix_halo.Prelude.Text.{Text, codes, starts_with}
use nix_strix_halo.Prelude.Dict.{Dict, get, put, set_default}
use nix_strix_halo.Json.{Json, null, text, object, Fields, end, field, get_field, put_field, fields}
use nix_strix_halo.Wheels.{Distribution, Kind, wheel, sdist, normalize_project, default_packages}
use nix_strix_halo.Wheels.Filename.{Urls, list_distributions}
use nix_strix_halo.Wheels.Retry.{
  Attempt, Run, Outcome, got, system_exit, raised, fetch_index, prefetch,
}
use nix_strix_halo.Wheels.Sources.{load_sources, pinned_python_tag, pinned_series}
use nix_strix_halo.Wheels.Choose as C
use nix_strix_halo.Wheels.Choose.{Failure, choose_rocm_version, choose_distribution, Request}

abbrev pub base_url : Text
base_url = codes "https://stable.repo.amd.com/rocm/whl-next"

abbrev pub default_series : Text
default_series = codes "10.0"

-- What the script meets: the pages by address and try, `nix store prefetch-file` likewise with the
-- `hash` of its answer, the order in which a set is iterated over, `urllib.parse`, and the clock.
pub record World : Type 0 where
  pub open_url : Text → ℕ → Attempt Text
  pub run_nix : Text → ℕ → Attempt Text
  pub iterate : List Text → List Text
  pub urls : Urls
  pub now : Text

pub record Args : Type 0 where
  pub target : Text
  pub python_tag : Option Text
  pub series : Option Text
  pub rocm_version : Option Text
  pub packages : List Text
  pub package_versions : List (Text × Text)

-- How `main` ends without writing.
pub data Stop : Type 0 where
  usage_error : Stop
  exit_fetch : Text → Stop
  exit_choice : Failure → Stop
  exception : Stop

pub data Step {ℓ} (A : Type ℓ) : Type ℓ where
  done : A → Step A
  stop : Stop → Step A

infixl 5 ◌>>=◌
abbrev pub ◌>>=◌ {ℓ κ} : {A : Type ℓ} {B : Type κ} → Step A → (A → Step B) → Step B
done a >>= f = f a
stop e >>= f = stop e

abbrev pub chosen : {A : Type 0} → C.Result A → Step A
chosen (C.ok a) = done a
chosen (C.err e) = stop (exit_choice e)

abbrev pub fetched : {A : Type 0} → Text → Outcome A → Step A
fetched url (got a) = done a
fetched url system_exit = stop (exit_fetch url)
fetched url raised = stop exception

-- a or b
abbrev pub or_else : Option Text → Option Text → Option Text
or_else none b = b
or_else (some []) b = b
or_else (some (c ∷ s)) b = some (c ∷ s)

-- dict(pairs)
unfoldable pub to_dict : Dict Text → List (Text × Text) → Dict Text
to_dict d [] = d
to_dict d ((k, v) ∷ pairs) = to_dict (put k v d) pairs

-- One `if` of the loop that pins the device wheels.
abbrev pub pin_device : Text → Option Text → Text → Dict Text → Dict Text
pin_device prefix none normalized versions = versions
pin_device prefix (some version) normalized versions =
    if starts_with prefix normalized then set_default normalized version versions else versions

abbrev pub torch_device : Text
torch_device = codes "amd-torch-device-"

abbrev pub torchvision_device : Text
torchvision_device = codes "amd-torchvision-device-"

unfoldable pub pin_devices : Option Text → Option Text → List Text → Dict Text → Dict Text
pin_devices torch torchvision [] versions = versions
pin_devices torch torchvision (project ∷ projects) versions =
    let normalized = normalize_project project in
    pin_devices torch torchvision projects (
      pin_device torchvision_device torchvision normalized
        (pin_device torch_device torch normalized versions))

-- package_versions, as the choices use them
unfoldable pub package_versions_of : Args → List Text → Dict Text
package_versions_of args projects =
    let given = to_dict [] args.package_versions in
    pin_devices (get (codes "torch") given) (get (codes "torchvision") given) projects given

pub record Package : Type 0 where
  pub dist : Distribution
  pub hash : Text

module _ (world : World) where
  abbrev pub index_url_of : Text → Text
  index_url_of project = base_url ++ (codes "/" ++ (project ++ codes "/"))

  unfoldable pub list_all : Dict (List Distribution) → List Text → Step (Dict (List Distribution))
  list_all found [] = done found
  list_all found (project ∷ projects) =
      let index_url = index_url_of project in
      fetched index_url (fetch_index (world.open_url index_url)).outcome >>= λ page.
      list_all (put project (list_distributions world.urls project index_url page) found) projects

  unfoldable pub choose_and_prefetch : List Distribution → Text → Text → Option Text → Step Package
  choose_and_prefetch dists rocm_version python_tag package_version = do
    dist ← chosen (choose_distribution dists rocm_version python_tag package_version)
    hash ← fetched dist.url (prefetch (world.run_nix dist.url)).outcome
    done (record { dist = dist; hash = hash })

  -- The body of the loop over the projects.
  unfoldable pub choose_package :
      Dict (List Distribution) → Text → Text → Dict Text → Text → Step Package
  choose_package found rocm_version python_tag versions project = elim (get project found) [
    | none ↦ stop exception
    | some dists ↦
        choose_and_prefetch dists rocm_version python_tag (get (normalize_project project) versions)
  ]

  unfoldable pub choose_packages :
      Dict (List Distribution)
      → Text
      → Text
      → Dict Text
      → Dict Package
      → List Text
      → Step (Dict Package)
  choose_packages found rocm_version python_tag versions packages [] = done packages
  choose_packages found rocm_version python_tag versions packages (project ∷ projects) =
      choose_package found rocm_version python_tag versions project >>= λ pkg.
      choose_packages found rocm_version python_tag versions (put project pkg packages) projects

  abbrev pub select_rocm_version :
      Args → Text → Text → Dict Text → Dict (List Distribution) → Step Text
  select_rocm_version args series python_tag versions found =
      elim (or_else args.rocm_version none) [
        | some v ↦ done v
        | none ↦ chosen (
            choose_rocm_version world.iterate
              (record { series = series; python_tag = python_tag; package_versions = versions })
              found)
      ]

abbrev kind_text : Kind → Text
kind_text wheel = codes "wheel"
kind_text sdist = codes "sdist"

abbrev text_or : Option Text → Text → Text
text_or (some (c ∷ s)) t = c ∷ s
text_or _ t = t

abbrev package_json : Text → Package → Json
package_json rocm_version p = object (
    fields (
      (codes "url", text p.dist.url)
      ∷ (codes "hash", text p.hash)
      ∷ (codes "filename", text p.dist.filename)
      ∷ (codes "packageVersion", text p.dist.package_version)
      ∷ (codes "rocmVersion", text (text_or p.dist.rocm_version rocm_version))
      ∷ (codes "pythonTag", text p.dist.python_tag)
      ∷ (codes "abiTag", text p.dist.abi_tag)
      ∷ (codes "platformTag", text p.dist.platform_tag)
      ∷ (codes "kind", text (kind_text p.dist.kind))
      ∷ []))

unfoldable pub packages_json : Text → Dict Package → Fields
packages_json rocm_version [] = end
packages_json rocm_version ((project, p) ∷ packages) =
    field project (package_json rocm_version p) (packages_json rocm_version packages)

abbrev optional : Option Text → Json
optional none = null
optional (some t) = text t

abbrev target_json : Args → Option Text → Text → Text → Dict Package → Text → Json
target_json args series rocm_version python_tag packages now = object (
    fields (
      (codes "target", text args.target)
      ∷ (codes "series", optional series)
      ∷ (codes "rocmVersion", text rocm_version)
      ∷ (codes "pythonTag", text python_tag)
      ∷ (codes "index", text (base_url ++ codes "/"))
      ∷ (codes "packages", object (packages_json rocm_version packages))
      ∷ (codes "updated", text now)
      ∷ []))

abbrev pub store_in : Fields → Text → Json → Text → Option Json → Step Fields
store_in sources target pin now (some (object targets)) = done (
    put_field (codes "updated") (text now)
      (put_field (codes "targets") (object (put_field target pin targets)) sources))
store_in sources target pin now _ = stop exception

-- sources["targets"][target] = pin; sources["updated"] = now
unfoldable pub store_target : Fields → Text → Json → Text → Step Fields
store_target sources target pin now =
    store_in sources target pin now (get_field (codes "targets") sources)

abbrev read_sources : Option Fields → Step Fields
read_sources doc = elim (load_sources doc) [ none ↦ stop exception | some sources ↦ done sources ]

abbrev read_tag : Args → Fields → Step Text
read_tag args sources = elim (or_else args.python_tag none) [
  | some tag ↦ done tag
  | none ↦ elim (pinned_python_tag sources args.target) [
    | none ↦ stop exception
    | some none ↦ stop usage_error
    | some (some tag) ↦ done tag
  ]
]

-- args.series, after the default from the pin
unfoldable pub series_of : Args → Option Text → Option Text
series_of args content = elim (or_else args.series none) [
  | some series ↦ some series
  | none ↦ elim (or_else args.rocm_version none) [
    | some version ↦ args.series
    | none ↦ or_else (pinned_series content) (some default_series)
  ]
]

abbrev pub projects_of : Args → List Text
projects_of args = elim args.packages [ [] ↦ default_packages args.target | p ∷ ps ↦ p ∷ ps ]

abbrev series_text : Option Text → Text
series_text none = []
series_text (some s) = s

-- The pins of one run, before they are stored.
pub record Selection : Type 0 where
  pub rocm_version : Text
  pub packages : Dict Package

unfoldable pub select : World → Args → Text → Option Text → Step Selection
select world args python_tag series = do
  let projects = projects_of args
  let versions = package_versions_of args projects
  found ← list_all world [] projects
  rocm_version ← select_rocm_version world args (series_text series) python_tag versions found
  packages ← choose_packages world found rocm_version python_tag versions [] projects
  done (record { rocm_version = rocm_version; packages = packages })

-- `content` and `doc` are the text of the output file and the value that it holds.
unfoldable pub main : World → Args → Option Text → Option Fields → Step Fields
main world args content doc = do
  sources ← read_sources doc
  python_tag ← read_tag args sources
  let series = series_of args content
  selection ← select world args python_tag series
  store_target sources args.target
      (target_json args series selection.rocm_version python_tag selection.packages world.now)
      world.now
