-- ===== src/Wheels/Update/Main.antt =====
-- What a run of update-python-wheels.py selects and stores.
use nix_strix_halo.Prelude.{
  ◌≡◌, refl, sym, ◌∙◌, ap, inr, true, Option, none, some, List, [], arith, In, if◌then◌else◌,
}
use nix_strix_halo.Prelude.Text.{Text, codes, text_eq, text_eq_iff, starts_with}
use nix_strix_halo.Prelude.Dict.{Dict, get}
use nix_strix_halo.Json.{Json, text, object, Fields, get_field, put_field, get_field-put_field}
use nix_strix_halo.Version.{public_package_version}
use nix_strix_halo.Wheels.{Distribution, normalize_project, dist_matches_package_version}
use nix_strix_halo.Wheels.Choose.{is_candidate, choose_distribution, ok}
use nix_strix_halo.Wheels.Retry.{got, prefetch}
use nix_strix_halo.Wheels.Choose.Best.{IsCandidate, choose_distribution-IsCandidate}
use nix_strix_halo.Wheels.Update.{
  World, Args, done, Selection, Package, select, list_all, projects_of, package_versions_of,
  to_dict, torch_device, store_in, store_target, select_rocm_version, choose_packages,
}
use nix_strix_halo.Wheels.Update.Pins.{pin_devices-torch}
use nix_strix_halo.Wheels.Update.Packages.{
  >>=-done, IsChosen, Holds, choose_packages-Holds, AreListed, list_all-IsListed,
}

done-eq : {A : Type 0} {a b : A} → done a ≡ done b → a ≡ b
done-eq h = cc

some-eq : {A : Type 0} {a b : A} → some a ≡ some b → a ≡ b
some-eq h = cc

object-eq : {a b : Fields} → object a ≡ object b → a ≡ b
object-eq h = cc

selected-Holds :
    (world : World) (args : Args) (python_tag : Text) (series : Option Text) (s : Selection)
    (found : Dict (List Distribution)) (project : Text)
    → select world args python_tag series ≡ done s
    → list_all world [] (projects_of args) ≡ done found
    → In project (projects_of args)
    → Holds world found s.rocm_version python_tag
        (package_versions_of args (projects_of args))
        s.packages
        project
unfolding select
selected-Holds world args python_tag series s found project h listed m =
    let (found', listed', rest) = >>=-done (list_all world [] (projects_of args)) _ h in
    let pages : found' ≡ found = done-eq (sym listed' ∙ listed) in
    let (rocm_version, selected, rest') =
      >>=-done (select_rocm_version world args _ _ _ found') _ rest in
    let (packages, chose, ends) = >>=-done (choose_packages world found' _ _ _ [] _) _ rest' in
    let same : record { rocm_version = rocm_version; packages = packages } ≡ s = cc in
    rw (← pages, ← same)
      (choose_packages-Holds world found' rocm_version python_tag _ (projects_of args) [] packages
        project chose (inr m))

select-list_all :
    (world : World) (args : Args) (python_tag : Text) (series : Option Text) (s : Selection)
    → select world args python_tag series ≡ done s
    → (found : Dict (List Distribution)) × (list_all world [] (projects_of args) ≡ done found)
unfolding select
select-list_all world args python_tag series s h =
    let (found, listed, rest) = >>=-done (list_all world [] (projects_of args)) _ h in
    (found, listed)

-- After a selection every project that is asked for has a package: the choice among the files that
-- its own page of the index lists, as that page was answered, with the hash that was prefetched
-- from the address of the chosen file.
pub select-Holds :
    (world : World) (args : Args) (python_tag : Text) (series : Option Text) (s : Selection)
    (project : Text)
    → select world args python_tag series ≡ done s
    → In project (projects_of args)
    → (dists : List Distribution) × AreListed world project dists
      × ((p : Package) × (get project s.packages ≡ some p)
          × (choose_distribution dists s.rocm_version python_tag
                (get (normalize_project project) (package_versions_of args (projects_of args)))
              ≡ ok p.dist)
          × ((prefetch (world.run_nix p.dist.url)).outcome ≡ got p.hash))
select-Holds world args python_tag series s project h m =
    let (found, listed) = select-list_all world args python_tag series s h in
    let (p, here, c) = selected-Holds world args python_tag series s found project h listed m in
    let (dists, there, page) =
      list_all-IsListed world (projects_of args) [] found project listed (inr m) in
    let same : c.dists ≡ dists = some-eq (sym c.listed ∙ there) in
    (dists, page, (p, here, rw same at c.best, c.hashed))

matches_version :
    (d : Distribution) (v : Text)
    → dist_matches_package_version d (some v) ≡ true
    → public_package_version d.package_version ≡ v
unfolding dist_matches_package_version
matches_version d v h = (text_eq_iff _ v).0 h

candidate_version :
    (dists : List Distribution) (rocm_version python_tag v : Text) (d : Distribution)
    → IsCandidate dists rocm_version python_tag (some v) d
    → public_package_version d.package_version ≡ v
unfolding is_candidate
candidate_version dists rocm_version python_tag v d c = matches_version d v (ground arith)

-- A package that is chosen under a pinned version has that public version.
IsChosen-version :
    (world : World) (found : Dict (List Distribution)) (rocm_version python_tag : Text)
    (versions : Dict Text) (project v : Text) (p : Package)
    → get (normalize_project project) versions ≡ some v
    → IsChosen world found rocm_version python_tag versions project p
    → public_package_version p.dist.package_version ≡ v
IsChosen-version world found rocm_version python_tag versions project v p pinned c =
    candidate_version c.dists rocm_version python_tag v p.dist (
      choose_distribution-IsCandidate c.dists rocm_version python_tag (some v) p.dist
        (rw pinned at c.best))

package_versions_of-torch :
    (args : Args) (projects : List Text) (project version : Text)
    → In project projects
    → starts_with torch_device (normalize_project project) ≡ true
    → get (codes "torch") (to_dict [] args.package_versions) ≡ some version
    → get (normalize_project project) (to_dict [] args.package_versions) ≡ none
    → get (normalize_project project) (package_versions_of args projects) ≡ some version
unfolding package_versions_of
package_versions_of-torch args projects project version m device torch free =
    let given = to_dict [] args.package_versions in
    rw torch (
      pin_devices-torch (get (codes "torchvision") given) version project projects given m device
      ∙ ap
          (λ (o : Option Text). elim o as (λ o. Option Text) [
            | none ↦ some version
            | some v ↦ some v
          ])
          free)

-- If the version of torch is given, and none for a torch device wheel among the projects, then the
-- file that is pinned for this wheel has that version of torch as its public version.
pub select-torch :
    (world : World) (args : Args) (python_tag : Text) (series : Option Text) (s : Selection)
    (project version : Text)
    → select world args python_tag series ≡ done s
    → In project (projects_of args)
    → starts_with torch_device (normalize_project project) ≡ true
    → get (codes "torch") (to_dict [] args.package_versions) ≡ some version
    → get (normalize_project project) (to_dict [] args.package_versions) ≡ none
    → (p : Package) × (get project s.packages ≡ some p)
      × (public_package_version p.dist.package_version ≡ version)
select-torch world args python_tag series s project version h m device torch free =
    let (found, listed) = select-list_all world args python_tag series s h in
    let (p, here, c) = selected-Holds world args python_tag series s found project h listed m in
    let versions = package_versions_of args (projects_of args) in
    let pinned : get (normalize_project project) versions ≡ some version =
      package_versions_of-torch args (projects_of args) project version m device torch free in
    (
      p,
      here,
      IsChosen-version world found s.rocm_version python_tag versions project version p pinned c,
    )

store_in-keeps :
    (sources : Fields) (target now : Text) (pin : Json) (o : Option Json) (written : Fields)
    → store_in sources target pin now o ≡ done written
    → (old : Fields) × (o ≡ some (object old))
      × (get_field (codes "targets") written ≡ some (object (put_field target pin old)))
store_in-keeps sources target now pin (some (object targets)) written h =
    let out = put_field (codes "targets") (object (put_field target pin targets)) sources in
    let same : put_field (codes "updated") (text now) out ≡ written = cc in
    (
      targets,
      refl,
      rw (← same) (
          get_field-put_field (codes "updated") (codes "targets") (text now) out
          ∙ get_field-put_field (codes "targets") (codes "targets")
              (object (put_field target pin targets)) sources),
    )
store_in-keeps sources target now pin _ written h = cc

-- A run that stores its pin gives the target the new entry and keeps the entries of all other
-- targets.
pub store_target-keeps :
    (sources : Fields) (target now : Text) (pin : Json) (written old : Fields) (other : Text)
    → store_target sources target pin now ≡ done written
    → get_field (codes "targets") sources ≡ some (object old)
    → (new : Fields) × (get_field (codes "targets") written ≡ some (object new))
      × (get_field other new ≡ (if text_eq target other then some pin else get_field other old))
unfolding store_target
store_target-keeps sources target now pin written old other h there =
    let (old', there', new) = store_in-keeps sources target now pin _ written h in
    let same : old' ≡ old = object-eq (some-eq (sym there' ∙ there)) in
    (put_field target pin old, rw same at new, get_field-put_field target other pin old)
