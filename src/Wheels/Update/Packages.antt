-- ===== src/Wheels/Update/Packages.antt =====
-- What `main` of update-python-wheels.py writes, and when it writes nothing.
use nix_strix_halo.Prelude.{
  ◌≡◌, refl, sym, ◌++◌, inl, inr, some, List, [], ◌∷◌, arith, In, Bool-cases, Option-cases, ◌⊎◌,
}
use nix_strix_halo.Prelude.Text.{Text, codes, text_eq, text_eq_iff, text_eq_refl}
use nix_strix_halo.Prelude.Dict.{Dict, get, put, get-put}
use nix_strix_halo.Wheels.{Distribution, normalize_project}
use nix_strix_halo.Wheels.Filename.{list_distributions}
use nix_strix_halo.Wheels.Retry.{Outcome, got, system_exit, raised, fetch_index, prefetch}
use nix_strix_halo.Wheels.Choose as C
use nix_strix_halo.Wheels.Choose.{choose_distribution}
use nix_strix_halo.Wheels.Update.{
  World, choose_and_prefetch, Step, done, stop, ◌>>=◌, chosen, fetched, Package, choose_package,
  choose_packages, list_all,
}

pub >>=-done {ℓ κ} :
    {A : Type ℓ} {B : Type κ} (m : Step A) (f : A → Step B) {b : B}
    → (m >>= f) ≡ done b
    → (a : A) × (m ≡ done a) × (f a ≡ done b)
>>=-done (done a) f h = (a, refl, h)
>>=-done (stop e) f h = cc

chosen-done : {A : Type 0} (r : C.Result A) {a : A} → chosen r ≡ done a → r ≡ C.ok a
chosen-done (C.ok b) h = cc
chosen-done (C.err e) h = cc

fetched-done :
    {A : Type 0} (url : Text) (o : Outcome A) {a : A} → fetched url o ≡ done a → o ≡ got a
fetched-done url (got b) h = cc
fetched-done url system_exit h = cc
fetched-done url raised h = cc

-- The page of a project in the index.
abbrev pub page_address : Text → Text
page_address project =
    codes "https://stable.repo.amd.com/rocm/whl-next" ++ (codes "/" ++ (project ++ codes "/"))

module _ (world : World) where
  -- The files are those on the project's own page, as it was answered.
  abbrev pub AreListed : Text → List Distribution → Type 0
  AreListed project dists =
      (page : Text) × ((fetch_index (world.open_url (page_address project))).outcome ≡ got page)
      × (dists ≡ list_distributions world.urls project (page_address project) page)

  abbrev pub IsListed : Dict (List Distribution) → Text → Type 0
  IsListed found project =
      (dists : List Distribution) × (get project found ≡ some dists) × AreListed project dists

  put-IsListed :
      (found : Dict (List Distribution)) (project other : Text) (dists : List Distribution)
      → AreListed other dists
      → (other ≡ project) ⊎ IsListed found project
      → IsListed (put other dists found) project
  put-IsListed found project other dists here at_hand = elim (Bool-cases (text_eq other project)) [
    | inl e ↦
        let same : other ≡ project = (text_eq_iff other project).0 e in
        (dists, ground (arith, get-put other project dists found), rw (← same) here)
    | inr e ↦ elim at_hand [
      | inl same ↦ absurd (cc (e, (text_eq_iff other project).1 same))
      | inr (there, got_it, page) ↦ (there, ground (arith, get-put other project dists found), page)
    ]
  ]

  pub list_all-IsListed :
      (projects : List Text) (found found' : Dict (List Distribution)) (project : Text)
      → list_all world found projects ≡ done found'
      → IsListed found project ⊎ In project projects
      → IsListed found' project
  unfolding list_all
  list_all-IsListed [] found found' project h (inl listed) =
      let same : found ≡ found' = cc in rw (← same) listed
  list_all-IsListed [] found found' project h (inr m) = absurd m
  list_all-IsListed (q ∷ qs) found found' project h at_hand =
      let (page, answered, rest) = >>=-done (fetched (page_address q) _) _ h in
      let dists = list_distributions world.urls q (page_address q) page in
      let here : AreListed q dists = (page, fetched-done (page_address q) _ answered, refl) in
      list_all-IsListed qs (put q dists found) found' project rest (elim at_hand [
        | inl listed ↦ inl (put-IsListed found project q dists here (inr listed))
        | inr (inl e) ↦ inl (put-IsListed found project q dists here (inl (sym e)))
        | inr (inr later) ↦ inr later
      ])

module _ (world : World) (found : Dict (List Distribution)) (rocm_version python_tag : Text)
    (versions : Dict Text) where
  -- The package is the choice among the project's files, with the hash of its address.
  pub record IsChosen (project : Text) (p : Package) : Type 0 where
    pub dists : List Distribution
    pub listed : get project found ≡ some dists
    pub best :
        choose_distribution dists rocm_version python_tag (get (normalize_project project) versions)
        ≡ C.ok p.dist
    pub hashed : (prefetch (world.run_nix p.dist.url)).outcome ≡ got p.hash

  choose_and_prefetch-IsChosen :
      (project : Text) (dists : List Distribution) (p : Package)
      → get project found ≡ some dists
      → choose_and_prefetch world dists rocm_version python_tag
          (get (normalize_project project) versions)
        ≡ done p
      → IsChosen project p
  unfolding choose_and_prefetch
  choose_and_prefetch-IsChosen project dists p e h =
      let (dist, best, rest) = >>=-done (chosen _) _ h in
      let (hash, hashed, ends) = >>=-done (fetched dist.url _) _ rest in
      let same : record { dist = dist; hash = hash } ≡ p = cc in
      rw (← same) (record {
        dists = dists;
        listed = e;
        best = chosen-done _ best;
        hashed = fetched-done dist.url _ hashed;
      })

  choose_package-IsChosen :
      (project : Text) (p : Package)
      → choose_package world found rocm_version python_tag versions project ≡ done p
      → IsChosen project p
  unfolding choose_package
  choose_package-IsChosen project p h = elim (Option-cases (get project found)) [
    | inl e ↦ cc (rw (e, choose_package) at h)
    | inr (dists, e) ↦ choose_and_prefetch-IsChosen project dists p e (rw (e, choose_package) at h)
  ]

  abbrev pub Holds : Dict Package → Text → Type 0
  Holds packages project = (p : Package) × (get project packages ≡ some p) × IsChosen project p

  put-Holds :
      (packages : Dict Package) (project other : Text) (p : Package)
      → IsChosen other p
      → Holds packages project
      → Holds (put other p packages) project
  put-Holds packages project other p c (q, e, d) = elim (Bool-cases (text_eq other project)) [
    | inl t ↦
        let same : other ≡ project = (text_eq_iff other project).0 t in
        (p, ground (arith, get-put other project p packages), rw (← same) c)
    | inr f ↦ (q, ground (arith, get-put other project p packages), d)
  ]

  put-Holds_self :
      (packages : Dict Package) (project : Text) (p : Package)
      → IsChosen project p
      → Holds (put project p packages) project
  put-Holds_self packages project p c =
      (p, ground (arith, get-put project project p packages, text_eq_refl project), c)

  pub choose_packages-Holds :
      (projects : List Text) (packages packages' : Dict Package) (project : Text)
      → choose_packages world found rocm_version python_tag versions packages projects
        ≡ done packages'
      → Holds packages project ⊎ In project projects
      → Holds packages' project
  unfolding choose_packages
  choose_packages-Holds [] packages packages' project h (inl held) =
      let same : packages ≡ packages' = cc in rw (← same) held
  choose_packages-Holds [] packages packages' project h (inr m) = absurd m
  choose_packages-Holds (q ∷ qs) packages packages' project h at_hand =
      let (p, made, rest) =
        >>=-done (choose_package world found rocm_version python_tag versions q) _ h in
      let c = choose_package-IsChosen q p made in
      choose_packages-Holds qs (put q p packages) packages' project rest (elim at_hand [
        | inl held ↦ inl (put-Holds packages project q p c held)
        | inr (inl here) ↦ inl (rw here (put-Holds_self packages q p c))
        | inr (inr later) ↦ inr later
      ])
