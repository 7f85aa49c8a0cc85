-- ===== src/Wheels/Choose/Common.antt =====
-- What the set comprehension and the loop of `choose_rocm_version` compute.
use nix_strix_halo.Prelude.{
  ◌≡◌, ◌≢◌, refl, sym, ap, ap, ◌↔◌, ◌⊎◌, inl, inr, true, Option, none, some, List, [], ◌∷◌, arith,
  any, All, In, In-keep, Bool-cases,
}
use nix_strix_halo.Prelude.Text.{Text, text_eq, text_eq_iff}
use nix_strix_halo.Prelude.Dict.{Dict}
use nix_strix_halo.Wheels.{Distribution}
use nix_strix_halo.Wheels.Choose.{
  ok, >>=-eq-ok, member, Request, fits, add_version, versions_of, has_rocm_version, meet,
  merge_versions, visit_project, common_versions,
}

member→In : (v : Text) (vs : List Text) → member v vs ≡ true → In v vs
member→In v [] h = cc
member→In v (w ∷ vs) h = elim (Bool-cases (text_eq v w)) [
  | inl e ↦ inl ((text_eq_iff v w).0 e)
  | inr e ↦ inr (member→In v vs (ground arith))
]

In→member : (v : Text) (vs : List Text) → In v vs → member v vs ≡ true
In→member v [] m = absurd m
In→member v (w ∷ vs) (inl q) = ground (arith, (text_eq_iff v w).1 q)
In→member v (w ∷ vs) (inr m) = ground (arith, In→member v vs m)

-- A distribution of the list has this ROCm version and meets the request.
pub record IsOffered (r : Request) (project : Text) (dists : List Distribution) (v : Text)
    : Type 0 where
  pub dist : Distribution
  pub listed : In dist dists
  pub versioned : dist.rocm_version ≡ some v
  pub fitting : fits r project v dist ≡ true

IsOffered-cons :
    {r : Request} {project v : Text} (d : Distribution) {dists : List Distribution}
    → IsOffered r project dists v
    → IsOffered r project (d ∷ dists) v
IsOffered-cons d o = record {
  dist = o.dist;
  listed = inr o.listed;
  versioned = o.versioned;
  fitting = o.fitting;
}

module _ (r : Request) (project v : Text) where
  In-add_version :
      (d : Distribution) (o : Option Text) (versions : List Text)
      → In v (add_version r project d o versions)
      → ((o ≡ some v) × (fits r project v d ≡ true)) ⊎ In v versions
  In-add_version d none versions m = inr m
  In-add_version d (some w) versions m = elim (Bool-cases (fits r project w d)) [
    | inl e ↦ elim (rw e at m) [ inl q ↦ inl (ap some (sym q), rw q e) | inr n ↦ inr n ]
    | inr e ↦ inr (rw e at m)
  ]

  add_version-In :
      (d : Distribution) (o : Option Text) (versions : List Text)
      → ((o ≡ some v) × (fits r project v d ≡ true)) ⊎ In v versions
      → In v (add_version r project d o versions)
  add_version-In d none versions (inl (e, f)) = cc
  add_version-In d none versions (inr m) = m
  add_version-In d (some w) versions (inl (e, f)) =
      let same : v ≡ w = cc in
      let f' : fits r project w d ≡ true = rw (← same) f in rw f' (inl same)
  add_version-In d (some w) versions (inr m) = elim (Bool-cases (fits r project w d)) [
    | inl e ↦ rw e (inr m)
    | inr e ↦ rw e m
  ]

  pub versions_of-IsOffered :
      (dists : List Distribution) → In v (versions_of r project dists) → IsOffered r project dists v
  unfolding versions_of
  versions_of-IsOffered [] m = absurd m
  versions_of-IsOffered (d ∷ dists) m = elim (In-add_version d d.rocm_version _ m) [
    | inl (e, f) ↦ record { dist = d; listed = inl refl; versioned = e; fitting = f }
    | inr n ↦ IsOffered-cons d (versions_of-IsOffered dists n)
  ]

  listed-In :
      (dists : List Distribution) (d : Distribution)
      → In d dists
      → d.rocm_version ≡ some v
      → fits r project v d ≡ true
      → In v (versions_of r project dists)
  unfolding versions_of
  listed-In [] d m e f = absurd m
  listed-In (c ∷ dists) d (inl q) e f =
      add_version-In c c.rocm_version _ (inl (rw (← q) e, rw (← q) f))
  listed-In (c ∷ dists) d (inr m) e f =
      add_version-In c c.rocm_version _ (inr (listed-In dists d m e f))

  pub IsOffered-versions_of :
      (dists : List Distribution) → IsOffered r project dists v → In v (versions_of r project dists)
  IsOffered-versions_of dists o = listed-In dists o.dist o.listed o.versioned o.fitting

-- The loop skips the projects of which no distribution has a ROCm version.
abbrev pub Supports : Request → Text → Text × List Distribution → Type 0
Supports r v (project, dists) = any has_rocm_version dists ≡ true → IsOffered r project dists v

abbrev pub Allows : Option (List Text) → Text → Type 0
Allows none v = Unit
Allows (some common) v = In v common

meet-Allows :
    (common : Option (List Text)) (versions : List Text) (v : Text)
    → In v (meet common versions) ↔ (Allows common v × In v versions)
meet-Allows none versions v = (λ m. (tt, m), λ h. h.1)
meet-Allows (some common) versions v =
    let (to, from) = In-keep (λ w. member w versions) v common in
    (
      λ m. let h = to m in (h.0, member→In v versions h.1),
      λ h. from (h.0, In→member v versions h.1),
    )

merge_versions-ok :
    (project : Text) (common : Option (List Text)) (versions : List Text)
    (common' : Option (List Text))
    → merge_versions project common versions ≡ ok common'
    → common' ≡ some (meet common versions)
merge_versions-ok project common [] common' h = cc
merge_versions-ok project common (v ∷ vs) common' h = cc

module _ (r : Request) (v : Text) where
  visit_project-Allows :
      (common common' : Option (List Text)) (project : Text) (dists : List Distribution)
      → visit_project r common project dists ≡ ok common'
      → Allows common' v ↔ (Allows common v × Supports r v (project, dists))
  unfolding visit_project
  visit_project-Allows common common' project dists h =
      elim (Bool-cases (any has_rocm_version dists)) [
        | inl e ↦
            let versions = versions_of r project dists in
            let met : common' ≡ some (meet common versions) =
              merge_versions-ok project common versions common' (rw e at h) in
            let (to, from) = meet-Allows common versions v in
            rw met (
              (λ m.
                  let (allowed, offered) = to m in
                  (allowed, λ relevant. versions_of-IsOffered r project v dists offered)),
              λ k. from (k.0, IsOffered-versions_of r project v dists (k.1 e)),
            )
        | inr e ↦
            let same : common ≡ common' = cc (rw e at h) in
            rw (← same) ((λ m. (m, λ relevant. cc)), λ k. k.0)
      ]

  -- After the loop a version is left exactly if every relevant project offers it.
  pub common_versions-Allows :
      (common common' : Option (List Text)) (projects : Dict (List Distribution))
      → common_versions r common projects ≡ ok common'
      → Allows common' v ↔ (Allows common v × All (Supports r v) projects)
  unfolding common_versions
  common_versions-Allows common common' [] h =
      let same : common ≡ common' = cc in rw (← same) ((λ m. (m, tt)), λ k. k.0)
  common_versions-Allows common common' ((project, dists) ∷ rest) h =
      let (middle, visited, ends) = >>=-eq-ok (visit_project r common project dists) _ h in
      let (to, from) = visit_project-Allows common middle project dists visited in
      let (to', from') = common_versions-Allows middle common' rest ends in
      (
        λ m.
            let (allowed, supports) = to' m in
            let (first, here) = to allowed in (first, (here, supports)),
        λ k. from' (from (k.0, k.1.0), k.1.1),
      )

  merge_versions-some :
      (project : Text) (common : Option (List Text)) (versions : List Text)
      → In v versions
      → merge_versions project common versions ≡ ok (some (meet common versions))
  merge_versions-some project common [] m = absurd m
  merge_versions-some project common (w ∷ ws) m = refl

  visit_project-ok :
      (common : Option (List Text)) (project : Text) (dists : List Distribution)
      → Supports r v (project, dists)
      → (common' : Option (List Text)) × (visit_project r common project dists ≡ ok common')
  unfolding visit_project
  visit_project-ok common project dists s = elim (Bool-cases (any has_rocm_version dists)) [
    | inl e ↦ (
      some (meet common (versions_of r project dists)),
      rw e (merge_versions-some project common _ (IsOffered-versions_of r project v dists (s e))),
    )
    | inr e ↦ (common, rw e)
  ]

  -- A version that every relevant project offers keeps the loop from failing.
  pub common_versions-ok :
      (common : Option (List Text)) (projects : Dict (List Distribution))
      → All (Supports r v) projects
      → (common' : Option (List Text)) × (common_versions r common projects ≡ ok common')
  unfolding common_versions
  common_versions-ok common [] s = (common, refl)
  common_versions-ok common ((project, dists) ∷ rest) s =
      let (middle, visited) = visit_project-ok common project dists s.0 in
      let (common', ends) = common_versions-ok middle rest s.1 in (common', rw visited ends)

-- Some project has a distribution with a ROCm version.
abbrev pub HasRelevant : Dict (List Distribution) → Type 0
HasRelevant [] = ⊥
HasRelevant ((project, dists) ∷ rest) = (any has_rocm_version dists ≡ true) ⊎ HasRelevant rest

module _ (r : Request) where
  visit_project-some :
      (common : List Text) (project : Text) (dists : List Distribution)
      {common' : Option (List Text)}
      → visit_project r (some common) project dists ≡ ok common'
      → common' ≢ none
  unfolding visit_project
  visit_project-some common project dists h e = elim (Bool-cases (any has_rocm_version dists)) [
    | inl t ↦
        cc (merge_versions-ok project (some common) (versions_of r project dists) _ (rw t at h))
    | inr f ↦ cc (rw f at h)
  ]

  visit_project-relevant :
      (common : Option (List Text)) (project : Text) (dists : List Distribution)
      {common' : Option (List Text)}
      → any has_rocm_version dists ≡ true
      → visit_project r common project dists ≡ ok common'
      → common' ≢ none
  unfolding visit_project
  visit_project-relevant common project dists t h e =
      cc (merge_versions-ok project common (versions_of r project dists) _ (rw t at h))

  pub common_versions-some :
      (common : Option (List Text)) (projects : Dict (List Distribution))
      {common' : Option (List Text)}
      → (common ≢ none) ⊎ HasRelevant projects
      → common_versions r common projects ≡ ok common'
      → common' ≢ none
  unfolding common_versions
  common_versions-some common [] (inl s) h = λ e. s (cc)
  common_versions-some common [] (inr m) h = absurd m
  common_versions-some none ((project, dists) ∷ rest) (inl s) h = absurd (s refl)
  common_versions-some (some c) ((project, dists) ∷ rest) (inl s) h =
      let (middle, visited, ends) = >>=-eq-ok (visit_project r (some c) project dists) _ h in
      common_versions-some middle rest (inl (visit_project-some c project dists visited)) ends
  common_versions-some common ((project, dists) ∷ rest) (inr (inl t)) h =
      let (middle, visited, ends) = >>=-eq-ok (visit_project r common project dists) _ h in
      common_versions-some middle rest (inl (visit_project-relevant common project dists t visited))
        ends
  common_versions-some common ((project, dists) ∷ rest) (inr (inr m)) h =
      let (middle, visited, ends) = >>=-eq-ok (visit_project r common project dists) _ h in
      common_versions-some middle rest (inr m) ends
