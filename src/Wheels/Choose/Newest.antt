-- ===== src/Wheels/Choose/Newest.antt =====
-- `choose_rocm_version` chooses the newest version that all projects offer.
use nix_strix_halo.Prelude.{
  ◌≡◌, ◌≢◌, refl, ◌↔◌, inr, Option, none, some, List, [], ◌∷◌, All, In, Ordering,
}
use nix_strix_halo.Prelude.Sort.{sorted-last, sorted-last_of_In}
use nix_strix_halo.Prelude.Text.{Text}
use nix_strix_halo.Prelude.Dict.{Dict}
use nix_strix_halo.Version.{compare_version}
use nix_strix_halo.Version.Order.{compare_version-IsOrder}
use nix_strix_halo.Wheels.{Distribution}
use nix_strix_halo.Wheels.Choose.{
  ok, Failure, >>=-eq-ok, Request, common_versions, last_of, pick_newest, choose_rocm_version,
}
use nix_strix_halo.Wheels.Choose.Common.{
  Supports, Allows, HasRelevant, common_versions-Allows, common_versions-ok, common_versions-some,
}

pub last_of-ok : {A : Type 0} (e : Failure) (o : Option A) {a : A} → last_of e o ≡ ok a → o ≡ some a
last_of-ok e none h = cc
last_of-ok e (some b) h = cc

module _ (iterate : List Text → List Text)
    (iterates : (vs : List Text) (v : Text) → In v (iterate vs) ↔ In v vs) where
  pick_newest-max :
      (common : Option (List Text)) (v : Text)
      → pick_newest iterate common ≡ ok v
      → Allows common v
        × ((w : Text) → common ≢ none → Allows common w → compare_version v w ≢ Ordering.lt)
  unfolding pick_newest
  pick_newest-max none v h = cc
  pick_newest-max (some []) v h = cc
  pick_newest-max (some (c ∷ cs)) v h =
      let (m, max) = sorted-last compare_version-IsOrder (iterate (c ∷ cs)) v (last_of-ok _ _ h) in
      ((iterates (c ∷ cs) v).0 m, λ w e n. max w ((iterates (c ∷ cs) w).1 n))

  pick_newest-not_none :
      (common : Option (List Text)) {v : Text} → pick_newest iterate common ≡ ok v → common ≢ none
  unfolding pick_newest
  pick_newest-not_none none h e = cc
  pick_newest-not_none (some c) h e = cc

  pick_newest-ok :
      (common : Option (List Text)) (v : Text)
      → common ≢ none
      → Allows common v
      → (w : Text) × (pick_newest iterate common ≡ ok w)
  unfolding pick_newest
  pick_newest-ok none v s m = absurd (s refl)
  pick_newest-ok (some []) v s m = absurd m
  pick_newest-ok (some (c ∷ cs)) v s m =
      let (w, e) =
        sorted-last_of_In compare_version-IsOrder (iterate (c ∷ cs)) v
          ((iterates (c ∷ cs) v).1 m) in
      (w, rw e)

  -- If the order of iteration lists the members of a set and no others, the version that
  -- choose_rocm_version returns is offered, in the series and for the Python tag, the platform and
  -- the pinned package version, by every project that has ROCm versions at all.
  pub choose_rocm_version-Supports :
      (r : Request) (projects : Dict (List Distribution)) (v : Text)
      → choose_rocm_version iterate r projects ≡ ok v
      → All (Supports r v) projects
  unfolding choose_rocm_version
  choose_rocm_version-Supports r projects v h =
      let (common, found, picked) = >>=-eq-ok (common_versions r none projects) _ h in
      ((common_versions-Allows r v none common projects found).0
        (pick_newest-max common v picked).0).1

  -- If the order of iteration lists the members of a set and no others, no version that every
  -- project with ROCm versions offers is newer than the version that choose_rocm_version returns.
  pub choose_rocm_version-newest :
      (r : Request) (projects : Dict (List Distribution)) (v w : Text)
      → choose_rocm_version iterate r projects ≡ ok v
      → All (Supports r w) projects
      → compare_version v w ≢ Ordering.lt
  unfolding choose_rocm_version
  choose_rocm_version-newest r projects v w h s =
      let (common, found, picked) = >>=-eq-ok (common_versions r none projects) _ h in
      (pick_newest-max common v picked).1 w (pick_newest-not_none common picked)
        ((common_versions-Allows r w none common projects found).1 (tt, s))

  -- If the order of iteration lists the members of a set and no others, choose_rocm_version returns
  -- a version whenever some project has ROCm versions and one version is offered by all projects
  -- that have any.
  pub choose_rocm_version-found :
      (r : Request) (projects : Dict (List Distribution)) (w : Text)
      → HasRelevant projects
      → All (Supports r w) projects
      → (v : Text) × (choose_rocm_version iterate r projects ≡ ok v)
  unfolding choose_rocm_version
  choose_rocm_version-found r projects w relevant s =
      let (common, found) = common_versions-ok r w none projects s in
      let allowed = (common_versions-Allows r w none common projects found).1 (tt, s) in
      let (v, picked) =
        pick_newest-ok common w (common_versions-some r none projects (inr relevant) found)
          allowed in
      (v, rw found picked)
