-- ===== src/Tarball/Version.antt =====
-- Which version `find_version` of update-rocm.py returns.
use nix_strix_halo.Prelude.{
  ◌≡◌, ◌≢◌, ◌↔◌, inl, inr, Bool, true, Option, none, some, List, [], ◌∷◌, In, In-keep, All, All-In,
  keep, Ordering, Bool-cases,
}
use nix_strix_halo.Prelude.Sort.{
  sorted, IsAscending, sorted-IsAscending, In-sorted, sorted-In, last-max, In-last, last-some,
}
use nix_strix_halo.Prelude.Text.{Text}
use nix_strix_halo.Version.{compare_version}
use nix_strix_halo.Version.Order.{compare_version-IsOrder}
use nix_strix_halo.Tarball.{find_all, prefix_of, in_series, of_series, newest, find_version, go}

All-keep : {A : Type 0} (P : A → Type 0) (p : A → Bool) (xs : List A) → All P xs → All P (keep p xs)
All-keep P p [] h = tt
All-keep P p (x ∷ xs) h = elim (Bool-cases (p x)) [
  | inl e ↦ rw e (h.0, All-keep P p xs h.1)
  | inr e ↦ rw e (All-keep P p xs h.1)
]

keep-IsAscending :
    {A : Type 0} (cmp : A → A → Ordering) (p : A → Bool) (xs : List A)
    → IsAscending cmp xs
    → IsAscending cmp (keep p xs)
keep-IsAscending cmp p [] h = tt
keep-IsAscending cmp p (x ∷ xs) h = elim (Bool-cases (p x)) [
  | inl e ↦ rw e (All-keep _ p xs h.0, keep-IsAscending cmp p xs h.1)
  | inr e ↦ rw e (keep-IsAscending cmp p xs h.1)
]

-- The version is named by the index and belongs to the series, if one is asked for.
abbrev pub IsInSeries : Option Text → Text → Type 0
IsInSeries none version = Unit
IsInSeries (some series) version = in_series series version ≡ true

In-of_series :
    (series : Option Text) (v : Text) (vs : List Text)
    → In v (of_series series vs) ↔ (In v vs × IsInSeries series v)
In-of_series none v vs = (λ m. (m, tt), λ h. h.0)
In-of_series (some series) v vs = In-keep (in_series series) v vs

of_series-IsAscending :
    (series : Option Text) (vs : List Text)
    → IsAscending compare_version vs
    → IsAscending compare_version (of_series series vs)
of_series-IsAscending none vs h = h
of_series-IsAscending (some series) vs h = keep-IsAscending compare_version (in_series series) vs h

newest-go : (target : Text) (o : Option Text) (v : Text) → newest target o ≡ go v → o ≡ some v
newest-go target none v h = cc
newest-go target (some w) v h = cc

module _ (iterate : List Text → List Text)
    (iterates : (vs : List Text) (v : Text) → In v (iterate vs) ↔ In v vs) (index target : Text)
    (series : Option Text) where
  abbrev pub offered : List Text
  offered = find_all (prefix_of target) 0 index

  In-candidates :
      (v : Text)
      → In v (of_series series (sorted compare_version (iterate offered)))
        ↔ (In v offered × IsInSeries series v)
  In-candidates v =
      let (to, from) = In-of_series series v (sorted compare_version (iterate offered)) in
      let (there, back) = iterates offered v in
      (
        λ m. let (a, b) = to m in (there (In-sorted compare_version v (iterate offered) a), b),
        λ h. from (sorted-In compare_version v (iterate offered) (back h.0), h.1),
      )

  -- If the order of iteration lists the members of a set and no others, the version that
  -- find_version returns is named by the index for the target, and in the series if one is given.
  pub find_version-offered :
      (v : Text)
      → find_version iterate index target series ≡ go v
      → In v offered × IsInSeries series v
  unfolding find_version
  find_version-offered v h = (In-candidates v).0 (In-last _ v (newest-go target _ v h))

  -- If the order of iteration lists the members of a set and no others, no version that the index
  -- names for the target, and that is in the series if one is given, is newer than the version that
  -- find_version returns.
  pub find_version-newest :
      (v w : Text)
      → find_version iterate index target series ≡ go v
      → In w offered
      → IsInSeries series w
      → compare_version v w ≢ Ordering.lt
  unfolding find_version
  find_version-newest v w h m s =
      let candidates = of_series series (sorted compare_version (iterate offered)) in
      All-In (λ z. compare_version v z ≢ Ordering.lt) candidates
        (last-max compare_version-IsOrder candidates v (newest-go target _ v h) (
          of_series-IsAscending series _
            (sorted-IsAscending compare_version-IsOrder (iterate offered))))
        ((In-candidates w).1 (m, s))

  -- If the order of iteration lists the members of a set and no others, find_version returns a
  -- version whenever the index names one for the target that is in the series, if one is given.
  pub find_version-found :
      (w : Text)
      → In w offered
      → IsInSeries series w
      → (v : Text) × (find_version iterate index target series ≡ go v)
  unfolding find_version
  find_version-found w m s = let (v, e) = last-some _ w ((In-candidates w).1 (m, s)) in (v, rw e)
