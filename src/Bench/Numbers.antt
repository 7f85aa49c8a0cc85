-- ===== src/Bench/Numbers.antt =====
-- max(abs(x - y) for x, y in zip(a, b, strict=True)) of the cache checks.
use nix_strix_halo.Prelude.{
  ◌≡◌, refl, sym, subst, true, Option, none, some, List, [], ◌∷◌, if◌then◌else◌, Bool-cases,
  Option-cases, inl, inr, All,
}
use nix_strix_halo.Bench.Script.{value_error, Script, finish, stops}
use nix_strix_halo.Bench.Server.{Float}

module _ (float : Float) where
  open float use {F, distance, lt, le, is_finite, IsNumber, zero_value}

  -- `none` is the ValueError of zip and of max.
  unfoldable pub distances : List F → List F → Option (List F)
  distances [] [] = some []
  distances [] (y ∷ ys) = none
  distances (x ∷ xs) [] = none
  distances (x ∷ xs) (y ∷ ys) = elim (distances xs ys) [
    | none ↦ none
    | some ds ↦ some (distance x y ∷ ds)
  ]

  unfoldable pub max_of : F → List F → F
  max_of m [] = m
  max_of m (x ∷ xs) = max_of (if lt m x then x else m) xs

  abbrev pub largest : List F → Option F
  largest [] = none
  largest (x ∷ xs) = some (max_of x xs)

  unfoldable pub max_distance : List F → List F → Option F
  max_distance xs ys = elim (distances xs ys) [ none ↦ none | some ds ↦ largest ds ]

  abbrev pub value_of : {S A : Type 0} → Option A → Script S A
  value_of none = stops value_error
  value_of (some a) = finish a

  -- The lists are equally long, and at each place the values are no further apart than `limit`.
  abbrev pub IsClose : F → List F → List F → Type 0
  IsClose limit [] [] = Unit
  IsClose limit [] (y ∷ ys) = ⊥
  IsClose limit (x ∷ xs) [] = ⊥
  IsClose limit (x ∷ xs) (y ∷ ys) = (le (distance x y) limit ≡ true) × IsClose limit xs ys

  max_of-cons : (m x : F) (xs : List F) → max_of m (x ∷ xs) ≡ max_of (if lt m x then x else m) xs
  unfolding max_of
  max_of-cons m x xs = refl

  max_of-nil : (m : F) → max_of m [] ≡ m
  unfolding max_of
  max_of-nil m = refl

  abbrev IsBound : F → List F → F → Type 0
  IsBound m xs r = (le m r ≡ true) × All (λ x. le x r ≡ true) xs

  max_of-IsBound : (m : F) (xs : List F) → IsNumber m → All IsNumber xs → IsBound m xs (max_of m xs)
  max_of-IsBound m [] hm h = rw (max_of-nil m) (float.le_refl m hm, tt)
  max_of-IsBound m (x ∷ xs) hm (hx, h) = elim (Bool-cases (lt m x)) [
    | inl e ↦
        let (x_le, rest) = max_of-IsBound x xs hx h in
        let same : max_of m (x ∷ xs) ≡ max_of x xs = rw (max_of-cons m x xs, e) refl in
        subst (IsBound m (x ∷ xs)) (sym same)
          (float.le_trans m x _ (float.lt_le m x e) x_le, (x_le, rest))
    | inr e ↦
        let (m_le, rest) = max_of-IsBound m xs hm h in
        let same : max_of m (x ∷ xs) ≡ max_of m xs = rw (max_of-cons m x xs, e) refl in
        subst (IsBound m (x ∷ xs)) (sym same)
          (m_le, (float.le_trans x m _ (float.le_of_not_lt m x hm hx e) m_le, rest))
  ]

  All-is_number :
      (xs ys ds : List F)
      → All (λ x. is_finite x ≡ true) xs
      → All (λ y. is_finite y ≡ true) ys
      → distances xs ys ≡ some ds
      → All IsNumber ds
  unfolding distances
  All-is_number [] [] ds fx fy e = let q : [] ≡ ds = cc in rw (← q) tt
  All-is_number [] (y ∷ ys) ds fx fy e = cc
  All-is_number (x ∷ xs) [] ds fx fy e = cc
  All-is_number (x ∷ xs) (y ∷ ys) ds (hx, fx) (hy, fy) e = elim (Option-cases (distances xs ys)) [
    | inl none_left ↦ let q = rw none_left at e in cc
    | inr (rest, found) ↦
        let q : distance x y ∷ rest ≡ ds = let r = rw found at e in cc in
        rw (← q) (float.distance_number x y hx hy, All-is_number xs ys rest fx fy found)
  ]

  IsClose-distances :
      (limit : F) (xs ys ds : List F)
      → distances xs ys ≡ some ds
      → All (λ d. le d limit ≡ true) ds
      → IsClose limit xs ys
  unfolding distances
  IsClose-distances limit [] [] ds e h = tt
  IsClose-distances limit [] (y ∷ ys) ds e h = cc
  IsClose-distances limit (x ∷ xs) [] ds e h = cc
  IsClose-distances limit (x ∷ xs) (y ∷ ys) ds e h = elim (Option-cases (distances xs ys)) [
    | inl none_left ↦ let q = rw none_left at e in cc
    | inr (rest, found) ↦
        let q : ds ≡ distance x y ∷ rest = let r = rw found at e in cc in
        let k = rw q at h in (k.0, IsClose-distances limit xs ys rest found (k.1))
  ]

  All-le_trans :
      (m limit : F) (ds : List F)
      → le m limit ≡ true
      → All (λ d. le d m ≡ true) ds
      → All (λ d. le d limit ≡ true) ds
  All-le_trans m limit [] e h = tt
  All-le_trans m limit (d ∷ ds) e (hd, h) =
      (float.le_trans d m limit hd e, All-le_trans m limit ds e h)

  pub largest-IsClose :
      (limit m : F) (xs ys ds : List F)
      → distances xs ys ≡ some ds
      → All IsNumber ds
      → largest ds ≡ some m
      → le m limit ≡ true
      → IsClose limit xs ys
  largest-IsClose limit m xs ys ds found n q h =
      IsClose-distances limit xs ys ds found (bounded ds n q)
    where
      bounded :
          (ds : List F) → All IsNumber ds → largest ds ≡ some m → All (λ d. le d limit ≡ true) ds
      bounded [] n q = tt
      bounded (d ∷ ds) (n, ns) q =
          let r : max_of d ds ≡ m = cc in
          let all_le = max_of-IsBound d ds n ns in
          All-le_trans (max_of d ds) limit (d ∷ ds) (rw r h) all_le

  -- A maximum within the limit bounds every single distance.
  pub max_distance-IsClose :
      (limit m : F) (xs ys : List F)
      → All (λ x. is_finite x ≡ true) xs
      → All (λ y. is_finite y ≡ true) ys
      → max_distance xs ys ≡ some m
      → le m limit ≡ true
      → IsClose limit xs ys
  unfolding max_distance
  max_distance-IsClose limit m xs ys fx fy e h = elim (Option-cases (distances xs ys)) [
    | inl none_left ↦ let q = rw (none_left, max_distance) at e in cc
    | inr (ds, found) ↦
        largest-IsClose limit m xs ys ds found (All-is_number xs ys ds fx fy found)
          (rw (found, max_distance) at e) h
  ]

  -- Equal lists are at distance zero.
  max_of-zeros :
      (xs ds : List F)
      → All (λ x. is_finite x ≡ true) xs
      → distances xs xs ≡ some ds
      → max_of zero_value ds ≡ zero_value
  unfolding distances max_of
  max_of-zeros [] ds h e = let q : [] ≡ ds = cc in rw (← q) refl
  max_of-zeros (x ∷ xs) ds (hx, h) e = elim (Option-cases (distances xs xs)) [
    | inl none_left ↦ let q = rw none_left at e in cc
    | inr (rest, found) ↦
        let q : distance x x ∷ rest ≡ ds = let r = rw found at e in cc in
        rw (← q, float.distance_self x hx)
          (elim (Bool-cases (lt zero_value zero_value)) [
            | inl z ↦ rw z (max_of-zeros xs rest h found)
            | inr z ↦ rw z (max_of-zeros xs rest h found)
          ])
  ]

  distances_self : (xs : List F) → (ds : List F) × (distances xs xs ≡ some ds)
  unfolding distances
  distances_self [] = ([], refl)
  distances_self (x ∷ xs) = let (ds, e) = distances_self xs in (distance x x ∷ ds, rw e refl)

  distances-cons :
      (x y : F) (xs ys ds : List F)
      → distances xs ys ≡ some ds
      → distances (x ∷ xs) (y ∷ ys) ≡ some (distance x y ∷ ds)
  unfolding distances
  distances-cons x y xs ys ds e = rw e refl

  pub max_distance_self :
      (x : F) (xs : List F)
      → All (λ x. is_finite x ≡ true) (x ∷ xs)
      → max_distance (x ∷ xs) (x ∷ xs) ≡ some zero_value
  unfolding max_distance
  max_distance_self x xs (hx, h) =
      let (ds, found) = distances_self xs in
      rw
        (
          distances-cons x x xs xs ds found,
          max_distance,
          float.distance_self x hx,
          max_of-zeros xs ds h found,
        )
        refl
