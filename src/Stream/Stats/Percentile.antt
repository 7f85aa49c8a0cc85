-- ===== src/Stream/Stats/Percentile.antt =====
-- A percentile lies between the smallest and the greatest value, and does not depend on the order
-- in which the values came in.
use nix_strix_halo.Prelude.{
  ℕ, suc, ◌+◌, ◌-◌, ◌*◌, ◌/◌, ◌%◌, ◌≤◌, ◌≡◌, refl, sym, ap, ◌∙◌, inl, inr, false, Option, none,
  some, List, [], ◌∷◌, arith, All, All-In, if◌then◌else◌, ◌==◌, length, get_elem?, get_elem?-In,
  get_elem?-some, compare, Bool-cases,
}
use mathlib.Core.Logic.{∥∥₁_elim}
use mathlib.Core.List.{Perm, Permᴰ}
use native.Mathlib.Nat.{ℕ_set}
use nix_strix_halo.Prelude.Sort.{sorted, sorted-IsAscending, In-sorted, sorted-perm}
use nix_strix_halo.Prelude.Sort.Numbers.{sorted-eq_of_perm, get_elem?-le}
use nix_strix_halo.Prelude.Order.{compare-IsOrder}
use nix_strix_halo.Stream.Stats.{Ratio, whole, interpolate, exactly, found, percentile}

rank_fits : (pct n : ℕ) → pct ≤ 100 → (pct * n + 99) / 100 ≤ n
rank_fits pct n h = grind arith

-- The value lies between `a` and `b`.
abbrev pub Within : ℕ → ℕ → Ratio → Type 0
Within a b r = (a * r.den ≤ r.num) × (r.num ≤ b * r.den)

interpolate-Within :
    (a b low high part : ℕ)
    → a ≤ low
    → low ≤ high
    → high ≤ b
    → part ≤ 100
    → Within a b (record { num = low * 100 + (high - low) * part; den = 100 })
interpolate-Within a b low high part h k l m = grind arith

length-sorted : (xs : List ℕ) → length (sorted compare xs) ≡ length xs
length-sorted xs = length_perm (sorted-perm compare xs)
  where
    length_permᴰ : {us vs : List ℕ} → Permᴰ us vs → length us ≡ length vs
    length_permᴰ Permᴰ.nil = refl
    length_permᴰ (Permᴰ.cons e p) = ap suc (length_permᴰ p)
    length_permᴰ (Permᴰ.swap e f) = refl
    length_permᴰ (Permᴰ.trans p q) = length_permᴰ p ∙ length_permᴰ q

    length_perm : {us vs : List ℕ} → Perm us vs → length us ≡ length vs
    length_perm {us} {vs} p = ∥∥₁_elim p (ℕ_set (length us) (length vs)) length_permᴰ

module _ (xs : List ℕ) (a b : ℕ) (above : All (λ x. a ≤ x) xs) (below : All (λ x. x ≤ b) xs) where
  element_within : (i v : ℕ) → get_elem? (sorted compare xs) i ≡ some v → (a ≤ v) × (v ≤ b)
  element_within i v e =
      let m = In-sorted compare v xs (get_elem?-In (sorted compare xs) i v e) in
      (All-In (λ x. a ≤ x) xs above m, All-In (λ x. x ≤ b) xs below m)

  between-Within :
      (i j low high part : ℕ)
      → i ≤ j
      → part ≤ 100
      → get_elem? (sorted compare xs) i ≡ some low
      → get_elem? (sorted compare xs) j ≡ some high
      → Within a b (record { num = low * 100 + (high - low) * part; den = 100 })
  between-Within i j low high part le small e f =
      interpolate-Within a b low high part (element_within i low e).0
        (get_elem?-le (sorted compare xs) i j low high (sorted-IsAscending compare-IsOrder xs) le e
          f)
        (element_within j high f).1 small

-- A percentile up to the hundredth of at least one value exists, and lies between any two bounds of
-- the values.
pub percentile-Within :
    (x : ℕ) (xs : List ℕ) (pct a b : ℕ)
    → pct ≤ 100
    → All (λ y. a ≤ y) (x ∷ xs)
    → All (λ y. y ≤ b) (x ∷ xs)
    → (r : Ratio) × (percentile (x ∷ xs) pct ≡ some (some r)) × Within a b r
unfolding percentile
percentile-Within x [] pct a b small above below =
    let (v, e) =
      get_elem?-some (sorted compare (x ∷ [])) 0 (omega (arith, length-sorted (x ∷ []))) in
    let (l, u) = element_within (x ∷ []) a b above below 0 v e in
    (whole v, rw e, (omega arith, omega arith))
percentile-Within x (y ∷ ys) pct a b small above below =
    let xs = x ∷ y ∷ ys in
    let ordered = sorted compare xs in
    let rank = pct * (length ordered - 1) in
    let size = length-sorted xs in
    let fits = rank_fits pct (length ordered - 1) small in
    let (low, e) = get_elem?-some ordered (rank / 100) (omega arith) in
    let (high, f) = get_elem?-some ordered ((rank + 99) / 100) (omega arith) in
    elim (Bool-cases (rank / 100 == (rank + 99) / 100)) [
      | inl t ↦
          let (l, u) = element_within xs a b above below (rank / 100) low e in
          (whole low, rw (t, e), (omega arith, omega arith))
      | inr n ↦ (
        record { num = low * 100 + (high - low) * (rank % 100); den = 100 },
        rw (n, e, f),
        between-Within xs a b above below (rank / 100) ((rank + 99) / 100) low high (rank % 100)
            (omega arith) (omega arith) e f,
      )
    ]

-- What the function computes from the sorted values.
abbrev of_ordered : List ℕ → ℕ → Option (Option Ratio)
of_ordered ordered pct =
    let rank = pct * (length ordered - 1) in
    let lo = rank / 100 in
    let hi = (rank + 99) / 100 in
    if length ordered == 0
    then some none
    else if lo == hi
    then found (exactly (get_elem? ordered lo))
    else found (interpolate (get_elem? ordered lo) (get_elem? ordered hi) (rank % 100))

percentile-of_ordered :
    (xs : List ℕ) (pct : ℕ) → percentile xs pct ≡ of_ordered (sorted compare xs) pct
unfolding percentile
percentile-of_ordered [] pct = rw (length-sorted [])
percentile-of_ordered (x ∷ []) pct = rw (length-sorted (x ∷ [])) (ground arith)
percentile-of_ordered (x ∷ y ∷ ys) pct =
    let some_values : (length (x ∷ y ∷ ys) == 0) ≡ false = ground arith in
    rw (length-sorted (x ∷ y ∷ ys), some_values)

-- A percentile does not depend on the order of the values.
pub percentile-perm :
    {xs ys : List ℕ} (pct : ℕ) → Perm xs ys → percentile xs pct ≡ percentile ys pct
percentile-perm {xs} {ys} pct p =
    percentile-of_ordered xs pct
    ∙ (ap (λ o. of_ordered o pct) (sorted-eq_of_perm p) ∙ sym (percentile-of_ordered ys pct))
