-- ===== src/Stream/Aggregate/Bags.antt =====
-- The parts of a summary do not see the order of the rows.
use mathlib.Core.List.{Permᴰ}
use nix_strix_halo.Prelude.{
  ℕ, ◌+◌, ◌-◌, ◌*◌, ◌/◌, ◌%◌, ◌==◌, compare, ◌≡◌, refl, ◌∙◌, inl, inr, false, Option, none, some,
  List, [], ◌∷◌, arith, if◌then◌else◌, length, Option-cases,
}
use nix_strix_halo.Prelude.Bags.{
  perm_refl, perm_cons, perm_swap, length-perm, SameBag, SameBag-refl, SameBag-trans,
}
use nix_strix_halo.Prelude.Sort.{sorted}
use nix_strix_halo.Prelude.Sort.Numbers.{sorted-eq_of_perm}
use nix_strix_halo.Stream.Consume.{Row, Success, Failed, succeeded, failed}
use nix_strix_halo.Stream.Stats.{Ratio, plus, sum, sum_ratios, mean, mean_ratios, median, whole, at}
use nix_strix_halo.Stream.Aggregate.{
  ok_rows, bad_rows, ok, partial, all_failed, status_of, present, Part, nothing, value, fails,
  absorb, value_or_nothing, collect, ◌>>=◌,
}

ok_rows-cons :
    (r : Row) (xs ys : List Row)
    → Permᴰ (ok_rows xs) (ok_rows ys)
    → Permᴰ (ok_rows (r ∷ xs)) (ok_rows (r ∷ ys))
ok_rows-cons (succeeded s) xs ys p = perm_cons s p
ok_rows-cons (failed f) xs ys p = p

ok_rows-swap : (r q : Row) (xs : List Row) → Permᴰ (ok_rows (r ∷ q ∷ xs)) (ok_rows (q ∷ r ∷ xs))
ok_rows-swap (succeeded s) (succeeded t) xs = perm_swap s t (ok_rows xs)
ok_rows-swap (succeeded s) (failed f) xs = perm_refl (ok_rows (succeeded s ∷ xs))
ok_rows-swap (failed f) (succeeded t) xs = perm_refl (ok_rows (succeeded t ∷ xs))
ok_rows-swap (failed f) (failed g) xs = perm_refl (ok_rows xs)

pub ok_rows-perm : {xs ys : List Row} → Permᴰ xs ys → Permᴰ (ok_rows xs) (ok_rows ys)
ok_rows-perm Permᴰ.nil = Permᴰ.nil
ok_rows-perm (Permᴰ.cons {a = a} {l₁ = l} {l₂ = m} e p) =
    rw (← e) (ok_rows-cons a l m (ok_rows-perm p))
ok_rows-perm (Permᴰ.swap {a = a} {b = b} {l = l} e f) = rw (← e, ← f) (ok_rows-swap a b l)
ok_rows-perm (Permᴰ.trans p q) = Permᴰ.trans (ok_rows-perm p) (ok_rows-perm q)

bad_rows-cons :
    (r : Row) (xs ys : List Row)
    → Permᴰ (bad_rows xs) (bad_rows ys)
    → Permᴰ (bad_rows (r ∷ xs)) (bad_rows (r ∷ ys))
bad_rows-cons (succeeded s) xs ys p = p
bad_rows-cons (failed f) xs ys p = perm_cons f p

bad_rows-swap : (r q : Row) (xs : List Row) → Permᴰ (bad_rows (r ∷ q ∷ xs)) (bad_rows (q ∷ r ∷ xs))
bad_rows-swap (succeeded s) (succeeded t) xs = perm_refl (bad_rows xs)
bad_rows-swap (succeeded s) (failed f) xs = perm_refl (bad_rows (failed f ∷ xs))
bad_rows-swap (failed f) (succeeded t) xs = perm_refl (bad_rows (failed f ∷ xs))
bad_rows-swap (failed f) (failed g) xs = perm_swap f g (bad_rows xs)

pub bad_rows-perm : {xs ys : List Row} → Permᴰ xs ys → Permᴰ (bad_rows xs) (bad_rows ys)
bad_rows-perm Permᴰ.nil = Permᴰ.nil
bad_rows-perm (Permᴰ.cons {a = a} {l₁ = l} {l₂ = m} e p) =
    rw (← e) (bad_rows-cons a l m (bad_rows-perm p))
bad_rows-perm (Permᴰ.swap {a = a} {b = b} {l = l} e f) = rw (← e, ← f) (bad_rows-swap a b l)
bad_rows-perm (Permᴰ.trans p q) = Permᴰ.trans (bad_rows-perm p) (bad_rows-perm q)

-- Every row is counted once.
pub length-rows : (rows : List Row) → length (ok_rows rows) + length (bad_rows rows) ≡ length rows
length-rows [] = refl
length-rows (succeeded r ∷ rows) = omega (arith, length-rows rows)
length-rows (failed f ∷ rows) = omega (arith, length-rows rows)

pub length-bad_rows : {xs ys : List Row} → Permᴰ xs ys → length (bad_rows xs) ≡ length (bad_rows ys)
length-bad_rows {xs} {ys} p =
    omega (arith, length-rows xs, length-rows ys, length-perm p, length-perm (ok_rows-perm p))

module _ {A : Type 0} where
  absorb-cong :
      (a : Part A) (o p : Option (List A)) → SameBag o p → SameBag (absorb a o) (absorb a p)
  absorb-cong nothing o p h = h
  absorb-cong fails o p h = tt
  absorb-cong (value a) none none h = tt
  absorb-cong (value a) none (some ys) h = h
  absorb-cong (value a) (some xs) none h = h
  absorb-cong (value a) (some xs) (some ys) h = perm_cons a h

  absorb-swap :
      (a b : Part A) (o : Option (List A)) → SameBag (absorb a (absorb b o)) (absorb b (absorb a o))
  absorb-swap nothing b o = SameBag-refl (absorb b o)
  absorb-swap fails nothing o = tt
  absorb-swap fails fails o = tt
  absorb-swap fails (value b) o = tt
  absorb-swap (value a) nothing o = SameBag-refl (absorb (value a) o)
  absorb-swap (value a) fails none = tt
  absorb-swap (value a) fails (some xs) = tt
  absorb-swap (value a) (value b) none = tt
  absorb-swap (value a) (value b) (some xs) = perm_swap a b xs

  pub collect-perm :
      (part : Success → Part A) {xs ys : List Success}
      → Permᴰ xs ys
      → SameBag (collect part xs) (collect part ys)
  unfolding collect
  collect-perm part Permᴰ.nil = Permᴰ.nil
  collect-perm part (Permᴰ.cons {a = a} {l₁ = l} {l₂ = m} e p) =
      rw (← e) (absorb-cong (part a) (collect part l) (collect part m) (collect-perm part p))
  collect-perm part (Permᴰ.swap {a = a} {b = b} {l = l} e f) =
      rw (← e, ← f) (absorb-swap (part a) (part b) (collect part l))
  collect-perm part (Permᴰ.trans {l₁ = l} {l₂ = m} {l₃ = n} p q) =
      SameBag-trans (collect part l) (collect part m) (collect part n) (collect-perm part p)
        (collect-perm part q)

-- Both computations fail, or both go on with the same elements.
pub bind-SameBag {ℓ} :
    {A : Type 0} {B : Type ℓ} (o p : Option (List A)) (f g : List A → Option B)
    → SameBag o p
    → ((xs ys : List A) → Permᴰ xs ys → f xs ≡ g ys)
    → (o >>= f) ≡ (p >>= g)
bind-SameBag none none f g h k = refl
bind-SameBag none (some ys) f g h k = absurd h
bind-SameBag (some xs) none f g h k = absurd h
bind-SameBag (some xs) (some ys) f g h k = k xs ys h

present-collect :
    (field_of : Success → Option ℕ) (xs : List Success)
    → collect (λ r. value_or_nothing (field_of r)) xs ≡ some (present field_of xs)
unfolding collect
present-collect field_of [] = refl
present-collect field_of (r ∷ rows) = elim (Option-cases (field_of r)) [
  | inl e ↦ rw (e, present) (present-collect field_of rows)
  | inr (t, e) ↦ rw (e, present-collect field_of rows, present)
]

pub present-perm :
    (field_of : Success → Option ℕ) {xs ys : List Success}
    → Permᴰ xs ys
    → Permᴰ (present field_of xs) (present field_of ys)
present-perm field_of {xs} {ys} p =
    rw (present-collect field_of xs, present-collect field_of ys) at
      (collect-perm (λ r. value_or_nothing (field_of r)) p)

pub sum-perm : {xs ys : List ℕ} → Permᴰ xs ys → sum xs ≡ sum ys
sum-perm Permᴰ.nil = refl
sum-perm (Permᴰ.cons e p) = omega (arith, sum-perm p)
sum-perm (Permᴰ.swap e f) = omega arith
sum-perm (Permᴰ.trans p q) = sum-perm p ∙ sum-perm q

sum_ratios-swap : (a b : Ratio) (r : Ratio) → plus a (plus b r) ≡ plus b (plus a r)
sum_ratios-swap a b r =
    let n : (plus a (plus b r)).num ≡ (plus b (plus a r)).num = omega arith in
    let d : (plus a (plus b r)).den ≡ (plus b (plus a r)).den = omega arith in
    λ i. record { num = n i; den = d i }

sum_ratios-perm : {xs ys : List Ratio} → Permᴰ xs ys → sum_ratios xs ≡ sum_ratios ys
sum_ratios-perm Permᴰ.nil = refl
sum_ratios-perm (Permᴰ.cons e p) = cc (e, sum_ratios-perm p)
sum_ratios-perm (Permᴰ.swap {a = a} {b = b} {l = l} e f) =
    rw (← e, ← f) (sum_ratios-swap a b (sum_ratios l))
sum_ratios-perm (Permᴰ.trans p q) = sum_ratios-perm p ∙ sum_ratios-perm q

mean-by_length :
    (xs : List ℕ)
    → mean xs ≡ (if length xs == 0 then none else some (record { num = sum xs; den = length xs }))
unfolding mean
mean-by_length [] = refl
mean-by_length (x ∷ xs) = ground arith

pub mean-perm : {xs ys : List ℕ} → Permᴰ xs ys → mean xs ≡ mean ys
mean-perm {xs} {ys} p = cc (mean-by_length xs, mean-by_length ys, sum-perm p, length-perm p)

mean_ratios-by_length :
    (xs : List Ratio)
    → mean_ratios xs ≡ (
        if length xs == 0
        then none
        else some (record { num = (sum_ratios xs).num; den = (sum_ratios xs).den * length xs }))
unfolding mean_ratios
mean_ratios-by_length [] = refl
mean_ratios-by_length (x ∷ xs) = ground arith

pub mean_ratios-perm : {xs ys : List Ratio} → Permᴰ xs ys → mean_ratios xs ≡ mean_ratios ys
mean_ratios-perm {xs} {ys} p =
    rw (mean_ratios-by_length xs, mean_ratios-by_length ys, sum_ratios-perm p, length-perm p)

median-by_length :
    (xs : List ℕ)
    → median xs ≡ (
        let ordered = sorted compare xs in
        let size = length xs in
        if size == 0
        then none
        else if size % 2 == 1
        then some (whole (at ordered (size / 2)))
        else some (record { num = at ordered (size / 2 - 1) + at ordered (size / 2); den = 2 }))
unfolding median
median-by_length [] = refl
median-by_length (x ∷ xs) =
    let nonempty : (length (x ∷ xs) == 0) ≡ false = ground arith in rw nonempty

pub median-perm : {xs ys : List ℕ} → Permᴰ xs ys → median xs ≡ median ys
median-perm {xs} {ys} p =
    rw (median-by_length xs, median-by_length ys, sorted-eq_of_perm ∣ p ∣₁, length-perm p)

pub status_of-by_length :
    (good : List Success) (bad : List Failed)
    → status_of good bad
      ≡ (if length good == 0 then all_failed else if length bad == 0 then ok else partial)
unfolding status_of
status_of-by_length [] bad = refl
status_of-by_length (r ∷ good) [] = ground arith
status_of-by_length (r ∷ good) (f ∷ bad) = ground arith

pub status_of-lengths :
    (good good' : List Success) (bad bad' : List Failed)
    → length good ≡ length good'
    → length bad ≡ length bad'
    → status_of good bad ≡ status_of good' bad'
status_of-lengths good good' bad bad' e f =
    rw (status_of-by_length good bad, status_of-by_length good' bad', e, f)
