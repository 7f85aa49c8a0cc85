-- ===== src/Prelude/Order.antt =====
-- Three-way comparisons with their laws, combined the way Python compares tuples and lists.
use Prim.Native.Nat.{compare, Ordering}
use mathlib.Core.Path.{◌≡◌, refl}
use mathlib.Core.Logic.{◌≢◌}
use mathlib.Core.List.{List, [], ◌∷◌}
use mathlib.Core.Bool.{Bool, true, false}
use native.Mathlib.Omega.{arith}

abbrev pub flip : Ordering → Ordering
flip Ordering.lt = Ordering.gt
flip Ordering.eq = Ordering.eq
flip Ordering.gt = Ordering.lt

abbrev pub and_then : Ordering → Ordering → Ordering
and_then Ordering.eq o = o
and_then Ordering.lt o = Ordering.lt
and_then Ordering.gt o = Ordering.gt

abbrev pub is_lt : Ordering → Bool
is_lt Ordering.lt = true
is_lt _ = false

-- A total preorder, given by its comparison.
pub record IsOrder {ℓ} {A : Type ℓ} (cmp : A → A → Ordering) : Type ℓ where
  pub reverse : (a b : A) → cmp b a ≡ flip (cmp a b)
  pub tie : (a b c : A) → cmp a b ≡ Ordering.eq → cmp a c ≡ cmp b c
  pub lt_trans : (a b c : A) → cmp a b ≡ Ordering.lt → cmp b c ≡ Ordering.lt → cmp a c ≡ Ordering.lt

pub compare-IsOrder : IsOrder compare
compare-IsOrder = record {
  reverse = λ a b. ground arith;
  tie = λ a b c h. ground arith;
  lt_trans = λ a b c h k. ground arith;
}

-- Python's order on tuples and lists: the first difference decides, and a proper prefix is less.
unfoldable pub lex {ℓ} : {A : Type ℓ} → (A → A → Ordering) → List A → List A → Ordering
lex cmp [] [] = Ordering.eq
lex cmp [] (y ∷ ys) = Ordering.lt
lex cmp (x ∷ xs) [] = Ordering.gt
lex cmp (x ∷ xs) (y ∷ ys) = and_then (cmp x y) (lex cmp xs ys)

module _ {ℓ} {A : Type ℓ} {cmp : A → A → Ordering} (o : IsOrder cmp) where
  pub self : (a : A) → cmp a a ≡ Ordering.eq
  self a = ground (arith, o.reverse a a)

  pub tie_right : (a b c : A) → cmp b c ≡ Ordering.eq → cmp a b ≡ cmp a c
  tie_right a b c h = ground (arith, o.tie b c a h, o.reverse a b, o.reverse a c)

  -- `not (b < a)` and `not (c < b)` give `not (c < a)`.
  pub not_gt_trans :
      (a b c : A) → cmp b a ≢ Ordering.lt → cmp c b ≢ Ordering.lt → cmp c a ≢ Ordering.lt
  not_gt_trans a b c h k e = ground (
    arith,
    o.reverse a b,
    o.reverse b c,
    o.reverse a c,
    o.tie a b c,
    tie_right a b c,
    o.lt_trans a b c,
  )

  -- One step of the lexicographic order, with the rests compared before.
  step_trans :
      (x y z : A) (p q r : Ordering)
      → (p ≡ Ordering.lt → q ≡ Ordering.lt → r ≡ Ordering.lt)
      → and_then (cmp x y) p ≡ Ordering.lt
      → and_then (cmp y z) q ≡ Ordering.lt
      → and_then (cmp x z) r ≡ Ordering.lt
  step_trans x y z p q r rest h k = ground (arith, o.tie x y z, tie_right x y z, o.lt_trans x y z)

  lex_reverse : (xs ys : List A) → lex cmp ys xs ≡ flip (lex cmp xs ys)
  unfolding lex
  lex_reverse [] [] = refl
  lex_reverse [] (y ∷ ys) = refl
  lex_reverse (x ∷ xs) [] = refl
  lex_reverse (x ∷ xs) (y ∷ ys) = ground (arith, o.reverse x y, lex_reverse xs ys)

  lex_tie : (xs ys zs : List A) → lex cmp xs ys ≡ Ordering.eq → lex cmp xs zs ≡ lex cmp ys zs
  unfolding lex
  lex_tie [] [] zs h = refl
  lex_tie [] (y ∷ ys) zs h = cc
  lex_tie (x ∷ xs) [] zs h = cc
  lex_tie (x ∷ xs) (y ∷ ys) [] h = refl
  lex_tie (x ∷ xs) (y ∷ ys) (z ∷ zs) h = ground (arith, o.tie x y z, lex_tie xs ys zs)

  lex_trans :
      (xs ys zs : List A)
      → lex cmp xs ys ≡ Ordering.lt
      → lex cmp ys zs ≡ Ordering.lt
      → lex cmp xs zs ≡ Ordering.lt
  unfolding lex
  lex_trans [] [] zs h k = cc
  lex_trans [] (y ∷ ys) [] h k = cc
  lex_trans [] (y ∷ ys) (z ∷ zs) h k = refl
  lex_trans (x ∷ xs) [] zs h k = cc
  lex_trans (x ∷ xs) (y ∷ ys) [] h k = cc
  lex_trans (x ∷ xs) (y ∷ ys) (z ∷ zs) h k = step_trans x y z _ _ _ (lex_trans xs ys zs) h k

  pub lex-IsOrder : IsOrder (lex cmp)
  lex-IsOrder = record { reverse = lex_reverse; tie = lex_tie; lt_trans = lex_trans }

-- Sorting by a key.
pub by_key-IsOrder {ℓ κ} :
    {A : Type ℓ} {B : Type κ} {cmp : B → B → Ordering} (o : IsOrder cmp) (key : A → B)
    → IsOrder (λ (a b : A). cmp (key a) (key b))
by_key-IsOrder o key = record {
  reverse = λ a b. o.reverse (key a) (key b);
  tie = λ a b c. o.tie (key a) (key b) (key c);
  lt_trans = λ a b c. o.lt_trans (key a) (key b) (key c);
}

-- Two keys, the first one deciding first.
pub pair-IsOrder {ℓ} :
    {A : Type ℓ} {first second : A → A → Ordering}
    → IsOrder first
    → IsOrder second
    → IsOrder (λ (a b : A). and_then (first a b) (second a b))
pair-IsOrder o p = record {
  reverse = λ a b. ground (arith, o.reverse a b, p.reverse a b);
  tie = λ a b c h. ground (arith, o.tie a b c, p.tie a b c);
  lt_trans = λ a b c h k.
      ground (arith, o.tie a b c, tie_right o a b c, o.lt_trans a b c, p.lt_trans a b c);
}
