-- ===== src/Prelude/Sort.antt =====
-- Python's stable `sorted`, as an insertion sort over a comparison.
pub mod Numbers
use Prim.Native.Nat.{Ordering}
use mathlib.Core.Path.{◌≡◌, refl, subst}
use mathlib.Core.Logic.{◌≢◌, ◌↔◌, ◌⊎◌, inl, inr}
use mathlib.Core.Bool.{Bool, true, false}
use mathlib.Core.List.Perm
use mathlib.Core.List.{List, [], ◌∷◌, Perm}
use mathlib.Core.Option.{Option, none, some}
use native.Mathlib.Omega.{arith}
use nix_strix_halo.Prelude.Tests.{if◌then◌else◌, Bool-cases}
use nix_strix_halo.Prelude.Lists.{last?, All, In, All-In}
use nix_strix_halo.Prelude.Order.{IsOrder, is_lt, flip, not_gt_trans, self}

module _ {A : Type 0} (cmp : A → A → Ordering) where
  -- `x` goes before the first element that is not less than it.
  unfoldable pub insert : A → List A → List A
  insert x [] = x ∷ []
  insert x (y ∷ ys) = if is_lt (cmp y x) then y ∷ insert x ys else x ∷ y ∷ ys

  unfoldable pub sorted : List A → List A
  unfolding insert
  sorted [] = []
  sorted (x ∷ xs) = insert x (sorted xs)

  -- No element is less than one before it.
  abbrev pub IsAscending : List A → Type 0
  IsAscending [] = Unit
  IsAscending (x ∷ xs) = All (λ y. cmp y x ≢ Ordering.lt) xs × IsAscending xs

  insert-perm : (x : A) (ys : List A) → Perm (insert x ys) (x ∷ ys)
  unfolding insert
  insert-perm x [] = Perm.rfl
  insert-perm x (y ∷ ys) =
      let moved = Perm.trans (Perm.cons y (insert-perm x ys)) (Perm.swap x y ys) in
      elim (Bool-cases (is_lt (cmp y x))) [ inl e ↦ rw e moved | inr e ↦ rw e Perm.rfl ]

  pub sorted-perm : (xs : List A) → Perm (sorted xs) xs
  unfolding sorted
  sorted-perm [] = Perm.rfl
  sorted-perm (x ∷ xs) = Perm.trans (insert-perm x (sorted xs)) (Perm.cons x (sorted-perm xs))

  pub In-insert : (a x : A) (ys : List A) → In a (insert x ys) → In a (x ∷ ys)
  unfolding insert
  In-insert a x [] m = m
  In-insert a x (y ∷ ys) m = elim (Bool-cases (is_lt (cmp y x))) [
    | inl e ↦ elim (rw e at m) [
      | inl q ↦ inr (inl q)
      | inr r ↦ elim (In-insert a x ys r) [ inl q ↦ inl q | inr s ↦ inr (inr s) ]
    ]
    | inr e ↦ rw e at m
  ]

  insert-In : (a x : A) (ys : List A) → In a (x ∷ ys) → In a (insert x ys)
  unfolding insert
  insert-In a x [] m = m
  insert-In a x (y ∷ ys) (inl q) = elim (Bool-cases (is_lt (cmp y x))) [
    | inl e ↦ rw e (inr (insert-In a x ys (inl q)))
    | inr e ↦ rw e (inl q)
  ]
  insert-In a x (y ∷ ys) (inr (inl q)) = elim (Bool-cases (is_lt (cmp y x))) [
    | inl e ↦ rw e (inl q)
    | inr e ↦ rw e (inr (inl q))
  ]
  insert-In a x (y ∷ ys) (inr (inr m)) = elim (Bool-cases (is_lt (cmp y x))) [
    | inl e ↦ rw e (inr (insert-In a x ys (inr m)))
    | inr e ↦ rw e (inr (inr m))
  ]

  pub In-sorted : (a : A) (xs : List A) → In a (sorted xs) → In a xs
  unfolding sorted
  In-sorted a [] m = m
  In-sorted a (x ∷ xs) m = elim (In-insert a x (sorted xs) m) [
    | inl q ↦ inl q
    | inr r ↦ inr (In-sorted a xs r)
  ]

  pub sorted-In : (a : A) (xs : List A) → In a xs → In a (sorted xs)
  unfolding sorted
  sorted-In a [] m = m
  sorted-In a (x ∷ xs) (inl q) = insert-In a x (sorted xs) (inl q)
  sorted-In a (x ∷ xs) (inr m) = insert-In a x (sorted xs) (inr (sorted-In a xs m))

pub In-last : {A : Type 0} (xs : List A) (m : A) → last? xs ≡ some m → In m xs
In-last [] m e = cc
In-last (x ∷ []) m e = inl (cc)
In-last (x ∷ y ∷ xs) m e = inr (In-last (y ∷ xs) m e)

module _ {A : Type 0} (P : A → Type 0) where
  All-insert :
      (cmp : A → A → Ordering) (x : A) (ys : List A) → P x → All P ys → All P (insert cmp x ys)
  unfolding insert
  All-insert cmp x [] p h = (p, tt)
  All-insert cmp x (y ∷ ys) p h = elim (Bool-cases (is_lt (cmp y x))) [
    | inl e ↦ rw e (h.0, All-insert cmp x ys p h.1)
    | inr e ↦ rw e (p, h)
  ]

  pub All-impl {ℓ} : (Q : A → Type ℓ) (xs : List A) → ((a : A) → P a → Q a) → All P xs → All Q xs
  All-impl Q [] f h = tt
  All-impl Q (x ∷ xs) f h = (f x h.0, All-impl Q xs f h.1)

  pub All-last : (xs : List A) (m : A) → last? xs ≡ some m → All P xs → P m
  All-last [] m e h = cc
  All-last (x ∷ []) m e h = subst P (cc) h.0
  All-last (x ∷ y ∷ xs) m e h = All-last (y ∷ xs) m e h.1

module _ {A : Type 0} {cmp : A → A → Ordering} (o : IsOrder cmp) where
  insert-IsAscending :
      (x : A) (ys : List A) → IsAscending cmp ys → IsAscending cmp (insert cmp x ys)
  unfolding insert
  insert-IsAscending x [] h = (tt, tt)
  insert-IsAscending x (y ∷ ys) h = elim (Bool-cases (is_lt (cmp y x))) [
    | inl e ↦
        let above : cmp x y ≢ Ordering.lt = ground (arith, o.reverse y x) in
        rw e
          (All-insert (λ z. cmp z y ≢ Ordering.lt) cmp x ys above h.0, insert-IsAscending x ys h.1)
    | inr e ↦
        let below : cmp y x ≢ Ordering.lt = ground arith in
        rw e (
          (
            below,
            All-impl (λ z. cmp z y ≢ Ordering.lt) (λ z. cmp z x ≢ Ordering.lt) ys
                (λ z k. not_gt_trans o x y z below k) h.0,
          ),
          h,
        )
  ]

  pub sorted-IsAscending : (xs : List A) → IsAscending cmp (sorted cmp xs)
  unfolding sorted
  sorted-IsAscending [] = tt
  sorted-IsAscending (x ∷ xs) = insert-IsAscending x (sorted cmp xs) (sorted-IsAscending xs)

  -- Nothing stands above the last element of an ascending list.
  pub last-max :
      (xs : List A) (m : A)
      → last? xs ≡ some m
      → IsAscending cmp xs
      → All (λ z. cmp m z ≢ Ordering.lt) xs
  last-max [] m e h = tt
  last-max (x ∷ []) m e h = let same : x ≡ m = cc in (rw (← same) (λ k. cc (self o x)), tt)
  last-max (x ∷ y ∷ xs) m e h =
      (All-last (λ z. cmp z x ≢ Ordering.lt) (y ∷ xs) m e h.0, last-max (y ∷ xs) m e h.1)

  -- `sorted(xs)[-1]` is an element of `xs`, and no element of `xs` is greater.
  pub sorted-last :
      (xs : List A) (m : A)
      → last? (sorted cmp xs) ≡ some m
      → In m xs × ((z : A) → In z xs → cmp m z ≢ Ordering.lt)
  sorted-last xs m e = (
    In-sorted cmp m xs (In-last (sorted cmp xs) m e),
    λ z h.
        All-In (λ z. cmp m z ≢ Ordering.lt) (sorted cmp xs)
          (last-max (sorted cmp xs) m e (sorted-IsAscending xs)) (sorted-In cmp z xs h),
  )

  -- `sorted(xs)[-1]` exists unless `xs` is empty.
  pub sorted-last_some : (x : A) (xs : List A) → (m : A) × (last? (sorted cmp (x ∷ xs)) ≡ some m)
  unfolding sorted
  sorted-last_some x xs = last-insert x (sorted cmp xs)
    where
      last-cons : (a : A) (l : List A) → (m : A) × (last? (a ∷ l) ≡ some m)
      last-cons a [] = (a, refl)
      last-cons a (b ∷ l) = last-cons b l

      last-insert : (x : A) (ys : List A) → (m : A) × (last? (insert cmp x ys) ≡ some m)
      last-insert x [] = (x, refl)
      last-insert x (y ∷ ys) = elim (Bool-cases (is_lt (cmp y x))) [
        | inl e ↦ rw e (last-cons y (insert cmp x ys))
        | inr e ↦ rw e (last-cons x (y ∷ ys))
      ]

  pub sorted-last_of_In :
      (xs : List A) (a : A) → In a xs → (m : A) × (last? (sorted cmp xs) ≡ some m)
  sorted-last_of_In [] a m = absurd m
  sorted-last_of_In (x ∷ xs) a m = sorted-last_some x xs

-- xs[-1] exists unless `xs` is empty.
pub last-some : {A : Type 0} (xs : List A) (a : A) → In a xs → (m : A) × (last? xs ≡ some m)
last-some [] a h = absurd h
last-some (x ∷ []) a h = (x, refl)
last-some (x ∷ y ∷ xs) a h = last-some (y ∷ xs) y (inl refl)
