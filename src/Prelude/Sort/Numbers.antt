-- ===== src/Prelude/Sort/Numbers.antt =====
-- Numbers are sorted the same from whatever order they came in, and ascend.
use Prim.Native.Nat.{ℕ, zero, suc, ◌≤◌, ◌<◌, compare, Ordering}
use mathlib.Core.Path.{◌≡◌, refl, ◌∙◌}
use mathlib.Core.Logic.{◌≢◌, inl, inr, ∥∥₁_elim}
use mathlib.Core.List.{List, [], ◌∷◌, Perm, Permᴰ}
use mathlib.Core.Option.{some}
use native.Mathlib.Omega.{arith}
use nix_strix_halo.Prelude.Lists.{get_elem?, get_elem?-In, All, All-In, All-of, In}
use nix_strix_halo.Prelude.Sort.{insert, sorted, IsAscending, In-insert, In-sorted}
use nix_strix_halo.Prelude.Tests.{Bool-cases}
use nix_strix_halo.Prelude.Order.{is_lt}

insert_comm :
    (x y : ℕ) (zs : List ℕ)
    → insert compare x (insert compare y zs) ≡ insert compare y (insert compare x zs)
unfolding insert
insert_comm x y [] = ground arith
insert_comm x y (z ∷ zs) = ground (arith, insert_comm x y zs)

sorted_perm : {xs ys : List ℕ} → Permᴰ xs ys → sorted compare xs ≡ sorted compare ys
unfolding sorted
sorted_perm Permᴰ.nil = refl
sorted_perm (Permᴰ.cons e p) = cc (e, sorted_perm p)
sorted_perm (Permᴰ.swap {a = a} {b = b} {l = l} e f) = cc (e, f, insert_comm a b (sorted compare l))
sorted_perm (Permᴰ.trans p q) = sorted_perm p ∙ sorted_perm q

pub sorted-eq_of_perm : {xs ys : List ℕ} → Perm xs ys → sorted compare xs ≡ sorted compare ys
sorted-eq_of_perm {xs} {ys} p =
    let set : IsSet (List ℕ) = hlevel in
    ∥∥₁_elim p (set (sorted compare xs) (sorted compare ys)) sorted_perm

-- The elements of an ascending list rise with their positions.
pub get_elem?-le :
    (xs : List ℕ) (i j a b : ℕ)
    → IsAscending compare xs
    → i ≤ j
    → get_elem? xs i ≡ some a
    → get_elem? xs j ≡ some b
    → a ≤ b
get_elem?-le [] i j a b h le p q = cc
get_elem?-le (x ∷ xs) zero zero a b h le p q = ground arith
get_elem?-le (x ∷ xs) zero (suc j) a b h le p q =
    let above = All-In (λ y. compare y x ≢ Ordering.lt) xs h.0 (get_elem?-In xs j b q) in
    ground arith
get_elem?-le (x ∷ xs) (suc i) zero a b h le p q = absurd (omega arith)
get_elem?-le (x ∷ xs) (suc i) (suc j) a b h le p q = get_elem?-le xs i j a b h.1 (omega arith) p q

-- No number stands twice.
abbrev pub AreDistinct : List ℕ → Type 0
AreDistinct [] = Unit
AreDistinct (x ∷ xs) = ¬ In x xs × AreDistinct xs

-- Every number is smaller than all behind it.
abbrev pub IsRising : List ℕ → Type 0
IsRising [] = Unit
IsRising (x ∷ xs) = All (λ y. x < y) xs × IsRising xs

insert-IsRising : (x : ℕ) (ys : List ℕ) → ¬ In x ys → IsRising ys → IsRising (insert compare x ys)
unfolding insert
insert-IsRising x [] new h = (tt, tt)
insert-IsRising x (y ∷ ys) new h = elim (Bool-cases (is_lt (compare y x))) [
  | inl e ↦ rw e (
    All-of (λ z. y < z) (insert compare x ys)
        (λ z m. elim (In-insert compare z x ys m) [
          | inl same ↦ ground arith
          | inr there ↦ All-In (λ z. y < z) ys h.0 there
        ]),
    insert-IsRising x ys (λ m. new (inr m)) h.1,
  )
  | inr e ↦
      let below : x < y = let other : x ≢ y = λ same. new (inl same) in ground arith in
      rw e (
        (
          below,
          All-of (λ z. x < z) ys (λ z m. let above = All-In (λ z. y < z) ys h.0 m in omega arith),
        ),
        h,
      )
]

-- Sorting distinct numbers makes them rise.
pub sorted-IsRising : (xs : List ℕ) → AreDistinct xs → IsRising (sorted compare xs)
unfolding sorted
sorted-IsRising [] h = tt
sorted-IsRising (x ∷ xs) h =
    insert-IsRising x (sorted compare xs) (λ m. h.0 (In-sorted compare x xs m))
      (sorted-IsRising xs h.1)
