-- ===== src/Prelude/Bags.antt =====
-- Lists up to order, and functions of lists that do not see the order.
use Prim.Native.Nat.{suc}
use mathlib.Core.Path.{◌≡◌, refl, ap, ◌∙◌}
use mathlib.Core.List.{List, [], ◌∷◌, Permᴰ}
use mathlib.Core.Option.{Option, none, some}
use nix_strix_halo.Prelude.Lists.{length}

module _ {A : Type 0} where
  -- Two equal heads, and two swapped ones.
  pub perm_refl : (xs : List A) → Permᴰ xs xs
  perm_refl [] = Permᴰ.nil
  perm_refl (x ∷ xs) = Permᴰ.cons refl (perm_refl xs)

  pub perm_cons : (x : A) {xs ys : List A} → Permᴰ xs ys → Permᴰ (x ∷ xs) (x ∷ ys)
  perm_cons x p = Permᴰ.cons refl p

  pub perm_swap : (x y : A) (xs : List A) → Permᴰ (x ∷ y ∷ xs) (y ∷ x ∷ xs)
  perm_swap x y xs = Permᴰ.swap refl refl

  pub length-perm : {xs ys : List A} → Permᴰ xs ys → length xs ≡ length ys
  length-perm Permᴰ.nil = refl
  length-perm (Permᴰ.cons e p) = ap suc (length-perm p)
  length-perm (Permᴰ.swap e f) = refl
  length-perm (Permᴰ.trans p q) = length-perm p ∙ length-perm q

  -- Results of computations that may fail: both fail, or both give the same elements.
  abbrev pub SameBag : Option (List A) → Option (List A) → Type 0
  SameBag none none = Unit
  SameBag none (some ys) = ⊥
  SameBag (some xs) none = ⊥
  SameBag (some xs) (some ys) = Permᴰ xs ys

  pub SameBag-refl : (o : Option (List A)) → SameBag o o
  SameBag-refl none = tt
  SameBag-refl (some xs) = perm_refl xs

  pub SameBag-trans : (o p q : Option (List A)) → SameBag o p → SameBag p q → SameBag o q
  SameBag-trans none none none h k = tt
  SameBag-trans none none (some zs) h k = k
  SameBag-trans none (some ys) q h k = absurd h
  SameBag-trans (some xs) none q h k = absurd h
  SameBag-trans (some xs) (some ys) none h k = k
  SameBag-trans (some xs) (some ys) (some zs) h k = Permᴰ.trans h k
