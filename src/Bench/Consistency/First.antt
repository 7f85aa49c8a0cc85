-- ===== src/Bench/Consistency/First.antt =====
-- The differences that glm53-consistency.py looks for between the decoded tokens and the first choices
-- of the prefill.
use nix_strix_halo.Prelude.{
  ℕ, ◌+◌, ◌≡◌, refl, Option, none, some, List, [], ◌∷◌, ◌==◌, ==_iff, Bool-cases, inl, inr,
}
use nix_strix_halo.Bench.Server.{Float}
use nix_strix_halo.Bench.Consistency.{
  Item, Scorer, Difference, difference_at, with_difference, differences,
}

-- At every position the first choice of the prefill is the decoded token.
abbrev pub AreFirst : {F : Type 0} → List ℕ → List (List (Item F)) → Type 0
AreFirst [] [] = Unit
AreFirst [] (cs ∷ top) = ⊥
AreFirst (t ∷ ts) [] = ⊥
AreFirst (t ∷ ts) ([] ∷ top) = ⊥
AreFirst (t ∷ ts) ((c ∷ cs) ∷ top) = (c.token ≡ t) × AreFirst ts top

module _ (float : Float) (scorer : Scorer float.F) where
  open float use {F}

  with_difference-nil :
      (o : Option (Option (Difference F))) (rest : Option (List (Difference F)))
      → with_difference float scorer o rest ≡ some []
      → (o ≡ some none) × (rest ≡ some [])
  with_difference-nil none rest h = cc
  with_difference-nil (some none) none h = cc
  with_difference-nil (some (some d)) none h = cc
  with_difference-nil (some none) (some []) h = (refl, refl)
  with_difference-nil (some none) (some (d ∷ ds)) h = cc
  with_difference-nil (some (some d)) (some ds) h = cc

  pub differences-AreFirst :
      (i : ℕ) (ts : List ℕ) (top : List (List (Item F)))
      → differences float scorer i ts top ≡ some []
      → AreFirst ts top
  unfolding differences
  differences-AreFirst i [] [] h = tt
  differences-AreFirst i [] (cs ∷ top) h = cc
  differences-AreFirst i (t ∷ ts) [] h = cc
  differences-AreFirst i (t ∷ ts) ([] ∷ top) h = cc
  differences-AreFirst i (t ∷ ts) ((c ∷ []) ∷ top) h =
      let (same, rest) =
        with_difference-nil (difference_at float scorer i t (c ∷ []))
          (differences float scorer (i + 1) ts top) h in
      elim (Bool-cases (c.token == t)) [
        | inl e ↦ ((==_iff _ _).0 e, differences-AreFirst (i + 1) ts top rest)
        | inr e ↦ let q = rw e at same in cc
      ]
  differences-AreFirst i (t ∷ ts) ((c ∷ d ∷ cs) ∷ top) h =
      let (same, rest) =
        with_difference-nil (difference_at float scorer i t (c ∷ d ∷ cs))
          (differences float scorer (i + 1) ts top) h in
      elim (Bool-cases (c.token == t)) [
        | inl e ↦ ((==_iff _ _).0 e, differences-AreFirst (i + 1) ts top rest)
        | inr e ↦ let q = rw e at same in cc
      ]
