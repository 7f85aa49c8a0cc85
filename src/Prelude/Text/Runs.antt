-- ===== src/Prelude/Text/Runs.antt =====
-- The leading run of a text whose characters all pass a test, as the patterns of the scripts' regular
-- expressions read it.
use nix_strix_halo.Prelude.{ℕ, ◌≡◌, refl, Bool, true, false, [], ◌∷◌, ◌++◌, arith, all}
use nix_strix_halo.Prelude.Text.{Text, take_while, drop_while}

-- A run ends where the test fails.
pub take_while-run :
    (p : ℕ → Bool) (s : Text) (c : ℕ) (t : Text)
    → all p s ≡ true
    → p c ≡ false
    → take_while p (s ++ c ∷ t) ≡ s
take_while-run p [] c t h e = ground arith
take_while-run p (d ∷ s) c t h e = ground (arith, take_while-run p s c t)

pub drop_while-run :
    (p : ℕ → Bool) (s : Text) (c : ℕ) (t : Text)
    → all p s ≡ true
    → p c ≡ false
    → drop_while p (s ++ c ∷ t) ≡ c ∷ t
drop_while-run p [] c t h e = ground arith
drop_while-run p (d ∷ s) c t h e = ground (arith, drop_while-run p s c t)

pub take_while-all : (p : ℕ → Bool) (s : Text) → all p s ≡ true → take_while p s ≡ s
take_while-all p [] h = refl
take_while-all p (c ∷ s) h = ground (arith, take_while-all p s)

pub drop_while-all : (p : ℕ → Bool) (s : Text) → all p s ≡ true → drop_while p s ≡ []
drop_while-all p [] h = refl
drop_while-all p (c ∷ s) h = ground (arith, drop_while-all p s)
