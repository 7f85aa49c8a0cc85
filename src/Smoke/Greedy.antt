-- ===== src/Smoke/Greedy.antt =====
-- The reference of serve-smoke.py is the greedy continuation of the prompt.
use nix_strix_halo.Prelude.{
  ℕ, zero, suc, ◌<◌, ◌≡◌, refl, sym, ap, ◌∙◌, some, List, [], ◌∷◌, ◌++◌, arith, length, take,
  get_elem?,
}
use mathlib.Core.List.{append_assoc, append-nil}
use nix_strix_halo.Smoke.{greedy}

pub length-greedy : (next : List ℕ → ℕ) (n : ℕ) (ids : List ℕ) → length (greedy next n ids) ≡ n
unfolding greedy
length-greedy next zero ids = refl
length-greedy next (suc n) ids = ap suc (length-greedy next n (ids ++ next ids ∷ []))

-- Each token of the reference is the next one of the prompt and the tokens before it.
pub greedy-next :
    (next : List ℕ → ℕ) (n i : ℕ) (ids : List ℕ)
    → i < n
    → get_elem? (greedy next n ids) i ≡ some (next (ids ++ take i (greedy next n ids)))
unfolding greedy
greedy-next next zero i ids h = absurd (omega arith)
greedy-next next (suc n) zero ids h = ap (λ l. some (next l)) (sym (append-nil ids))
greedy-next next (suc n) (suc i) ids h =
    greedy-next next n i (ids ++ next ids ∷ []) (omega arith)
    ∙ ap (λ l. some (next l))
        (append_assoc ids (next ids ∷ []) (take i (greedy next n (ids ++ next ids ∷ []))))
