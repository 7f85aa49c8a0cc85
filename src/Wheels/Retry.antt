-- ===== src/Wheels/Retry.antt =====
-- The loops of `fetch_index` and `prefetch` in update-python-wheels.py: three tries with a growing
-- pause. What a try does is a parameter, by the number of the try.
use nix_strix_halo.Prelude.{
  ℕ, zero, suc, ◌+◌, ◌*◌, ◌≡◌, ◌⊎◌, ◌↔◌, List, [], ◌∷◌, arith, if◌then◌else◌, ◌==◌,
}

-- A try returns, or raises an exception that the `except` clause catches, or another one.
pub data Attempt (A : Type 0) : Type 0 where
  returned : A → Attempt A
  caught : Attempt A
  uncaught : Attempt A

pub data Outcome (A : Type 0) : Type 0 where
  got : A → Outcome A
  system_exit : Outcome A
  raised : Outcome A

pub record Run (A : Type 0) : Type 0 where
  pub outcome : Outcome A
  pub pauses : List ℕ

module _ {A : Type 0} where
  abbrev paused : ℕ → Run A → Run A
  paused seconds run = record run { pauses = seconds ∷ run.pauses }

  -- for attempt in range(attempt, attempt + left), and the `raise SystemExit` behind the loop
  unfoldable pub try_from : ℕ → ℕ → (ℕ → Attempt A) → Run A
  try_from zero attempt call = record { outcome = system_exit; pauses = [] }
  try_from (suc left) attempt call =
      let rest = try_from left (attempt + 1) call in
      elim (call attempt) [
        | returned a ↦ record { outcome = got a; pauses = [] }
        | uncaught ↦ record { outcome = raised; pauses = [] }
        | caught ↦
            if attempt == 3
            then record { outcome = system_exit; pauses = [] }
            else paused (2 * attempt) rest
      ]

  unfoldable pub fetch_index : (ℕ → Attempt A) → Run A
  unfolding try_from
  fetch_index open_url = try_from 3 1 open_url

  unfoldable pub prefetch : (ℕ → Attempt A) → Run A
  unfolding try_from
  prefetch run_nix = try_from 3 1 run_nix

module _ {A : Type 0} (call : ℕ → Attempt A) where
  -- prefetch returns a result exactly if one of the three tries returns it and those before it
  -- raise an exception that is caught.
  pub prefetch_outcome :
      (a : A)
      → ((prefetch call).outcome ≡ got a) ↔ (
          (call 1 ≡ returned a)
          ⊎ ((call 1 ≡ caught) × (call 2 ≡ returned a))
          ⊎ ((call 1 ≡ caught) × (call 2 ≡ caught) × (call 3 ≡ returned a)))
  unfolding prefetch
  prefetch_outcome a = (λ h. ground arith, λ h. ground arith)

  -- prefetch exits exactly if all three tries raise an exception that is caught.
  pub prefetch_exit :
      ((prefetch call).outcome ≡ system_exit)
      ↔ ((call 1 ≡ caught) × (call 2 ≡ caught) × (call 3 ≡ caught))
  unfolding prefetch
  prefetch_exit = (λ h. ground arith, λ h. ground arith)
