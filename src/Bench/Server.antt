-- ===== src/Bench/Server.antt =====
-- The server and its numbers as interfaces, and the wait for it at the start of
-- glm53-cache-boundaries.py and glm53-cache-branches.py.
use nix_strix_halo.Prelude.{
  ℕ, zero, suc, ◌<◌, ◌≡◌, refl, Bool, true, false, Option, none, some, List, arith, if◌then◌else◌,
}
use nix_strix_halo.Bench.Script.{request_failed, unhealthy, Outcome, gives, stops, Script}

-- Floating-point numbers. `is_number` says that a value is not NaN.
pub record Float : Type 1 where
  pub F : Type 0
  -- abs(a - b), a < b, a <= b and math.isfinite(a)
  pub distance : F → F → F
  pub lt : F → F → Bool
  pub le : F → F → Bool
  pub is_finite : F → Bool
  pub zero_value : F
  pub IsNumber : F → Type 0
  pub le_trans : (a b c : F) → le a b ≡ true → le b c ≡ true → le a c ≡ true
  pub le_of_not_lt : (a b : F) → IsNumber a → IsNumber b → lt a b ≡ false → le b a ≡ true
  pub le_refl : (a : F) → IsNumber a → le a a ≡ true
  pub lt_le : (a b : F) → lt a b ≡ true → le a b ≡ true
  pub distance_number :
      (a b : F) → is_finite a ≡ true → is_finite b ≡ true → IsNumber (distance a b)
  pub distance_self : (a : F) → is_finite a ≡ true → distance a a ≡ zero_value
  pub finite_number : (a : F) → is_finite a ≡ true → IsNumber a
  pub zero_number : IsNumber zero_value

-- The fields of an answer of `/generate` that the checks read: `[v[0] for v in
-- meta_info["output_token_logprobs"]]`, `output_ids` and `meta_info["cached_tokens"]`.
pub record Generated (F : Type 0) : Type 0 where
  pub logprobs : List F
  pub output_ids : List ℕ
  pub cached_tokens : ℕ

-- A request either raises (`false`, `none`) or is answered; both may change the server.
pub record Server (F : Type 0) : Type 1 where
  pub State : Type 0
  pub health : State → Bool × State
  pub flush : State → Bool × State
  pub generate : List ℕ → ℕ → State → Option (Generated F) × State

abbrev pub flushed : {S : Type 0} → Bool × S → Outcome S (Unit {0})
flushed (true, s) = gives tt s
flushed (false, s) = stops request_failed s

abbrev pub answered : {S A : Type 0} → Option A × S → Outcome S A
answered (some a, s) = gives a s
answered (none, s) = stops request_failed s

pub answered-gives :
    {S A : Type 0} (p : Option A × S) {a : A} {t : S} → answered p ≡ gives a t → p ≡ (some a, t)
answered-gives (some a, s) h = cc
answered-gives (none, s) h = cc

pub flushed-gives :
    {S : Type 0} (p : Bool × S) {u : Unit {0}} {t : S} → flushed p ≡ gives u t → p ≡ (true, t)
flushed-gives (true, s) h = cc
flushed-gives (false, s) h = cc

pub answered-some :
    {S A : Type 0} (p : Option A × S) {a : A} → p.0 ≡ some a → answered p ≡ gives a p.1
answered-some (some a, s) h = cc
answered-some (none, s) h = cc

pub flushed-true : {S : Type 0} (p : Bool × S) → p.0 ≡ true → flushed p ≡ gives tt p.1
flushed-true (true, s) h = refl
flushed-true (false, s) h = cc

module _ {F : Type 0} (server : Server F) where
  open server use {State, health}

  -- req("/flush_cache")
  abbrev pub flush_cache : Script State (Unit {0})
  flush_cache = λ s. flushed (server.flush s)

  -- generate(ids, tokens)
  abbrev pub generate : List ℕ → ℕ → Script State (Generated F)
  generate ids tokens = λ s. answered (server.generate ids tokens s)

  -- for _ in range(n): try: req("/health"); break / except: sleep / else: raise
  unfoldable pub wait_healthy : ℕ → Script State (Unit {0})
  wait_healthy zero s = stops unhealthy s
  wait_healthy (suc n) s =
      let again = wait_healthy n (health s).1 in
      if (health s).0 then gives tt (health s).1 else again

  -- The server after n polls of its health, and whether the next poll finds it up.
  unfoldable pub polled : ℕ → State → State
  polled zero s = s
  polled (suc n) s = polled n (health s).1

  unfoldable pub is_up_at : ℕ → State → Bool
  unfolding polled
  is_up_at n s = (health (polled n s)).0

  abbrev pub IsFirstUp : ℕ → State → Type 0
  IsFirstUp k s = ((i : ℕ) → i < k → is_up_at i s ≡ false) × (is_up_at k s ≡ true)

  -- If the server is first found up at a poll within the number of tries, the wait ends well right
  -- after that poll.
  pub wait_healthy-IsFirstUp :
      (n k : ℕ) (s : State) → k < n → IsFirstUp k s → wait_healthy n s ≡ gives tt (polled (suc k) s)
  unfolding wait_healthy is_up_at polled
  wait_healthy-IsFirstUp zero k s h up = absurd (omega arith)
  wait_healthy-IsFirstUp (suc n) zero s h (early, up) = rw up refl
  wait_healthy-IsFirstUp (suc n) (suc k) s h (early, up) = rw (early zero (omega arith)) (
      wait_healthy-IsFirstUp n k (health s).1 (omega arith)
        ((λ i l. early (suc i) (omega arith)), up))

  pub wait_healthy-unhealthy :
      (n : ℕ) (s : State)
      → ((i : ℕ) → i < n → is_up_at i s ≡ false)
      → wait_healthy n s ≡ stops unhealthy (polled n s)
  unfolding wait_healthy is_up_at polled
  wait_healthy-unhealthy zero s early = refl
  wait_healthy-unhealthy (suc n) s early =
      rw (early zero (omega arith))
        (wait_healthy-unhealthy n (health s).1 (λ i l. early (suc i) (omega arith)))
