-- ===== src/Bench/Script.antt =====
-- What the checks of lib/bench have in common: they act on a server that keeps a state of its own,
-- and the first failed request, timeout or `assert` ends them.
use nix_strix_halo.Prelude.{◌≡◌, refl, ap, Bool, true, false}

pub data Stop : Type 0 where
  request_failed : Stop
  unhealthy : Stop
  assertion_failed : Stop
  value_error : Stop
  out_of_fuel : Stop

-- The server's state is kept also when the script stops.
pub data Outcome (S A : Type 0) : Type 0 where
  gives : A → S → Outcome S A
  stops : Stop → S → Outcome S A

abbrev pub Script : Type 0 → Type 0 → Type 0
Script S A = S → Outcome S A

module _ {S : Type 0} where
  abbrev pub followed : {A B : Type 0} → Outcome S A → (A → Script S B) → Outcome S B
  followed (stops why s) next = stops why s
  followed (gives a s) next = next a s

  infixl 5 ◌>>=◌ ◌>>◌
  abbrev pub ◌>>=◌ : {A B : Type 0} → Script S A → (A → Script S B) → Script S B
  first >>= next = λ s. followed (first s) next

  abbrev pub ◌>>◌ : {A B : Type 0} → Script S A → Script S B → Script S B
  first >> next = λ s. followed (first s) (λ _. next)

  abbrev pub finish : {A : Type 0} → A → Script S A
  finish a = gives a

  -- assert test
  abbrev pub check : Bool → Script S (Unit {0})
  check true = gives tt
  check false = stops assertion_failed

  -- What a script that went through did first.
  pub followed-gives :
      {A B : Type 0} (o : Outcome S A) (next : A → Script S B) {b : B} {t : S}
      → followed o next ≡ gives b t
      → (a : A) × (u : S) × (o ≡ gives a u) × (next a u ≡ gives b t)
  followed-gives (gives a u) next h = (a, u, refl, h)
  followed-gives (stops why u) next h = cc

  pub check-gives :
      {s t : S} {u : Unit {0}} (b : Bool) → check b s ≡ gives u t → (b ≡ true) × (s ≡ t)
  check-gives true h = (refl, cc)
  check-gives false h = cc

  pub followed-next :
      {A B : Type 0} {o : Outcome S A} (next : A → Script S B) {a : A} {u : S}
      → o ≡ gives a u
      → followed o next ≡ next a u
  followed-next next e = ap (λ p. followed p next) e

  pub check-true : {b : Bool} (s : S) → b ≡ true → check b s ≡ gives tt s
  check-true s e = rw e refl

  -- An assertion that held changed nothing.
  pub followed-check :
      {B : Type 0} (b : Bool) (s : S) (next : Unit {0} → Script S B) {a : B} {t : S}
      → followed (check b s) next ≡ gives a t
      → (b ≡ true) × (next tt s ≡ gives a t)
  followed-check true s next h = (refl, h)
  followed-check false s next h = cc

  pub gives-value : {A : Type 0} {a b : A} {s t : S} → gives a s ≡ gives b t → a ≡ b
  gives-value h = cc

  pub gives-state : {A : Type 0} {a b : A} {s t : S} → gives a s ≡ gives b t → s ≡ t
  gives-state h = cc
