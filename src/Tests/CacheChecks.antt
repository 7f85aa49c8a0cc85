-- ===== src/Tests/CacheChecks.antt =====
-- A server with a prefix cache, on which the checks of lib/bench run.
use nix_strix_halo.Prelude.{
  ℕ, zero, suc, ◌+◌, ◌-◌, ◌<◌, ◌≡◌, refl, Bool, true, false, some, List, [], ◌∷◌, arith,
  if◌then◌else◌, leb, ltb, All, length,
}
use nix_strix_halo.Bench.Script.{gives}
use nix_strix_halo.Bench.Server.{Float, Server, IsFirstUp, polled, is_up_at}
use nix_strix_halo.Bench.Boundaries.{Boundary, lengths_of, original, run}
use nix_strix_halo.Bench.Boundaries.Agreement.{IsAgreed, run-IsAgreed}
use nix_strix_halo.Bench.Boundaries.Complete.{IsPrefixCache, IsInRange, AreCleared, run-AreCleared}

pub leb_trans : (a b c : ℕ) → leb a b ≡ true → leb b c ≡ true → leb a c ≡ true
leb_trans a b c p q = ground arith

pub leb_refl : (a : ℕ) → leb a a ≡ true
leb_refl a = ground arith

pub leb_of_ltb : (a b : ℕ) → ltb a b ≡ true → leb a b ≡ true
leb_of_ltb a b h = ground arith

pub leb_of_not_ltb : (a b : ℕ) → ltb a b ≡ false → leb b a ≡ true
leb_of_not_ltb a b h = ground arith

pub gap_self : (a : ℕ) → (a - a) + (a - a) ≡ 0
gap_self a = omega arith

-- Logprobs in steps of one unit.
abbrev pub units : Float
units = record {
  F = ℕ;
  distance = λ a b. (a - b) + (b - a);
  lt = ltb;
  le = leb;
  is_finite = λ a. true;
  zero_value = 0;
  IsNumber = λ a. Unit;
  le_trans = leb_trans;
  le_of_not_lt = λ a b p q h. leb_of_not_ltb a b h;
  le_refl = λ a p. leb_refl a;
  lt_le = leb_of_ltb;
  distance_number = λ a b p q. tt;
  distance_self = λ a p. gap_self a;
  finite_number = λ a h. tt;
  zero_number = tt;
}

abbrev pub repeat : ℕ → ℕ → List ℕ
repeat zero a = []
repeat (suc n) a = a ∷ repeat n a

-- The state counts the polls that are left until the server is up, and tells whether a prompt is cached.
pub record Node : Type 0 where
  pub polls : ℕ
  pub is_warm : Bool

abbrev pub hit : Node → List ℕ → ℕ
hit s ids = if s.is_warm then 2_048 else 0

abbrev pub node : Server ℕ
node = record {
  State = Node;
  health = λ s. (leb s.polls 0, record s { polls = s.polls - 1 });
  flush = λ s. (true, record s { is_warm = false });
  generate = λ ids n s. (
    some (record { logprobs = repeat n 7; output_ids = repeat n 5; cached_tokens = hit s ids }),
    record s { is_warm = true },
  );
}

finite-repeat : (n : ℕ) → All (λ (x : ℕ). ◌≡◌ {A = Bool} true true) (repeat n 7)
finite-repeat zero = tt
finite-repeat (suc n) = (refl, finite-repeat n)

length-repeat : (n a : ℕ) → length (repeat n a) ≡ n
length-repeat zero a = refl
length-repeat (suc n) a = omega (arith, length-repeat n a)

node-IsPrefixCache : IsPrefixCache units node
node-IsPrefixCache = record {
  score = λ ids n. repeat n 7;
  answer = λ ids n. repeat n 5;
  hit = hit;
  flushes = λ s. refl;
  forgets = λ s ids. refl;
  answers = λ s ids n. refl;
  reuses = λ s ids later n same long longer. omega arith;
  finite = λ ids n. finite-repeat n;
  one_each = λ ids n. length-repeat n 7;
}

abbrev pub booting : Node
booting = record { polls = 2; is_warm = false }

up_third : IsFirstUp node 2 booting
unfolding is_up_at polled
up_third = (early, refl)
  where
    early : (i : ℕ) → i < 2 → is_up_at node i booting ≡ false
    early zero h = refl
    early (suc zero) h = refl
    early (suc (suc i)) h = absurd (omega arith)

abbrev two_prefixes : List ℕ
two_prefixes = 64 ∷ 1_025 ∷ []

in_range : All (IsInRange units node) (lengths_of two_prefixes)
unfolding lengths_of original
in_range = (refl, (refl, tt))

run-AreCleared_example :
    (xs : List (Boundary ℕ)) × (t : Node) × (run units node 0 two_prefixes booting ≡ gives xs t)
    × AreCleared units node node-IsPrefixCache (lengths_of two_prefixes) xs
run-AreCleared_example =
    run-AreCleared units node node-IsPrefixCache 0 two_prefixes booting 2 refl refl in_range
      (omega arith) up_third

cleared :
    (xs : List (Boundary ℕ)) × (t : Node) × (run units node 0 two_prefixes booting ≡ gives xs t)
    × AreCleared units node node-IsPrefixCache (lengths_of two_prefixes) xs
cleared =
    run-AreCleared units node node-IsPrefixCache 0 two_prefixes booting 2 refl refl in_range
      (omega arith) up_third

run-IsAgreed_example : All (IsAgreed units node 0) (lengths_of two_prefixes)
run-IsAgreed_example =
    run-IsAgreed units node 0 two_prefixes booting (cleared.0) (cleared.1) (cleared.2)
