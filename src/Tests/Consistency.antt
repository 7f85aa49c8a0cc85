-- ===== src/Tests/Consistency.antt =====
-- A server that prefills as it decodes.
use nix_strix_halo.Prelude.{ℕ, zero, suc, ◌+◌, ◌-◌, ◌≡◌, refl, true, some, List, [], ◌∷◌, map, All}
use nix_strix_halo.Bench.Script.{gives}
use nix_strix_halo.Bench.Numbers.{distances, max_of}
use nix_strix_halo.Bench.Consistency.{Item, Scorer, Limits, prompts, main}
use nix_strix_halo.Bench.Consistency.Verdict.{IsConsistent, main-IsConsistent}
use nix_strix_halo.Tests.CacheChecks.{units}

abbrev item : ℕ → Item ℕ
item t = record { logprob = 7; token = t }

abbrev items : ℕ → ℕ → List (Item ℕ)
items zero t = []
items (suc n) t = item t ∷ items n t

abbrev scorer : Scorer ℕ
scorer = record {
  State = Unit {0};
  flush = λ s. (true, s);
  decode = λ prompt n s. (
    some (record {
      input_items = items 1_025 3;
      output_items = items n 5;
      prompt_tokens = 1_025;
      cached_tokens = 0;
    }),
    s,
  );
  score = λ ids s. (
    some (record {
      input_items = map item ids;
      top_items = map (λ t. item t ∷ item (t + 1) ∷ []) ids;
      cached_tokens = 0;
    }),
    s,
  );
  mean = λ deltas. 0;
  minus = λ a b. a - b;
}

abbrev limits : Limits ℕ
limits = record { tokens = 4; max_limit = 0; mean_limit = 0 }

main_test : main units scorer limits tt ≡ gives 0 tt
unfolding main distances max_of
main_test = refl

main-IsConsistent_example : All (IsConsistent units scorer limits) prompts
main-IsConsistent_example = main-IsConsistent units scorer limits tt tt main_test
