-- ===== src/Bench/Consistency.antt =====
-- lib/bench/glm53-consistency.py: the log-probabilities of decoding against those of a prefill that
-- is forced to the same tokens. The printed lines are the reports of the prompts.
pub mod First
pub mod Verdict
use nix_strix_halo.Prelude.{
  ℕ, zero, suc, ◌+◌, Bool, true, false, ◌&&◌, ◌||◌, not, Option, none, some, List, [], ◌∷◌, ◌++◌,
  map, if◌then◌else◌, ltb, ◌==◌, length, drop, all,
}
use nix_strix_halo.Prelude.Text.{Text, codes, text_eq}
use nix_strix_halo.Bench.Script.{Script, ◌>>=◌, ◌>>◌, check, finish}
use nix_strix_halo.Bench.Server.{Float, answered, flushed}
use nix_strix_halo.Bench.Numbers.{distances, largest, value_of}

-- An item of the lists of log-probabilities.
pub record Item (F : Type 0) : Type 0 where
  pub logprob : F
  pub token : ℕ

-- What is read of the two answers; `cached_tokens` is 0 where the key is missing.
pub record Decoded (F : Type 0) : Type 0 where
  pub input_items : List (Item F)
  pub output_items : List (Item F)
  pub prompt_tokens : ℕ
  pub cached_tokens : ℕ

pub record Scored (F : Type 0) : Type 0 where
  pub input_items : List (Item F)
  pub top_items : List (List (Item F))
  pub cached_tokens : ℕ

pub record Scorer (F : Type 0) : Type 1 where
  pub State : Type 0
  pub flush : State → Bool × State
  pub decode : Text → ℕ → State → Option (Decoded F) × State
  pub score : List ℕ → State → Option (Scored F) × State
  -- sum(deltas) / len(deltas), and a - b
  pub mean : List F → F
  pub minus : F → F → F

pub record Difference (F : Type 0) : Type 0 where
  pub position : ℕ
  pub decoded_id : ℕ
  pub prefill_id : ℕ
  pub prefill_margin : F

pub record Report (F : Type 0) : Type 0 where
  pub input_tokens : ℕ
  pub output_tokens : ℕ
  pub maximum : F
  pub mean_delta : F
  pub argmax_differences : List (Difference F)
  pub passed : Bool

-- args.tokens, args.max_logprob_delta and args.mean_logprob_delta
pub record Limits (F : Type 0) : Type 0 where
  pub tokens : ℕ
  pub max_limit : F
  pub mean_limit : F

abbrev pub repeated : ℕ → Text → Text
repeated zero t = []
repeated (suc n) t = t ++ repeated n t

unfoldable pub prompts : List Text
prompts =
    codes "def fibonacci(n):\n    \"\"\"Return the nth Fibonacci number.\"\"\"\n"
    ∷ (codes "Review this configuration history.\n"
        ++ (repeated 128
              (codes "The build uses Nix, Python, and ROCm. Tests must pass before release.\n")
            ++ codes "Write a short Python function that returns whether an integer is even:\n"))
    ∷ []

abbrev pub is_empty : {A : Type 0} → List A → Bool
is_empty [] = true
is_empty (x ∷ xs) = false

module _ (float : Float) (scorer : Scorer float.F) where
  open float use {F, le, is_finite}
  open scorer use {State}

  abbrev pub tokens_of : List (Item F) → List ℕ
  tokens_of = map (λ i. i.token)

  abbrev pub logprobs_of : List (Item F) → List F
  logprobs_of = map (λ i. i.logprob)

  -- The difference at a position, if the first choice of the prefill is another token; `none` is an
  -- IndexError.
  abbrev pub difference_at : ℕ → ℕ → List (Item F) → Option (Option (Difference F))
  difference_at i token [] = none
  difference_at i token (c ∷ []) = if c.token == token then some none else none
  difference_at i token (c ∷ d ∷ cs) =
      if c.token == token
      then some none
      else some (
          some (record {
            position = i;
            decoded_id = token;
            prefill_id = c.token;
            prefill_margin = scorer.minus c.logprob d.logprob;
          }))

  abbrev pub with_difference :
      Option (Option (Difference F)) → Option (List (Difference F)) → Option (List (Difference F))
  with_difference none rest = none
  with_difference (some o) none = none
  with_difference (some none) (some ds) = some ds
  with_difference (some (some d)) (some ds) = some (d ∷ ds)

  -- The comprehension over enumerate(zip(output_ids, top, strict=True)).
  unfoldable pub differences : ℕ → List ℕ → List (List (Item F)) → Option (List (Difference F))
  differences i [] [] = some []
  differences i [] (cs ∷ top) = none
  differences i (t ∷ ts) [] = none
  differences i (t ∷ ts) (cs ∷ top) =
      with_difference (difference_at i t cs) (differences (i + 1) ts top)

  abbrev pub is_passed : Limits F → F → F → List (Difference F) → Bool
  is_passed limits maximum mean ds =
      le maximum limits.max_limit && le mean limits.mean_limit && is_empty ds

  -- The part of a round behind the two answers.
  unfoldable pub compared : Limits F → Decoded F → Scored F → Script State (Report F)
  unfolding differences
  compared limits g s = do
    let input_ids = tokens_of g.input_items
    let output_ids = tokens_of g.output_items
    let prefilled = drop (length input_ids) s.input_items
    check (text_eq (tokens_of prefilled) output_ids)
    check (g.cached_tokens == 0)
    check (s.cached_tokens == 0)
    deltas ← value_of float (distances float (logprobs_of g.output_items) (logprobs_of prefilled))
    check (all is_finite deltas)
    maximum ← value_of float (largest float deltas)
    ds ← value_of float (differences 0 output_ids (drop (length input_ids) s.top_items))
    finish (record {
      input_tokens = length input_ids;
      output_tokens = length output_ids;
      maximum = maximum;
      mean_delta = scorer.mean deltas;
      argmax_differences = ds;
      passed = is_passed limits maximum (scorer.mean deltas) ds;
    })

  unfoldable pub try_prompt : Limits F → ℕ → Text → Script State (Report F)
  unfolding compared
  try_prompt limits index prompt = do
    λ s. flushed (scorer.flush s)
    g ← λ s. answered (scorer.decode prompt limits.tokens s)
    check (length g.input_items == g.prompt_tokens)
    check (length g.output_items == limits.tokens)
    check (if index == 1 then ltb 1_024 (length g.input_items) else true)
    λ s. flushed (scorer.flush s)
    scored ← λ s. answered (scorer.score (tokens_of g.input_items ++ tokens_of g.output_items) s)
    compared limits g scored

  unfoldable pub try_prompts : Limits F → ℕ → List Text → Script State (List (Report F))
  unfolding try_prompt
  try_prompts limits index [] = finish []
  try_prompts limits index (p ∷ ps) = do
    report ← try_prompt limits index p
    reports ← try_prompts limits (index + 1) ps
    finish (report ∷ reports)

  -- failed |= not passed; SystemExit(1 if failed else 0)
  abbrev pub exit_code : List (Report F) → ℕ
  exit_code [] = 0
  exit_code (r ∷ rs) = if r.passed then exit_code rs else 1

  unfoldable pub main : Limits F → Script State ℕ
  unfolding try_prompts prompts
  main limits = do reports ← try_prompts limits 0 prompts; finish (exit_code reports)
