-- ===== src/Bench/Boundaries.antt =====
-- lib/bench/glm53-cache-boundaries.py: the cached and the fresh answer to prompts that branch off a
-- cached prompt at page, index and chunk boundaries. The files written and the lines printed are the
-- returned list.
pub mod Agreement
pub mod Complete
use nix_strix_halo.Prelude.{
  ℕ, zero, suc, ◌+◌, ◌%◌, ◌≤◌, Bool, true, false, ◌&&◌, List, [], ◌∷◌, ◌++◌, if◌then◌else◌, ltb,
  leb, ◌==◌, length, take, all,
}
use nix_strix_halo.Prelude.Text.{text_eq}
use nix_strix_halo.Bench.Script.{Script, ◌>>=◌, ◌>>◌, check, finish}
use nix_strix_halo.Bench.Server.{Float, Generated, Server, flush_cache, generate, wait_healthy}
use nix_strix_halo.Bench.Numbers.{max_distance, value_of}

-- [f(i) for i in range(first, first + count)]
abbrev pub tabulate : ℕ → ℕ → (ℕ → ℕ) → List ℕ
tabulate zero first f = []
tabulate (suc count) first f = f first ∷ tabulate count (first + 1) f

unfoldable pub original : List ℕ
original = tabulate 3_073 0 (λ i. 1_000 + i % 251)

abbrev pub default_lengths : List ℕ
default_lengths =
    63 ∷ 64 ∷ 65 ∷ 127 ∷ 128 ∷ 129 ∷ 255 ∷ 256 ∷ 257 ∷ 1_023 ∷ 1_024 ∷ 1_025 ∷ 2_047 ∷ 2_048 ∷ 2_049
    ∷ 2_111 ∷ 2_112 ∷ 2_113 ∷ 2_175 ∷ 2_176 ∷ 2_177 ∷ 2_239 ∷ 2_240 ∷ 2_241 ∷ 2_303 ∷ 2_304 ∷ 2_305
    ∷ 3_071 ∷ []

-- args.prefixes or [...]; an option that is not given is the empty list.
unfoldable pub lengths_of : List ℕ → List ℕ
lengths_of [] = default_lengths
lengths_of (n ∷ ns) = n ∷ ns

-- original[:common] + [752, 317]
unfoldable pub branch_of : ℕ → List ℕ
unfolding original
branch_of common = take common original ++ 752 ∷ 317 ∷ []

pub record Boundary (F : Type 0) : Type 0 where
  pub common_prefix : ℕ
  pub prompt_tokens : ℕ
  pub cached_tokens : ℕ
  pub same_ids : Bool
  pub max_abs_logprob_delta : F

module _ (float : Float) (server : Server float.F) where
  open float use {F, le, is_finite, zero_value}
  open server use {State}

  -- len(a) == len(b) == 16 and all(math.isfinite(v[0]) for v in a + b)
  unfoldable pub are_comparable : List F → List F → Bool
  are_comparable a b = length a == length b && length b == 16 && all is_finite (a ++ b)

  -- if common >= 1024: assert cached["meta_info"]["cached_tokens"] >= 1024
  unfoldable pub is_reused : ℕ → Generated F → Bool
  is_reused common cached = if leb 1_024 common then leb 1_024 cached.cached_tokens else true

  -- The asserts of a round and its result.
  unfoldable pub judged : ℕ → Generated F → Generated F → Script State (Boundary F)
  unfolding are_comparable is_reused
  judged common cached fresh = do
    check (are_comparable cached.logprobs fresh.logprobs)
    check (fresh.cached_tokens == 0)
    check (is_reused common cached)
    delta ← value_of float (max_distance float cached.logprobs fresh.logprobs)
    finish (record {
      common_prefix = common;
      prompt_tokens = length (branch_of common);
      cached_tokens = cached.cached_tokens;
      same_ids = text_eq cached.output_ids fresh.output_ids;
      max_abs_logprob_delta = delta;
    })

  -- One round of the loop.
  unfoldable pub boundary : ℕ → Script State (Boundary F)
  unfolding judged
  boundary common = do
    flush_cache server
    generate server original 8
    cached ← generate server (branch_of common) 16
    flush_cache server
    fresh ← generate server (branch_of common) 16
    judged common cached fresh

  unfoldable pub sweep : List ℕ → Script State (List (Boundary F))
  unfolding boundary
  sweep [] = finish []
  sweep (common ∷ lengths) = do
    result ← boundary common
    results ← sweep lengths
    finish (result ∷ results)

  abbrev pub is_passed : F → Boundary F → Bool
  is_passed limit x = x.same_ids && le x.max_abs_logprob_delta limit

  unfoldable pub run : F → List ℕ → Script State (List (Boundary F))
  unfolding sweep lengths_of
  run limit prefixes = do
    check (is_finite limit && le zero_value limit)
    wait_healthy server 900
    check (all (λ n. ltb 0 n && ltb n (length original)) (lengths_of prefixes))
    results ← sweep (lengths_of prefixes)
    check (all (is_passed limit) results)
    finish results
