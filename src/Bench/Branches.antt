-- ===== src/Bench/Branches.antt =====
-- lib/bench/glm53-cache-branches.py: cached and fresh answers to prompts that repeat, append to,
-- truncate and leave a cached prompt. Its list of failures is an argument and a result.
pub mod Pairs
pub mod Agreement
use nix_strix_halo.Prelude.{
  ℕ, ◌+◌, ◌/◌, ◌%◌, Bool, true, false, ◌&&◌, ◌||◌, not, List, [], ◌∷◌, ◌++◌, if◌then◌else◌, ltb,
  ◌==◌, length, take, all,
}
use nix_strix_halo.Prelude.Text.{Text, codes, text_eq}
use nix_strix_halo.Bench.Script.{Script, ◌>>=◌, ◌>>◌, check, finish}
use nix_strix_halo.Bench.Server.{Float, Generated, Server, flush_cache, generate, wait_healthy}
use nix_strix_halo.Bench.Numbers.{max_distance, value_of}
use nix_strix_halo.Bench.Boundaries.{tabulate, original}

-- ids + [875, 97, 351], ids[:2117] + [752, 317] and ids[:1536] + [1729 + (i % 31) for i in range(257)]
unfoldable pub appended : List ℕ
unfolding original
appended = original ++ 875 ∷ 97 ∷ 351 ∷ []

unfoldable pub truncated : List ℕ
unfolding original
truncated = take 2_117 original ++ 752 ∷ 317 ∷ []

unfoldable pub diverged : List ℕ
unfolding original
diverged = take 1_536 original ++ tabulate 257 0 (λ i. 1_729 + i % 31)

pub record Branch : Type 0 where
  pub label : Text
  pub prompt : List ℕ

unfoldable pub branches : List Branch
unfolding appended truncated diverged
branches =
    record { label = codes "append"; prompt = appended }
    ∷ record { label = codes "truncate"; prompt = truncated }
    ∷ record { label = codes "diverge"; prompt = diverged }
    ∷ []

-- `limit` is the 0.05 of the source.
module _ (float : Float) (server : Server float.F) (limit : float.F) where
  open float use {F, le, is_finite}
  open server use {State}

  abbrev pub is_complete : Generated F → Bool
  is_complete g = length g.logprobs == 8 && all is_finite g.logprobs

  -- generate(ids)
  unfoldable pub generate_eight : List ℕ → Script State (Generated F)
  generate_eight ids = do r ← generate server ids 8; check (is_complete r); finish r

  -- if not same_ids or delta >= 0.05: failures.append(label)
  abbrev pub failures_with : Text → Bool → Bool → List Text → List Text
  failures_with label same far failures =
      if not same || far then failures ++ label ∷ [] else failures

  unfoldable pub compare : Text → Generated F → Generated F → List Text → Script State (List Text)
  compare label first second failures = do
    delta ← value_of float (max_distance float first.logprobs second.logprobs)
    finish
        (failures_with label (text_eq first.output_ids second.output_ids) (le limit delta) failures)

  -- The control: two fresh answers.
  unfoldable pub control : Script State (List Text)
  unfolding generate_eight compare
  control = do
    flush_cache server
    first ← generate_eight appended
    flush_cache server
    second ← generate_eight appended
    check (first.cached_tokens == second.cached_tokens && second.cached_tokens == 0)
    compare (codes "fresh-repeat-control") first second []

  unfoldable pub identical : List Text → Script State (List Text)
  unfolding generate_eight compare
  identical failures = do
    flush_cache server
    cold ← generate_eight original
    warm ← generate_eight original
    after ← compare (codes "identical") cold warm failures
    check (cold.cached_tokens == 0 && ltb (length original / 2) warm.cached_tokens)
    finish after

  unfoldable pub try_branch : Branch → List Text → Script State (List Text)
  unfolding generate_eight compare
  try_branch branch failures = do
    cached ← generate_eight branch.prompt
    flush_cache server
    fresh ← generate_eight branch.prompt
    after ← compare branch.label cached fresh failures
    check (ltb 0 cached.cached_tokens && fresh.cached_tokens == 0)
    generate_eight original
    finish after

  unfoldable pub try_branches : List Branch → List Text → Script State (List Text)
  unfolding try_branch
  try_branches [] failures = finish failures
  try_branches (b ∷ bs) failures = do after ← try_branch b failures; try_branches bs after

  abbrev pub is_nil : List Text → Bool
  is_nil [] = true
  is_nil (t ∷ ts) = false

  unfoldable pub run : Script State (Unit {0})
  unfolding control identical try_branches branches
  run = do
    wait_healthy server 180
    first ← control
    second ← identical first
    third ← try_branches branches second
    check (is_nil third)
