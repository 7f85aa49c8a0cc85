-- ===== src/Smoke.antt =====
-- pkgs/vllm-metal/serve-smoke.py: a tiny model is served, waited for, asked twice, compared with the
-- greedy reference, and its process group is stopped whatever happened.
pub mod Greedy
pub mod Ready
pub mod Stopped
pub mod Verified
use nix_strix_halo.Prelude.{
  ℕ, zero, suc, ◌+◌, Bool, true, false, Option, none, some, List, [], ◌∷◌, ◌++◌, map, if◌then◌else◌,
  ltb, ◌==◌,
}
use nix_strix_halo.Prelude.Text.{Text, codes, text_eq}
use nix_strix_halo.Prelude.Decimal.{show}
use nix_strix_halo.Tree.Git.{words}

-- What a request meets: an answer, a URLError or TimeoutError, or another exception.
pub data Reply (A : Type 0) : Type 0 where
  answer : A → Reply A
  unreachable : Reply A
  broken : Reply A

pub record Completion : Type 0 where
  pub completion_text : Text
  pub completion_tokens : ℕ

-- The process, the server and the clock. `poll` is the return code of a process that has ended;
-- `wait_for` waits at most 20 seconds, and tells whether the process ended; `kill_group` raises
-- ProcessLookupError as `false`; `wait` gives `none` where the process never ends; `model_id` is models["data"][0]["id"]; `now` is in seconds.
pub record Host : Type 1 where
  pub State : Type 0
  pub poll : State → Option ℕ × State
  pub model_id : State → Reply Text × State
  pub complete : State → Reply Completion × State
  pub now : State → ℕ
  pub sleep : State → State
  pub terminate_group : State → Bool × State
  pub kill_group : State → Bool × State
  pub wait_for : State → Bool × State
  pub wait : State → Option State

pub data Failure : Type 0 where
  exited : ℕ → Failure
  not_ready : Failure
  assertion_failed : Failure
  request_failed : Failure
  no_such_process : Failure
  hangs : Failure
  out_of_fuel : Failure

pub data Ended (A : Type 0) : Type 0 where
  done : A → Ended A
  failed : Failure → Ended A

-- The reference: for _ in range(n): token = next(token_ids); both lists get the token.
unfoldable pub greedy : (List ℕ → ℕ) → ℕ → List ℕ → List ℕ
greedy next zero token_ids = []
greedy next (suc n) token_ids = next token_ids ∷ greedy next n (token_ids ++ next token_ids ∷ [])

-- The vocabulary's name of a token.
unfoldable pub token_of : ℕ → Text
token_of i = codes "token" ++ show i

-- expected = tokenizer.convert_ids_to_tokens(expected_ids)
abbrev pub expected_of : (List ℕ → ℕ) → List Text
expected_of next = map token_of (greedy next 8 (3 ∷ 4 ∷ 5 ∷ []))

abbrev pub texts_eq : List Text → List Text → Bool
texts_eq [] [] = true
texts_eq [] (t ∷ ts) = false
texts_eq (s ∷ ss) [] = false
texts_eq (s ∷ ss) (t ∷ ts) = if text_eq s t then texts_eq ss ts else false

module _ (host : Host) where
  open host use {State}

  -- if time.monotonic() > deadline: raise; time.sleep(1)
  abbrev pub retried : Bool → State → (State → Ended Text × State) → Ended Text × State
  retried true t again = (failed not_ready, t)
  retried false t again = again (host.sleep t)

  abbrev pub after_reply :
      ℕ → Reply Text × State → (State → Ended Text × State) → Ended Text × State
  after_reply deadline (answer id, t) again = (done id, t)
  after_reply deadline (broken, t) again = (failed request_failed, t)
  after_reply deadline (unreachable, t) again = retried (ltb deadline (host.now t)) t again

  abbrev pub after_poll : ℕ → Option ℕ × State → (State → Ended Text × State) → Ended Text × State
  after_poll deadline (some code, t) again = (failed (exited code), t)
  after_poll deadline (none, t) again = after_reply deadline (host.model_id t) again

  -- while True: poll, request, and sleep until the deadline has passed.
  unfoldable pub await_ready : ℕ → ℕ → State → Ended Text × State
  await_ready zero deadline s = (failed out_of_fuel, s)
  await_ready (suc fuel) deadline s = after_poll deadline (host.poll s) (await_ready fuel deadline)

  abbrev pub judged : List Text → Reply Completion × State → Ended (Unit {0}) × State
  judged expected (answer c, t) =
      if texts_eq (words c.completion_text) expected
      then if c.completion_tokens == 8 then (done tt, t) else (failed assertion_failed, t)
      else (failed assertion_failed, t)
  judged expected (unreachable, t) = (failed request_failed, t)
  judged expected (broken, t) = (failed request_failed, t)

  abbrev pub then_judged :
      List Text
      → Ended (Unit {0}) × State
      → (State → Ended (Unit {0}) × State)
      → Ended (Unit {0}) × State
  then_judged expected (done u, t) next = next t
  then_judged expected (failed why, t) next = (failed why, t)

  -- for _ in range(rounds): request, compare
  unfoldable pub compare_rounds : ℕ → List Text → State → Ended (Unit {0}) × State
  compare_rounds zero expected s = (done tt, s)
  compare_rounds (suc rounds) expected s =
      then_judged expected (judged expected (host.complete s)) (compare_rounds rounds expected)

  abbrev pub checked : List Text → Ended Text × State → Ended (Unit {0}) × State
  checked expected (done id, t) =
      if text_eq id (codes "smoke")
      then compare_rounds 2 expected t
      else (failed assertion_failed, t)
  checked expected (failed why, t) = (failed why, t)

  -- The body of the try statement.
  unfoldable pub attempt : ℕ → List Text → State → Ended (Unit {0}) × State
  unfolding await_ready compare_rounds
  attempt fuel expected s = checked expected (await_ready fuel (host.now s + 180) s)

  -- process.wait(): the script hangs for ever where the process never ends.
  abbrev pub awaited : Ended (Unit {0}) → State → Option State → Ended (Unit {0}) × State
  awaited result t (some u) = (result, u)
  awaited result t none = (failed hangs, t)

  abbrev pub killed : Ended (Unit {0}) → Bool × State → Ended (Unit {0}) × State
  killed result (true, t) = awaited result t (host.wait t)
  killed result (false, t) = (failed no_such_process, t)

  abbrev pub waited : Ended (Unit {0}) → Bool × State → Ended (Unit {0}) × State
  waited result (true, t) = (result, t)
  waited result (false, t) = killed result (host.kill_group t)

  -- The finally clause: SIGTERM, whether the group is there or not, then a wait, and SIGKILL if it
  -- times out.
  unfoldable pub clean_up : Ended (Unit {0}) × State → Ended (Unit {0}) × State
  clean_up (result, s) = waited result (host.wait_for (host.terminate_group s).1)

  unfoldable pub run : ℕ → (List ℕ → ℕ) → State → Ended (Unit {0}) × State
  unfolding attempt clean_up greedy token_of
  run fuel next s = clean_up (attempt fuel (expected_of next) s)
