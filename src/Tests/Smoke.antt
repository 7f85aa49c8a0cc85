-- ===== src/Tests/Smoke.antt =====
-- A host whose server comes up late and ignores SIGTERM.
use nix_strix_halo.Prelude.{
  ℕ, ◌+◌, ◌-◌, ◌≡◌, refl, Bool, true, false, none, some, List, arith, if◌then◌else◌, ◌==◌, length,
  Bool-cases, inl, inr, sym, ap,
}
use mathlib.Core.Option.{some-injective}
use nix_strix_halo.Prelude.Text.{codes}
use nix_strix_halo.Prelude.Decimal.{show}
use nix_strix_halo.Tree.Git.{split_words}
use nix_strix_halo.Smoke.{
  answer, unreachable, Host, done, expected_of, attempt, await_ready, run, Completion,
}
use nix_strix_halo.Smoke.Ready.{IsTicking, IsSettled, await_ready-IsSettled}
use nix_strix_halo.Smoke.Stopped.{IsReaping, run-IsGone}
use nix_strix_halo.Smoke.Verified.{IsVerified, run-IsVerified}

record Machine : Type 0 where
  boot : ℕ
  clock : ℕ
  is_alive : Bool
  is_killed : Bool

abbrev served : Completion
served = record {
  completion_text = codes "token6 token7 token8 token9 token10 token11 token12 token13";
  completion_tokens = 8;
}

abbrev machine : Host
machine = record {
  State = Machine;
  poll = λ s. (none, s);
  model_id = λ s.
      (if s.boot == 0 then answer (codes "smoke") else unreachable, record s { boot = s.boot - 1 });
  complete = λ s. (answer served, s);
  now = λ s. s.clock;
  sleep = λ s. record s { clock = s.clock + 1 };
  terminate_group = λ s. (true, s);
  kill_group = λ s. (true, record s { is_killed = true });
  wait_for = λ s. (false, s);
  wait = λ s. if s.is_killed then some (record s { is_alive = false }) else none;
}

machine-IsTicking : IsTicking machine
machine-IsTicking = record {
  poll_later = λ s. omega arith;
  request_later = λ s. omega arith;
  sleep_later = λ s. omega arith;
}

waited_for : (s t : Machine) → machine.wait s ≡ some t → t.is_alive ≡ false
waited_for s t h = elim (Bool-cases s.is_killed) [
  | inl e ↦
      let same : record s { is_alive = false; is_killed = true } ≡ t =
        some-injective _ _ (rw e at h) in
      ap (λ m. m.is_alive) (sym same)
  | inr e ↦ cc (rw e at h)
]

machine-IsReaping : IsReaping machine
machine-IsReaping = record {
  IsGone = λ s. s.is_alive ≡ false;
  gone_waited = waited_for;
  gone_in_time = λ s h. cc;
  group_there = λ s h. refl;
  killed_ends = λ s h. (_, refl);
}

abbrev cold : Machine
cold = record { boot = 2; clock = 7; is_alive = true; is_killed = false }

abbrev next_token : List ℕ → ℕ
next_token ids = length ids + 3

run_test : (run machine 182 next_token cold).0 ≡ done tt
unfolding run split_words show
run_test = refl

await_ready-IsSettled_example : IsSettled machine 187 (await_ready machine 182 187 cold)
await_ready-IsSettled_example =
    await_ready-IsSettled machine machine-IsTicking 182 187 cold (omega arith) (omega arith)

run-IsGone_example :
    ((run machine 182 next_token cold).1.is_alive ≡ false)
    × ((run machine 182 next_token cold).0 ≡ (attempt machine 182 (expected_of next_token) cold).0)
unfolding machine-IsReaping
run-IsGone_example = run-IsGone machine machine-IsReaping 182 next_token cold

run-IsVerified_example : (t : Machine) × IsVerified machine (expected_of next_token) t
run-IsVerified_example =
    run-IsVerified machine machine-IsTicking machine-IsReaping 182 next_token cold (omega arith)
      run_test
