-- ===== src/Smoke/Ready.antt =====
-- The wait of serve-smoke.py for its server ends, and why it ends.
use nix_strix_halo.Prelude.{
  ℕ, zero, suc, ◌+◌, ◌≤◌, ◌<◌, ◌≡◌, refl, ap, Bool, true, false, Option, none, some, arith, ltb,
  ltb→lt,
}
use nix_strix_halo.Prelude.Text.{Text}
use nix_strix_halo.Smoke.{
  Reply, answer, unreachable, broken, Host, exited, not_ready, assertion_failed, request_failed,
  no_such_process, hangs, out_of_fuel, Ended, done, failed, retried, after_reply, after_poll,
  await_ready,
}

le_of_late : (a b : ℕ) → ltb a b ≡ false → b ≤ a
le_of_late a b h = ground arith

module _ (host : Host) where
  open host use {State, poll, model_id, now, sleep}

  -- A clock that does not go back, and a pause of at least a second.
  pub record IsTicking : Type 0 where
    pub poll_later : (s : State) → now s ≤ now (poll s).1
    pub request_later : (s : State) → now s ≤ now (model_id s).1
    pub sleep_later : (s : State) → now s + 1 ≤ now (sleep s)

  -- Each end of the wait has its cause, and running out of fuel is no end.
  abbrev pub IsSettled : ℕ → Ended Text × State → Type 0
  IsSettled deadline (done id, t) = (u : State) × (model_id u ≡ (answer id, t))
  IsSettled deadline (failed (exited code), t) = (u : State) × (poll u ≡ (some code, t))
  IsSettled deadline (failed not_ready, t) = deadline < now t
  IsSettled deadline (failed request_failed, t) = (u : State) × (model_id u ≡ (broken, t))
  IsSettled deadline (failed assertion_failed, t) = ⊥
  IsSettled deadline (failed no_such_process, t) = ⊥
  IsSettled deadline (failed hangs, t) = ⊥
  IsSettled deadline (failed out_of_fuel, t) = ⊥

  module _ (ticking : IsTicking) where
    retried-IsSettled :
        (deadline : ℕ) (late : Bool) (t : State) (again : State → Ended Text × State)
        → (late ≡ true → deadline < now t)
        → (late ≡ false → IsSettled deadline (again (sleep t)))
        → IsSettled deadline (retried host late t again)
    retried-IsSettled deadline true t again over h = over refl
    retried-IsSettled deadline false t again over h = h refl

    after_reply-IsSettled :
        (deadline : ℕ) (u : State) (r : Reply Text × State) (again : State → Ended Text × State)
        → model_id u ≡ r
        → ((t : State) → t ≡ r.1 → now t ≤ deadline → IsSettled deadline (again (sleep t)))
        → IsSettled deadline (after_reply host deadline r again)
    after_reply-IsSettled deadline u (answer id, t) again e h = (u, e)
    after_reply-IsSettled deadline u (broken, t) again e h = (u, e)
    after_reply-IsSettled deadline u (unreachable, t) again e h =
        retried-IsSettled deadline (ltb deadline (now t)) t again (ltb→lt deadline (now t))
          (λ e. h t refl (le_of_late deadline (now t) e))

    after_poll-IsSettled :
        (deadline : ℕ) (u : State) (p : Option ℕ × State) (again : State → Ended Text × State)
        → poll u ≡ p
        → ((v : State)
            → v ≡ p.1
            → (t : State) → t ≡ (model_id v).1
            → now t ≤ deadline
            → IsSettled deadline (again (sleep t)))
        → IsSettled deadline (after_poll host deadline p again)
    after_poll-IsSettled deadline u (some code, t) again e h = (u, e)
    after_poll-IsSettled deadline u (none, t) again e h =
        after_reply-IsSettled deadline t (model_id t) again refl (h t refl)

    -- On a host whose clock does not go back and whose pauses last a second, with as much fuel as
    -- there are seconds to the deadline and two more, the wait for the server ends, and each end
    -- has its cause: the server named a model, the process exited, a request failed otherwise, or
    -- the deadline has passed.
    pub await_ready-IsSettled :
        (fuel deadline : ℕ) (s : State)
        → 1 ≤ fuel
        → deadline + 2 ≤ fuel + now s
        → IsSettled deadline (await_ready host fuel deadline s)
    unfolding await_ready
    await_ready-IsSettled zero deadline s h enough = absurd (omega arith)
    await_ready-IsSettled (suc fuel) deadline s h enough =
        after_poll-IsSettled deadline s (poll s) (await_ready host fuel deadline) refl
          λ v ev t et early.
            let before_sleep : now s ≤ now t = later v ev t et in
            let after_sleep = ticking.sleep_later t in
            await_ready-IsSettled fuel deadline (sleep t) (omega arith) (omega arith)
      where
        later : (v : State) → v ≡ (poll s).1 → (t : State) → t ≡ (model_id v).1 → now s ≤ now t
        later v ev t et =
            let a = ticking.poll_later s in
            let b = ticking.request_later v in omega (arith, ap now ev, ap now et)
