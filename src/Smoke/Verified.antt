-- ===== src/Smoke/Verified.antt =====
-- A run of serve-smoke.py ends with a verdict, and a good one means that both completions are the
-- greedy reference.
use nix_strix_halo.Prelude.{
  ℕ, zero, suc, ◌+◌, ◌≤◌, ◌≡◌, ◌≢◌, refl, sym, subst, ap, ◌∙◌, true, List, [], ◌∷◌, arith,
  Bool-cases, inl, inr, ◌==◌, ==_iff,
}
use nix_strix_halo.Prelude.Text.{Text, codes, text_eq, text_eq_iff}
use nix_strix_halo.Tree.Git.{words}
use nix_strix_halo.Smoke.{
  Reply, answer, unreachable, broken, Completion, Host, exited, not_ready, assertion_failed,
  request_failed, no_such_process, hangs, out_of_fuel, Ended, done, failed, expected_of, texts_eq,
  judged, then_judged, compare_rounds, checked, await_ready, attempt, run,
}
use nix_strix_halo.Smoke.Ready.{IsTicking, IsSettled, await_ready-IsSettled}
use nix_strix_halo.Smoke.Stopped.{IsReaping, run-IsGone}

texts_eq_sound : (ss ts : List Text) → texts_eq ss ts ≡ true → ss ≡ ts
texts_eq_sound [] [] h = refl
texts_eq_sound [] (t ∷ ts) h = cc
texts_eq_sound (s ∷ ss) [] h = cc
texts_eq_sound (s ∷ ss) (t ∷ ts) h = elim (Bool-cases (text_eq s t)) [
  | inl e ↦
      let same : s ≡ t = (text_eq_iff s t).0 e in
      let rest : ss ≡ ts = texts_eq_sound ss ts (rw e at h) in cc
  | inr e ↦ let q = rw e at h in cc
]

module _ (host : Host) where
  open host use {State}

  -- A completion that was asked for, and is the reference.
  pub record IsReference (expected : List Text) (s t : State) : Type 0 where
    pub completion : Completion
    pub received : host.complete s ≡ (answer completion, t)
    pub same_tokens : words completion.completion_text ≡ expected
    pub eight : completion.completion_tokens ≡ 8

  judged-IsReference :
      (expected : List Text) (s t : State) (r : Reply Completion × State)
      → host.complete s ≡ r
      → judged host expected r ≡ (done tt, t)
      → IsReference expected s t
  judged-IsReference expected s t (unreachable, u) e h = cc
  judged-IsReference expected s t (broken, u) e h = cc
  judged-IsReference expected s t (answer c, u) e h =
      elim (Bool-cases (texts_eq (words c.completion_text) expected)) [
        | inr differ ↦ let q = rw differ at h in cc
        | inl same ↦ elim (Bool-cases (c.completion_tokens == 8)) [
          | inr other ↦ let q = rw (same, other) at h in cc
          | inl eight ↦
              let there : u ≡ t = ap (λ p. p.1) (rw (same, eight) at h) in
              record {
                completion = c;
                received = e ∙ ap (λ v. (answer c, v)) there;
                same_tokens = texts_eq_sound _ _ same;
                eight = (==_iff _ _).0 eight;
              }
        ]
      ]

  then_judged-done :
      (expected : List Text) (j : Ended (Unit {0}) × State)
      (next : State → Ended (Unit {0}) × State) (t : State)
      → then_judged host expected j next ≡ (done tt, t)
      → (u : State) × (j ≡ (done tt, u)) × (next u ≡ (done tt, t))
  then_judged-done expected (done tt, u) next t h = (u, refl, h)
  then_judged-done expected (failed why, u) next t h = cc

  -- Every round received the reference.
  abbrev pub AreReferences : ℕ → List Text → State → State → Type 0
  AreReferences zero expected s t = s ≡ t
  AreReferences (suc rounds) expected s t =
      (u : State) × IsReference expected s u × AreReferences rounds expected u t

  compare_rounds-AreReferences :
      (rounds : ℕ) (expected : List Text) (s t : State)
      → compare_rounds host rounds expected s ≡ (done tt, t)
      → AreReferences rounds expected s t
  unfolding compare_rounds
  compare_rounds-AreReferences zero expected s t h = ap (λ p. p.1) h
  compare_rounds-AreReferences (suc rounds) expected s t h =
      let (u, first, rest) = then_judged-done expected _ _ t h in
      (
        u,
        judged-IsReference expected s u (host.complete s) refl first,
        compare_rounds-AreReferences rounds expected u t rest,
      )

  -- The server named the model, and gave the reference in both rounds.
  abbrev pub IsVerified : List Text → State → Type 0
  IsVerified expected t =
      (s u : State) × (host.model_id s ≡ (answer (codes "smoke"), u)) × AreReferences 2 expected u t

  abbrev IsFinished : Ended (Unit {0}) → Type 0
  IsFinished (done u) = Unit
  IsFinished (failed out_of_fuel) = ⊥
  IsFinished (failed _) = Unit

  checked-IsVerified :
      (deadline : ℕ) (expected : List Text) (p : Ended Text × State) (t : State)
      → IsSettled host deadline p
      → checked host expected p ≡ (done tt, t)
      → IsVerified expected t
  checked-IsVerified deadline expected (failed why, u) t settled h = cc
  checked-IsVerified deadline expected (done id, u) t (s, named) h =
      elim (Bool-cases (text_eq id (codes "smoke"))) [
        | inr other ↦ let q = rw other at h in cc
        | inl same ↦
            let is_smoke : id ≡ codes "smoke" = (text_eq_iff _ _).0 same in
            (
              s,
              u,
              named ∙ ap (λ i. (answer i, u)) is_smoke,
              compare_rounds-AreReferences 2 expected u t (rw same at h),
            )
      ]

  judged-IsFinished :
      (expected : List Text) (r : Reply Completion × State) → IsFinished (judged host expected r).0
  judged-IsFinished expected (unreachable, u) = tt
  judged-IsFinished expected (broken, u) = tt
  judged-IsFinished expected (answer c, u) =
      elim (Bool-cases (texts_eq (words c.completion_text) expected)) [
        | inr differ ↦ rw differ tt
        | inl same ↦ elim (Bool-cases (c.completion_tokens == 8)) [
          | inr other ↦ rw (same, other) tt
          | inl eight ↦ rw (same, eight) tt
        ]
      ]

  then_judged-IsFinished :
      (expected : List Text) (j : Ended (Unit {0}) × State)
      (next : State → Ended (Unit {0}) × State)
      → IsFinished j.0
      → ((t : State) → IsFinished (next t).0)
      → IsFinished (then_judged host expected j next).0
  then_judged-IsFinished expected (done u, t) next j n = n t
  then_judged-IsFinished expected (failed why, t) next j n = j

  compare_rounds-IsFinished :
      (rounds : ℕ) (expected : List Text) (s : State)
      → IsFinished (compare_rounds host rounds expected s).0
  unfolding compare_rounds
  compare_rounds-IsFinished zero expected s = tt
  compare_rounds-IsFinished (suc rounds) expected s =
      then_judged-IsFinished expected (judged host expected (host.complete s)) _
        (judged-IsFinished expected (host.complete s)) (compare_rounds-IsFinished rounds expected)

  checked-IsFinished :
      (deadline : ℕ) (expected : List Text) (p : Ended Text × State)
      → IsSettled host deadline p
      → IsFinished (checked host expected p).0
  checked-IsFinished deadline expected (failed out_of_fuel, u) settled = settled
  checked-IsFinished deadline expected (failed (exited c), u) settled = tt
  checked-IsFinished deadline expected (failed not_ready, u) settled = tt
  checked-IsFinished deadline expected (failed request_failed, u) settled = tt
  checked-IsFinished deadline expected (failed assertion_failed, u) settled = tt
  checked-IsFinished deadline expected (failed no_such_process, u) settled = tt
  checked-IsFinished deadline expected (failed hangs, u) settled = tt
  checked-IsFinished deadline expected (done id, u) settled =
      elim (Bool-cases (text_eq id (codes "smoke"))) [
        | inr other ↦ rw other tt
        | inl same ↦ rw same (compare_rounds-IsFinished 2 expected u)
      ]

  module _ (ticking : IsTicking host) (reaping : IsReaping host) where
    settled :
        (s : State) (fuel : ℕ)
        → 182 ≤ fuel
        → IsSettled host (host.now s + 180) (await_ready host fuel (host.now s + 180) s)
    settled s fuel h =
        await_ready-IsSettled host ticking fuel (host.now s + 180) s (omega arith) (omega arith)

    -- On such a host and clock, with fuel for 182 rounds, no run of serve-smoke.py runs out of
    -- fuel.
    pub run-finished :
        (fuel : ℕ) (next : List ℕ → ℕ) (s : State)
        → 182 ≤ fuel
        → (run host fuel next s).0 ≢ failed out_of_fuel
    unfolding attempt
    run-finished fuel next s h e =
        let (_, same) = run-IsGone host reaping fuel next s in
        subst IsFinished (sym same ∙ e) (attempt-IsFinished fuel (expected_of next) s h)
      where
        attempt-IsFinished :
            (fuel : ℕ) (expected : List Text) (s : State)
            → 182 ≤ fuel
            → IsFinished (attempt host fuel expected s).0
        attempt-IsFinished fuel expected s h =
            checked-IsFinished (host.now s + 180) expected
              (await_ready host fuel (host.now s + 180) s) (settled s fuel h)

    -- On a host that stops its processes and has a clock as in the two theorems about stopping and
    -- waiting, with fuel for 182 rounds, a good verdict of serve-smoke.py means that the server
    -- named the model smoke and then answered both requests with eight tokens whose words are the
    -- names of the greedy reference.
    pub run-IsVerified :
        (fuel : ℕ) (next : List ℕ → ℕ) (s : State)
        → 182 ≤ fuel
        → (run host fuel next s).0 ≡ done tt
        → (t : State) × IsVerified (expected_of next) t
    unfolding attempt
    run-IsVerified fuel next s h e =
        let (_, same) = run-IsGone host reaping fuel next s in
        let tried = attempt host fuel (expected_of next) s in
        (
          tried.1,
          checked-IsVerified (host.now s + 180) (expected_of next)
              (await_ready host fuel (host.now s + 180) s) tried.1 (settled s fuel h)
              (ap (λ r. (r, tried.1)) (sym same ∙ e)),
        )
