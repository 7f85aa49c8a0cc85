-- ===== src/Smoke/Stopped.antt =====
-- Whatever serve-smoke.py meets, its server process is gone at the end; and what a success says.
use nix_strix_halo.Prelude.{ℕ, ◌≡◌, refl, Bool, true, false, some, List}
use nix_strix_halo.Smoke.{Host, Ended, expected_of, attempt, killed, waited, clean_up, run}

module _ (host : Host) where
  open host use {State}

  -- What the operating system says of a process: the wait for it returns only when it has ended, the
  -- group of one that has not ended is there, and one whose group got SIGKILL ends. Nothing says that
  -- SIGTERM or a wait ends it.
  pub record IsReaping : Type 1 where
    pub IsGone : State → Type 0
    pub gone_waited : (s t : State) → host.wait s ≡ some t → IsGone t
    pub gone_in_time : (s : State) → (host.wait_for s).0 ≡ true → IsGone (host.wait_for s).1
    pub group_there :
        (s : State) → (host.wait_for s).0 ≡ false → (host.kill_group (host.wait_for s).1).0 ≡ true
    pub killed_ends :
        (s : State)
        → (host.kill_group s).0 ≡ true
        → (t : State) × (host.wait (host.kill_group s).1 ≡ some t)

  module _ (reaping : IsReaping) where
    open reaping use {IsGone}

    killed-IsGone :
        (result : Ended (Unit {0})) (k : Bool × State)
        → k.0 ≡ true
        → (t : State) × (host.wait k.1 ≡ some t)
        → IsGone (killed host result k).1 × ((killed host result k).0 ≡ result)
    killed-IsGone result (true, s) e (t, ends) = rw ends (reaping.gone_waited s t ends, refl)
    killed-IsGone result (false, s) e ends = cc

    waited-IsGone :
        (result : Ended (Unit {0})) (w : Bool × State)
        → (w.0 ≡ true → IsGone w.1)
        → (w.0 ≡ false → (host.kill_group w.1).0 ≡ true)
        → IsGone (waited host result w).1 × ((waited host result w).0 ≡ result)
    waited-IsGone result (true, t) h k = (h refl, refl)
    waited-IsGone result (false, t) h k =
        killed-IsGone result (host.kill_group t) (k refl) (reaping.killed_ends t (k refl))

    clean_up-IsGone :
        (p : Ended (Unit {0}) × State) → IsGone (clean_up host p).1 × ((clean_up host p).0 ≡ p.0)
    unfolding clean_up
    clean_up-IsGone (result, s) =
        let u = (host.terminate_group s).1 in
        waited-IsGone result (host.wait_for u) (reaping.gone_in_time u) (reaping.group_there u)

    -- On a host where the wait for a process returns only when it has ended, where the group of a
    -- process that has not ended is there, and where one whose group got SIGKILL ends, every run of
    -- serve-smoke.py ends with the server process gone, does not hang in its last wait, and has the
    -- verdict that it had before it stopped the process.
    pub run-IsGone :
        (fuel : ℕ) (next : List ℕ → ℕ) (s : State)
        → IsGone (run host fuel next s).1
          × ((run host fuel next s).0 ≡ (attempt host fuel (expected_of next) s).0)
    unfolding run
    run-IsGone fuel next s = clean_up-IsGone (attempt host fuel (expected_of next) s)
