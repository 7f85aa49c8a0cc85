-- ===== src/Bench/Boundaries/Complete.antt =====
-- A healthy server that answers the same with and without its prefix cache passes the sweep of
-- glm53-cache-boundaries.py.
use nix_strix_halo.Prelude.{
  ℕ, zero, suc, ◌+◌, ◌%◌, ◌≤◌, ◌<◌, ◌≡◌, refl, sym, ap, ◌∙◌, true, ◌&&◌, Option, some, List, [],
  ◌∷◌, ◌++◌, arith, if◌then◌else◌, All, all, All-all, All-append, &&-intro, &&-both, length, leb,
  ltb, ◌==◌, ==_iff, take, ltb→lt,
}
use nix_strix_halo.Prelude.Text.{text_eq, text_eq_refl}
use nix_strix_halo.Bench.Script.{gives, followed-next, check-true}
use nix_strix_halo.Bench.Server.{
  Float, Server, flushed-true, answered-some, flush_cache, generate, IsFirstUp, polled,
  wait_healthy-IsFirstUp,
}
use nix_strix_halo.Bench.Numbers.{max_distance, value_of, max_distance_self}
use nix_strix_halo.Bench.Boundaries.{
  Boundary, tabulate, original, branch_of, are_comparable, is_reused, judged, boundary, sweep, run,
  is_passed, lengths_of,
}

length-tabulate : (count first : ℕ) (f : ℕ → ℕ) → length (tabulate count first f) ≡ count
length-tabulate zero first f = refl
length-tabulate (suc count) first f = omega (arith, length-tabulate count (first + 1) f)

length-original : length original ≡ 3_073
unfolding original
length-original = length-tabulate 3_073 0 (λ i. 1_000 + i % 251)

take-take :
    (m n : ℕ) (xs ys : List ℕ) → m ≤ n → n ≤ length xs → take m (take n xs ++ ys) ≡ take m xs
take-take zero n xs ys a b = refl
take-take (suc m) zero xs ys a b = absurd (omega arith)
take-take (suc m) (suc n) [] ys a b = absurd (omega arith)
take-take (suc m) (suc n) (x ∷ xs) ys a b =
    ap (◌∷◌ x) (take-take m n xs ys (omega arith) (omega arith))

length-take_append :
    (n : ℕ) (xs ys : List ℕ) → n ≤ length xs → length (take n xs ++ ys) ≡ n + length ys
length-take_append zero xs ys h = omega arith
length-take_append (suc n) [] ys h = absurd (omega arith)
length-take_append (suc n) (x ∷ xs) ys h = omega (arith, length-take_append n xs ys (omega arith))

module _ (float : Float) (server : Server float.F) where
  open float use {F, le, is_finite, zero_value}
  open server use {State}

  -- A server whose answers do not depend on its cache, and whose cache reuses at least the first
  -- chunk of 1024 tokens of the prompt it answered last.
  pub record IsPrefixCache : Type 0 where
    pub score : List ℕ → ℕ → List F
    pub answer : List ℕ → ℕ → List ℕ
    pub hit : State → List ℕ → ℕ
    pub flushes : (s : State) → (server.flush s).0 ≡ true
    pub forgets : (s : State) (ids : List ℕ) → hit (server.flush s).1 ids ≡ 0
    pub answers :
        (s : State) (ids : List ℕ) (n : ℕ)
        → (server.generate ids n s).0
          ≡ some (record {
            logprobs = score ids n;
            output_ids = answer ids n;
            cached_tokens = hit s ids;
          })
    pub reuses :
        (s : State) (ids later : List ℕ) (n : ℕ)
        → take 1_024 ids ≡ take 1_024 later
        → 1_024 < length ids
        → 1_024 < length later
        → 1_024 ≤ hit (server.generate ids n s).1 later
    pub finite : (ids : List ℕ) (n : ℕ) → All (λ x. is_finite x ≡ true) (score ids n)
    pub one_each : (ids : List ℕ) (n : ℕ) → length (score ids n) ≡ n

  shared :
      (common : ℕ)
      → 1_024 ≤ common
      → common < length original
      → take 1_024 original ≡ take 1_024 (branch_of common)
  unfolding branch_of
  shared common h l = sym (take-take 1_024 common original _ h (omega (arith, l)))

  longer :
      (common : ℕ) → 1_024 ≤ common → common < length original → 1_024 < length (branch_of common)
  unfolding branch_of
  longer common h l =
      omega (arith, length-take_append common original (752 ∷ 317 ∷ []) (omega (arith, l)))

  abbrev pub IsInRange : ℕ → Type 0
  IsInRange n = (ltb 0 n && ltb n (length original)) ≡ true

  value_of-some :
      {S A : Type 0} {o : Option A} {a : A} → o ≡ some a → (s : S) → value_of float o s ≡ gives a s
  value_of-some e s = rw e refl

  max_distance_nonempty :
      (xs : List F)
      → 0 < length xs
      → All (λ x. is_finite x ≡ true) xs
      → max_distance float xs xs ≡ some zero_value
  max_distance_nonempty [] h fin = absurd (omega arith)
  max_distance_nonempty (x ∷ xs) h fin = max_distance_self float x xs fin

  abbrev same_answers : ℕ → List F → List ℕ → ℕ → Boundary F
  same_answers common scores ids hits = record {
    common_prefix = common;
    prompt_tokens = length (branch_of common);
    cached_tokens = hits;
    same_ids = text_eq ids ids;
    max_abs_logprob_delta = zero_value;
  }

  judged-same :
      (common : ℕ) (scores : List F) (ids : List ℕ) (hits none_hit : ℕ) (s : State)
      → All (λ x. is_finite x ≡ true) scores
      → length scores ≡ 16
      → none_hit ≡ 0
      → (1_024 ≤ common → 1_024 ≤ hits)
      → judged float server common
          (record { logprobs = scores; output_ids = ids; cached_tokens = hits })
          (record { logprobs = scores; output_ids = ids; cached_tokens = none_hit })
          s
        ≡ gives (same_answers common scores ids hits) s
  unfolding judged are_comparable is_reused
  judged-same common scores ids hits none_hit s fin sixteen fresh reused =
      followed-next _ (check-true s comparable)
      ∙ followed-next _ (check-true s ((==_iff _ _).1 fresh))
      ∙ followed-next _ (check-true s reuse)
      ∙ followed-next _
          (value_of-some (max_distance_nonempty scores (omega (arith, sixteen)) fin) s)
    where
      comparable :
          (length scores == length scores
            && length scores == 16
            && all is_finite (scores ++ scores))
          ≡ true
      comparable =
          &&-intro (&&-intro ((==_iff _ _).1 refl) ((==_iff _ _).1 sixteen))
            (All-all is_finite _ (All-append _ scores scores fin fin))

      reuse : (if leb 1_024 common then leb 1_024 hits else true) ≡ true
      reuse = ground (arith, reused)

  module _ (c : IsPrefixCache) where
    flush_steps : (s : State) → flush_cache server s ≡ gives tt (server.flush s).1
    flush_steps s = flushed-true (server.flush s) (c.flushes s)

    generate_steps :
        (ids : List ℕ) (n : ℕ) (s : State)
        → generate server ids n s
          ≡ gives
              (record {
                logprobs = c.score ids n;
                output_ids = c.answer ids n;
                cached_tokens = c.hit s ids;
              })
              (server.generate ids n s).1
    generate_steps ids n s = answered-some (server.generate ids n s) (c.answers s ids n)

    -- What the sweep reports of one prefix length.
    abbrev pub IsCleared : ℕ → Boundary F → Type 0
    IsCleared common x =
        (x.common_prefix ≡ common) × (x.same_ids ≡ true) × (x.max_abs_logprob_delta ≡ zero_value)

    boundary-IsCleared :
        (common : ℕ) (s : State)
        → IsInRange common
        → (x : Boundary F) × (t : State) × (boundary float server common s ≡ gives x t)
          × IsCleared common x
    unfolding boundary
    boundary-IsCleared common s range =
        let s1 = (server.flush s).1 in
        let s2 = (server.generate original 8 s1).1 in
        let s3 = (server.generate (branch_of common) 16 s2).1 in
        let s4 = (server.flush s3).1 in
        let s5 = (server.generate (branch_of common) 16 s4).1 in
        (
          same_answers common (c.score (branch_of common) 16) (c.answer (branch_of common) 16)
              (c.hit s2 (branch_of common)),
          s5,
          followed-next _ (flush_steps s)
              ∙ followed-next _ (generate_steps original 8 s1)
              ∙ followed-next _ (generate_steps (branch_of common) 16 s2)
              ∙ followed-next _ (flush_steps s3)
              ∙ followed-next _ (generate_steps (branch_of common) 16 s4)
              ∙ judged-same common (c.score (branch_of common) 16) (c.answer (branch_of common) 16)
                  (c.hit s2 (branch_of common)) (c.hit s4 (branch_of common)) s5
                  (c.finite (branch_of common) 16) (c.one_each (branch_of common) 16)
                  (c.forgets s3 (branch_of common)) (reused s1),
          (refl, text_eq_refl (c.answer (branch_of common) 16), refl),
        )
      where
        below : common < length original
        below = let (_, h) = &&-both (ltb 0 common) _ range in ltb→lt _ _ h

        reused :
            (s1 : State)
            → 1_024 ≤ common
            → 1_024 ≤ c.hit (server.generate original 8 s1).1 (branch_of common)
        reused s1 h =
            c.reuses s1 original (branch_of common) 8 (shared common h below)
              (omega (arith, length-original)) (longer common h below)

    -- Every length is reported, in order.
    abbrev pub AreCleared : List ℕ → List (Boundary F) → Type 0
    AreCleared [] [] = Unit
    AreCleared [] (x ∷ xs) = ⊥
    AreCleared (n ∷ ns) [] = ⊥
    AreCleared (n ∷ ns) (x ∷ xs) = IsCleared n x × AreCleared ns xs

    sweep-AreCleared :
        (lengths : List ℕ) (s : State)
        → All IsInRange lengths
        → (xs : List (Boundary F)) × (t : State) × (sweep float server lengths s ≡ gives xs t)
          × AreCleared lengths xs
    unfolding sweep
    sweep-AreCleared [] s range = ([], s, refl, tt)
    sweep-AreCleared (n ∷ ns) s (h, range) =
        let (x, s1, e1, clear) = boundary-IsCleared n s h in
        let (xs, s2, e2, clears) = sweep-AreCleared ns s1 range in
        (x ∷ xs, s2, followed-next _ e1 ∙ followed-next _ e2, (clear, clears))

    all_passed :
        (limit : F) (lengths : List ℕ) (xs : List (Boundary F))
        → le zero_value limit ≡ true
        → AreCleared lengths xs
        → all (is_passed float server limit) xs ≡ true
    all_passed limit [] [] h clear = refl
    all_passed limit [] (x ∷ xs) h clear = absurd clear
    all_passed limit (n ∷ ns) [] h clear = absurd clear
    all_passed limit (n ∷ ns) (x ∷ xs) h ((at_n, same, exact), clear) =
        rw (same, exact, h) (all_passed limit ns xs h clear)

    -- Against a server that comes up within 900 polls, whose answers do not depend on its cache,
    -- whose cache is emptied by a flush and reuses the first 1024 tokens that a later prompt
    -- shares, with a finite limit that is not negative and all lengths in range, the sweep of the
    -- cache boundaries passes, and reports for each length, in order, the same tokens and a
    -- distance of zero.
    pub run-AreCleared :
        (limit : F) (prefixes : List ℕ) (s : State) (k : ℕ)
        → is_finite limit ≡ true
        → le zero_value limit ≡ true
        → All IsInRange (lengths_of prefixes)
        → k < 900
        → IsFirstUp server k s
        → (xs : List (Boundary F)) × (t : State) × (run float server limit prefixes s ≡ gives xs t)
          × AreCleared (lengths_of prefixes) xs
    unfolding run
    run-AreCleared limit prefixes s k fin h range l up =
        let s1 = polled server (suc k) s in
        let (xs, t, e, clear) = sweep-AreCleared (lengths_of prefixes) s1 range in
        (
          xs,
          t,
          followed-next _ (check-true s (&&-intro fin h))
              ∙ followed-next _ (wait_healthy-IsFirstUp server 900 k s l up)
              ∙ followed-next _ (check-true s1 (All-all _ (lengths_of prefixes) range))
              ∙ followed-next _ e
              ∙ followed-next _ (check-true t (all_passed limit (lengths_of prefixes) xs h clear)),
          clear,
        )
