-- ===== src/Bench/Boundaries/Agreement.antt =====
-- What a sweep of glm53-cache-boundaries.py that passes says of the server.
use nix_strix_halo.Prelude.{
  ℕ, ◌≤◌, ◌≡◌, sym, subst, ◌∙◌, true, ◌&&◌, Option, none, some, List, [], ◌∷◌, ◌++◌, arith, All,
  all, all-All, all-cons, All-split, &&-both, length, ltb, ◌==◌, ==_iff,
}
use nix_strix_halo.Prelude.Text.{text_eq, text_eq_iff}
use nix_strix_halo.Bench.Script.{gives, followed-gives, check, check-gives}
use nix_strix_halo.Bench.Server.{
  Float, Generated, Server, answered-gives, flushed-gives, flush_cache, generate, wait_healthy,
}
use nix_strix_halo.Bench.Numbers.{max_distance, value_of, IsClose, max_distance-IsClose}
use nix_strix_halo.Bench.Boundaries.{
  Boundary, original, branch_of, are_comparable, is_reused, judged, boundary, sweep, run, is_passed,
  lengths_of,
}

module _ (float : Float) (server : Server float.F) where
  open float use {F, le, is_finite}
  open server use {State}

  -- Two answers to the prompt that keeps `common` tokens: the first in a state after the original
  -- prompt was answered, the second after a flush that follows the first.
  pub record IsAgreed (limit : F) (common : ℕ) : Type 0 where
    pub warm : State
    pub used : State
    pub fresh_state : State
    pub after : State
    pub cached : Generated F
    pub fresh : Generated F
    pub first_answer : server.generate (branch_of common) 16 warm ≡ (some cached, used)
    pub flush_between : server.flush used ≡ (true, fresh_state)
    pub second_answer : server.generate (branch_of common) 16 fresh_state ≡ (some fresh, after)
    pub no_reuse : fresh.cached_tokens ≡ 0
    pub reuse : 1_024 ≤ common → 1_024 ≤ cached.cached_tokens
    pub sixteen : length cached.logprobs ≡ 16
    pub same_ids : cached.output_ids ≡ fresh.output_ids
    pub close : IsClose float limit cached.logprobs fresh.logprobs

  -- The asserts and the result of a round, read backwards.
  abbrev IsJudged : ℕ → Generated F → Generated F → Boundary F → Type 0
  IsJudged common cached fresh x =
      (are_comparable float server cached.logprobs fresh.logprobs ≡ true)
      × ((fresh.cached_tokens == 0) ≡ true)
      × (is_reused float server common cached ≡ true)
      × (x.same_ids ≡ text_eq cached.output_ids fresh.output_ids)
      × (max_distance float cached.logprobs fresh.logprobs ≡ some x.max_abs_logprob_delta)

  value_of-gives :
      {S A : Type 0} (o : Option A) (s : S) {a : A} {t : S}
      → value_of float o s ≡ gives a t
      → o ≡ some a
  value_of-gives none s h = cc
  value_of-gives (some a) s h = cc

  judged-IsJudged :
      (common : ℕ) (cached fresh : Generated F) (s : State) (x : Boundary F) (t : State)
      → judged float server common cached fresh s ≡ gives x t
      → IsJudged common cached fresh x
  unfolding judged
  judged-IsJudged common cached fresh s x t h =
      let (_, s1, c1, r1) = followed-gives (check _ s) _ h in
      let (_, s2, c2, r2) = followed-gives (check _ s1) _ r1 in
      let (_, s3, c3, r3) = followed-gives (check _ s2) _ r2 in
      let (delta, s4, c4, r4) = followed-gives (value_of float _ s3) _ r3 in
      (
        (check-gives _ c1).0,
        (check-gives _ c2).0,
        (check-gives _ c3).0,
        cc,
        (value_of-gives _ s3 c4) ∙ cc,
      )

  comparable-finite :
      (a b : List F)
      → are_comparable float server a b ≡ true
      → (length a ≡ 16) × (All (λ x. is_finite x ≡ true) a × All (λ x. is_finite x ≡ true) b)
  unfolding are_comparable
  comparable-finite a b h =
      let (counts, finite) = &&-both (length a == length b && length b == 16) _ h in
      let (same, sixteen) = &&-both (length a == length b) _ counts in
      (
        (==_iff _ _).0 same ∙ (==_iff _ _).0 sixteen,
        All-split (λ x. is_finite x ≡ true) a b (all-All is_finite (a ++ b) finite),
      )

  is_reused-le :
      (common : ℕ) (cached : Generated F)
      → is_reused float server common cached ≡ true
      → 1_024 ≤ common
      → 1_024 ≤ cached.cached_tokens
  unfolding is_reused
  is_reused-le common cached h l = ground arith

  boundary-IsAgreed :
      (limit : F) (common : ℕ) (s : State) (x : Boundary F) (t : State)
      → boundary float server common s ≡ gives x t
      → is_passed float server limit x ≡ true
      → IsAgreed limit common
  unfolding boundary
  boundary-IsAgreed limit common s x t h passed =
      let (_, s1, c1, r1) = followed-gives (flush_cache server s) _ h in
      let (_, s2, c2, r2) = followed-gives (generate server original 8 s1) _ r1 in
      let (cached, s3, c3, r3) = followed-gives (generate server (branch_of common) 16 s2) _ r2 in
      let (_, s4, c4, r4) = followed-gives (flush_cache server s3) _ r3 in
      let (fresh, s5, c5, r5) = followed-gives (generate server (branch_of common) 16 s4) _ r4 in
      let (lists, none_cached, reused, ids, delta) =
        judged-IsJudged common cached fresh s5 x t r5 in
      agreed s2 s3 s4 s5 cached fresh (answered-gives _ c3) (flushed-gives _ c4)
        (answered-gives _ c5) lists none_cached reused ids delta
    where
      agreed :
          (s2 s3 s4 s5 : State) (cached fresh : Generated F)
          → server.generate (branch_of common) 16 s2 ≡ (some cached, s3)
          → server.flush s3 ≡ (true, s4)
          → server.generate (branch_of common) 16 s4 ≡ (some fresh, s5)
          → are_comparable float server cached.logprobs fresh.logprobs ≡ true
          → (fresh.cached_tokens == 0) ≡ true
          → is_reused float server common cached ≡ true
          → x.same_ids ≡ text_eq cached.output_ids fresh.output_ids
          → max_distance float cached.logprobs fresh.logprobs ≡ some x.max_abs_logprob_delta
          → IsAgreed limit common
      agreed s2 s3 s4 s5 cached fresh first between second lists none_cached reused ids delta =
          let (same, small) = &&-both x.same_ids _ passed in
          let (counts, finite) = comparable-finite cached.logprobs fresh.logprobs lists in
          record {
            warm = s2;
            used = s3;
            fresh_state = s4;
            after = s5;
            cached = cached;
            fresh = fresh;
            first_answer = first;
            flush_between = between;
            second_answer = second;
            no_reuse = (==_iff _ _).0 none_cached;
            reuse = is_reused-le common cached reused;
            sixteen = counts;
            same_ids = (text_eq_iff _ _).0 (sym ids ∙ same);
            close =
                max_distance-IsClose float limit x.max_abs_logprob_delta cached.logprobs
                  fresh.logprobs finite.0 finite.1 delta small;
          }

  -- Where the sweep passes, every length was answered alike before and after a flush.
  pub sweep-IsAgreed :
      (limit : F) (lengths : List ℕ) (s : State) (results : List (Boundary F)) (t : State)
      → sweep float server lengths s ≡ gives results t
      → all (is_passed float server limit) results ≡ true
      → All (IsAgreed limit) lengths
  unfolding sweep
  sweep-IsAgreed limit [] s results t h passed = tt
  sweep-IsAgreed limit (common ∷ lengths) s results t h passed =
      let (x, s1, c1, r1) = followed-gives (boundary float server common s) _ h in
      let (xs, s2, c2, r2) = followed-gives (sweep float server lengths s1) _ r1 in
      let made : x ∷ xs ≡ results = cc in
      let each : all (is_passed float server limit) (x ∷ xs) ≡ true =
        subst (λ rs. all (is_passed float server limit) rs ≡ true) (sym made) passed in
      let (first, rest) = all-cons (is_passed float server limit) x xs each in
      (
        boundary-IsAgreed limit common s x s1 c1 first,
        sweep-IsAgreed limit lengths s1 xs s2 c2 rest,
      )

  -- Where the sweep of the cache boundaries passes, the server gave for every length, to the same
  -- prompt, before and right after a flush, two answers with the same tokens and sixteen
  -- log-probabilities that lie pairwise within the limit, the second without reuse, and the first
  -- with at least 1024 reused tokens where the common prefix has as many.
  pub run-IsAgreed :
      (limit : F) (prefixes : List ℕ) (s : State) (results : List (Boundary F)) (t : State)
      → run float server limit prefixes s ≡ gives results t
      → All (IsAgreed limit) (lengths_of prefixes)
  unfolding run
  run-IsAgreed limit prefixes s results t h =
      let (_, s1, c1, r1) =
        followed-gives (check (is_finite limit && le float.zero_value limit) s) _ h in
      let (_, s2, c2, r2) = followed-gives (wait_healthy server 900 s1) _ r1 in
      let (_, s3, c3, r3) =
        followed-gives
          (check (all (λ n. ltb 0 n && ltb n (length original)) (lengths_of prefixes)) s2) _ r2 in
      let (xs, s4, c4, r4) = followed-gives (sweep float server (lengths_of prefixes) s3) _ r3 in
      let (_, s5, c5, r5) =
        followed-gives (check (all (is_passed float server limit) xs) s4) _ r4 in
      sweep-IsAgreed limit (lengths_of prefixes) s3 xs s4 c4 (check-gives _ c5).0
