-- ===== src/Bench/Consistency/Verdict.antt =====
-- The exit code 0 of glm53-consistency.py, and what it says of the server.
use nix_strix_halo.Prelude.{
  ℕ, ◌+◌, ◌≡◌, refl, ap, ◌∙◌, true, ◌&&◌, Option, none, some, List, [], ◌∷◌, ◌++◌, arith,
  if◌then◌else◌, ltb, ◌==◌, ==_iff, length, drop, All, all, all-All, &&-both, Bool-cases, inl, inr,
}
use nix_strix_halo.Prelude.Text.{Text, text_eq, text_eq_iff}
use nix_strix_halo.Bench.Script.{gives, followed-gives, followed-check, gives-value}
use nix_strix_halo.Bench.Server.{Float, answered, flushed, answered-gives, flushed-gives}
use nix_strix_halo.Bench.Numbers.{distances, largest, value_of, IsClose, largest-IsClose}
use nix_strix_halo.Bench.Consistency.{
  Item, Decoded, Scored, Scorer, Report, Limits, prompts, is_empty, tokens_of, logprobs_of,
  differences, is_passed, compared, try_prompt, try_prompts, exit_code, main,
}
use nix_strix_halo.Bench.Consistency.First.{AreFirst, differences-AreFirst}

module _ (float : Float) (scorer : Scorer float.F) where
  open float use {F, le, is_finite, IsNumber}
  open scorer use {State}

  -- The two answers to a prompt: the decoded one, and the score of its own tokens after a flush.
  pub record IsConsistent (limits : Limits F) (prompt : Text) : Type 0 where
    pub start : State
    pub used : State
    pub emptied : State
    pub after : State
    pub decoded : Decoded F
    pub scored : Scored F
    pub decodes : scorer.decode prompt limits.tokens start ≡ (some decoded, used)
    pub flush_between : scorer.flush used ≡ (true, emptied)
    pub scores :
        scorer.score
          (tokens_of float scorer decoded.input_items
            ++ tokens_of float scorer decoded.output_items)
          emptied
        ≡ (some scored, after)
    pub forced :
        tokens_of float scorer
          (drop (length (tokens_of float scorer decoded.input_items)) scored.input_items)
        ≡ tokens_of float scorer decoded.output_items
    pub fresh_decode : decoded.cached_tokens ≡ 0
    pub fresh_score : scored.cached_tokens ≡ 0
    pub all_tokens : length decoded.output_items ≡ limits.tokens
    pub close : IsClose float limits.max_limit (logprobs_of float scorer decoded.output_items) (
        logprobs_of float scorer
          (drop (length (tokens_of float scorer decoded.input_items)) scored.input_items))
    pub deltas : List F
    pub distances_are :
        distances float (logprobs_of float scorer decoded.output_items) (
          logprobs_of float scorer
            (drop (length (tokens_of float scorer decoded.input_items)) scored.input_items))
        ≡ some deltas
    pub mean_below : le (scorer.mean deltas) limits.mean_limit ≡ true
    pub first_choices :
        AreFirst
          (tokens_of float scorer decoded.output_items)
          (drop (length (tokens_of float scorer decoded.input_items)) scored.top_items)

  value_of-some :
      {A : Type 0} (o : Option A) (s : State) {a : A} {t : State}
      → value_of float o s ≡ gives a t
      → o ≡ some a
  value_of-some none s h = cc
  value_of-some (some a) s h = cc

  abbrev prefilled_of : Decoded F → Scored F → List (Item F)
  prefilled_of g sc = drop (length (tokens_of float scorer g.input_items)) sc.input_items

  -- What a report that passed says of the two answers.
  abbrev IsGood : Limits F → Decoded F → Scored F → Type 0
  IsGood limits g sc =
      (tokens_of float scorer (prefilled_of g sc) ≡ tokens_of float scorer g.output_items)
      × IsClose float limits.max_limit (logprobs_of float scorer g.output_items)
          (logprobs_of float scorer (prefilled_of g sc))
      × AreFirst (tokens_of float scorer g.output_items)
          (drop (length (tokens_of float scorer g.input_items)) sc.top_items)
      × (g.cached_tokens ≡ 0)
      × (sc.cached_tokens ≡ 0)
      × (deltas : List F) × (distances float (logprobs_of float scorer g.output_items)
            (logprobs_of float scorer (prefilled_of g sc))
          ≡ some deltas)
      × (le (scorer.mean deltas) limits.mean_limit ≡ true)

  is_empty_sound : {A : Type 0} (xs : List A) → is_empty xs ≡ true → xs ≡ []
  is_empty_sound [] h = refl
  is_empty_sound (x ∷ xs) h = cc

  compared-IsGood :
      (limits : Limits F) (g : Decoded F) (sc : Scored F) (s : State) {r : Report F} {t : State}
      → compared float scorer limits g sc s ≡ gives r t
      → r.passed ≡ true
      → IsGood limits g sc
  unfolding compared
  compared-IsGood limits g sc s {r} h ok =
      let input = length (tokens_of float scorer g.input_items) in
      let (same, r1) =
        followed-check
          (text_eq (tokens_of float scorer (prefilled_of g sc))
            (tokens_of float scorer g.output_items))
          s _ h in
      let (fresh_g, r2) = followed-check (g.cached_tokens == 0) s _ r1 in
      let (fresh_sc, r3) = followed-check (sc.cached_tokens == 0) s _ r2 in
      let (deltas, s4, c4, r4) =
        followed-gives
          (value_of float
            (distances float (logprobs_of float scorer g.output_items)
              (logprobs_of float scorer (prefilled_of g sc)))
            s)
          _ r3 in
      let (finite, r5) = followed-check (all is_finite deltas) s4 _ r4 in
      let (maximum, s6, c6, r6) = followed-gives (value_of float (largest float deltas) s4) _ r5 in
      let (ds, s7, c7, r7) =
        followed-gives
          (value_of float
            (differences float scorer 0 (tokens_of float scorer g.output_items)
              (drop input sc.top_items))
            s6)
          _ r6 in
      let passed : is_passed float scorer limits maximum (scorer.mean deltas) ds ≡ true =
        ap (λ x. x.passed) (gives-value r7) ∙ ok in
      let (both, none_differ) =
        &&-both (le maximum limits.max_limit && le (scorer.mean deltas) limits.mean_limit) _
          passed in
      let (small, mean) = &&-both (le maximum limits.max_limit) _ both in
      let empty = is_empty_sound ds none_differ in
      (
        (text_eq_iff _ _).0 same,
        largest-IsClose float limits.max_limit maximum _ _ deltas (value_of-some _ s c4)
            (numbers deltas (all-All is_finite deltas finite)) (value_of-some _ s4 c6) small,
        differences-AreFirst float scorer 0 _ _ (value_of-some _ s6 c7 ∙ ap some empty),
        (==_iff g.cached_tokens 0).0 fresh_g,
        (==_iff sc.cached_tokens 0).0 fresh_sc,
        deltas,
        value_of-some _ s c4,
        mean,
      )
    where
      numbers : (ds : List F) → All (λ d. is_finite d ≡ true) ds → All IsNumber ds
      numbers [] h = tt
      numbers (d ∷ ds) (h, hs) = (float.finite_number d h, numbers ds hs)

  try_prompt-IsConsistent :
      (limits : Limits F) (index : ℕ) (prompt : Text) (s : State) {r : Report F} {t : State}
      → try_prompt float scorer limits index prompt s ≡ gives r t
      → r.passed ≡ true
      → IsConsistent limits prompt
  unfolding try_prompt
  try_prompt-IsConsistent limits index prompt s {r} {t} h ok =
      let (_, s1, c1, r1) = followed-gives (flushed (scorer.flush s)) _ h in
      let (g, s2, c2, r2) =
        followed-gives (answered (scorer.decode prompt limits.tokens s1)) _ r1 in
      let (_, r3) = followed-check (length g.input_items == g.prompt_tokens) s2 _ r2 in
      let (count, r4) = followed-check (length g.output_items == limits.tokens) s2 _ r3 in
      let (_, r5) =
        followed-check (if index == 1 then ltb 1_024 (length g.input_items) else true) s2 _ r4 in
      let (_, s6, c6, r6) = followed-gives (flushed (scorer.flush s2)) _ r5 in
      let (sc, s7, c7, r7) =
        followed-gives
          (answered (
            scorer.score
              (tokens_of float scorer g.input_items ++ tokens_of float scorer g.output_items) s6))
          _ r6 in
      let (forced, close, first, no_g, no_sc, deltas, distant, mean) =
        compared-IsGood limits g sc s7 r7 ok in
      record {
        start = s1;
        used = s2;
        emptied = s6;
        after = s7;
        decoded = g;
        scored = sc;
        decodes = answered-gives _ c2;
        flush_between = flushed-gives _ c6;
        scores = answered-gives _ c7;
        forced = forced;
        all_tokens = (==_iff _ _).0 count;
        close = close;
        fresh_decode = no_g;
        fresh_score = no_sc;
        deltas = deltas;
        distances_are = distant;
        mean_below = mean;
        first_choices = first;
      }

  exit_code-cons :
      (r : Report F) (rs : List (Report F))
      → exit_code float scorer (r ∷ rs) ≡ 0
      → (r.passed ≡ true) × (exit_code float scorer rs ≡ 0)
  exit_code-cons r rs h = elim (Bool-cases r.passed) [
    | inl e ↦ (e, rw e at h)
    | inr e ↦ let q = rw e at h in absurd (omega arith)
  ]

  try_prompts-IsConsistent :
      (limits : Limits F) (index : ℕ) (ps : List Text) (s : State) {rs : List (Report F)}
      {t : State}
      → try_prompts float scorer limits index ps s ≡ gives rs t
      → exit_code float scorer rs ≡ 0
      → All (IsConsistent limits) ps
  unfolding try_prompts
  try_prompts-IsConsistent limits index [] s h e = tt
  try_prompts-IsConsistent limits index (p ∷ ps) s {rs} h e =
      let (r, s1, c1, r1) = followed-gives (try_prompt float scorer limits index p s) _ h in
      let (rest, s2, c2, r2) =
        followed-gives (try_prompts float scorer limits (index + 1) ps s1) _ r1 in
      let (ok, others) = exit_code-cons r rest (ap (exit_code float scorer) (gives-value r2) ∙ e) in
      (
        try_prompt-IsConsistent limits index p s c1 ok,
        try_prompts-IsConsistent limits (index + 1) ps s1 c2 others,
      )

  -- Where glm53-consistency.py exits with 0, every prompt was decoded to the wanted number of
  -- tokens, and after a flush scored with its own tokens, without reuse in either answer, the
  -- log-probabilities pairwise within the one limit, their mean distance within the other, and the
  -- first choice of the prefill the decoded token at every position.
  pub main-IsConsistent :
      (limits : Limits F) (s t : State)
      → main float scorer limits s ≡ gives 0 t
      → All (IsConsistent limits) prompts
  unfolding main
  main-IsConsistent limits s t h =
      let (rs, s1, c1, r1) = followed-gives (try_prompts float scorer limits 0 prompts s) _ h in
      try_prompts-IsConsistent limits 0 prompts s c1 (gives-value r1)
