-- ===== src/Bench/ContextCache/Phases.antt =====
-- What a run of glm53-context-cache.py that passes says of the server's cold and warm answers.
use nix_strix_halo.Prelude.{
  ℕ, ◌+◌, ◌-◌, ◌≤◌, ◌≡◌, refl, sym, subst, ◌∙◌, Bool, true, ◌&&◌, Option, none, some, arith, leb,
  ltb, leb→le, ltb→lt, ◌==◌, ==_iff, &&-both, ap,
}
use nix_strix_halo.Prelude.Text.{Text, codes, text_eq, text_eq_iff, strip}
use nix_strix_halo.Bench.Script.{
  gives, followed, followed-gives, followed-check, gives-value, gives-state, ◌>>◌, check, finish,
}
use nix_strix_halo.Bench.Server.{flushed, answered, answered-gives}
use nix_strix_halo.Bench.ContextCache.{
  Chat, Completion, Comparable, Phase, cold, warm, optional_eq, is_same, is_loaded, cached_of,
  tokenize, fit, agrees, is_cached_as_expected, answer_in, run,
}

optional_eq_sound : (a b : Option Text) → optional_eq a b ≡ true → a ≡ b
optional_eq_sound none none h = refl
optional_eq_sound none (some t) h = cc
optional_eq_sound (some s) none h = cc
optional_eq_sound (some s) (some t) h = ap some ((text_eq_iff s t).0 h)

-- Both answers are made from the same content and reasoning.
is_same_sound :
    (a b : Comparable) → is_same a b ≡ true → (a.answer ≡ b.answer) × (a.reasoning ≡ b.reasoning)
unfolding is_same
is_same_sound a b h =
    let (p, q) = &&-both (text_eq a.answer b.answer) _ h in
    ((text_eq_iff _ _).0 p, optional_eq_sound a.reasoning b.reasoning q)

module _ (chat : Chat) where
  open chat use {State}

  -- An answer that passed the asserts of its phase.
  pub record IsAccepted (expect_cache : Bool) (messages : Text) (prompt_tokens reserve : ℕ)
      (phase : Phase) (s t : State) (c : Completion) : Type 0 where
    pub made : chat.complete messages reserve s ≡ (some c, t)
    pub stopped : c.finish_reason ≡ codes "stop"
    pub retrieved : is_loaded (chat.loads (strip c.content)) ≡ true
    pub tokens : c.prompt_tokens ≡ prompt_tokens
    pub cache : is_cached_as_expected chat expect_cache phase (cached_of c) prompt_tokens ≡ true

  abbrev comparable_of : Completion → Comparable
  comparable_of c = record { answer = strip c.content; reasoning = c.reasoning_content }

  answer_in-IsAccepted :
      (expect_cache : Bool) (messages : Text) (prompt_tokens reserve : ℕ) (phase : Phase)
      (previous : Option Comparable) (s : State) (now : Comparable) (t : State)
      → answer_in chat expect_cache messages prompt_tokens reserve phase previous s ≡ gives now t
      → (c : Completion) × IsAccepted expect_cache messages prompt_tokens reserve phase s t c
        × (comparable_of c ≡ now)
        × (agrees chat previous now ≡ true)
  unfolding answer_in
  answer_in-IsAccepted expect_cache messages prompt_tokens reserve phase previous s now t h =
      let (c, u, sent, r) = followed-gives (answered (chat.complete messages reserve s)) _ h in
      accepted c u (answered-gives _ sent) r
    where
      accepted :
          (c : Completion) (u : State)
          → chat.complete messages reserve s ≡ (some c, u)
          → followed (check (text_eq c.finish_reason (codes "stop")) u) (λ _.
            check (is_loaded (chat.loads (strip c.content)))
            >> (check (c.prompt_tokens == prompt_tokens)
                >> (check
                      (is_cached_as_expected chat expect_cache phase (cached_of c) prompt_tokens)
                    >> (check (agrees chat previous (comparable_of c))
                        >> finish (comparable_of c)))))
            ≡ gives now t
          → (c : Completion) × IsAccepted expect_cache messages prompt_tokens reserve phase s t c
            × (comparable_of c ≡ now)
            × (agrees chat previous now ≡ true)
      accepted c u sent r =
          let (e1, r1) = followed-check (text_eq c.finish_reason (codes "stop")) u _ r in
          let (e2, r2) = followed-check (is_loaded (chat.loads (strip c.content))) u _ r1 in
          let (e3, r3) = followed-check (c.prompt_tokens == prompt_tokens) u _ r2 in
          let (e4, r4) =
            followed-check
              (is_cached_as_expected chat expect_cache phase (cached_of c) prompt_tokens) u _ r3 in
          let (e5, r5) = followed-check (agrees chat previous (comparable_of c)) u _ r4 in
          let same : comparable_of c ≡ now = gives-value r5 in
          (
            c,
            record {
              made = sent ∙ ap (λ v. (some c, v)) (gives-state r5);
              stopped = (text_eq_iff _ _).0 e1;
              retrieved = e2;
              tokens = (==_iff _ _).0 e3;
              cache = e4;
            },
            same,
            subst (λ n. agrees chat previous n ≡ true) same e5,
          )

  -- A run that passed, with the state in which the cold answer was asked for.
  pub record IsPassed (context reserve : ℕ) (expect_cache : Bool) (lo prompt_tokens : ℕ) (t : State)
      : Type 0 where
    pub messages : Text
    pub before : State
    pub after : State
    pub start : State
    pub between : State
    pub first : Completion
    pub second : Completion
    pub measured : tokenize chat lo before ≡ gives (messages, prompt_tokens) after
    pub within : prompt_tokens + reserve ≤ context
    pub near : context ≤ prompt_tokens + reserve + 64
    pub cold_answer :
        IsAccepted expect_cache messages prompt_tokens reserve cold start between first
    pub warm_answer : IsAccepted expect_cache messages prompt_tokens reserve warm between t second
    pub same_content : strip first.content ≡ strip second.content
    pub same_reasoning : first.reasoning_content ≡ second.reasoning_content

  -- A run of glm53-context-cache.py that passes measured the prompt of the reported number of
  -- records, its tokens and the reserve fill the context up to at most 64 tokens, and its cold and
  -- its warm answer, one right after the other, have the same content and reasoning, stop by
  -- themselves, hold the expected markers, count the same prompt tokens, and reuse the cache as
  -- expected.
  pub run-IsPassed :
      (fuel context reserve : ℕ) (expect_cache : Bool) (s : State) (lo prompt_tokens : ℕ)
      (t : State)
      → run chat fuel context reserve expect_cache s ≡ gives (lo, prompt_tokens) t
      → IsPassed context reserve expect_cache lo prompt_tokens t
  unfolding run
  run-IsPassed fuel context reserve expect_cache s lo prompt_tokens t h =
      let (e1, r1) = followed-check (ltb 0 reserve && ltb reserve context) s _ h in
      let (l, s2, c2, r2) = followed-gives (fit chat fuel (context - reserve) s) _ r1 in
      let (m, s3, c3, r3) = followed-gives (tokenize chat l s2) _ r2 in
      let (e4, r4) =
        followed-check (leb (context - reserve) (m.1 + 64) && leb m.1 (context - reserve)) s3 _
          r3 in
      let (_, s5, c5, r5) = followed-gives (flushed (chat.flush s3)) _ r4 in
      let (a, s6, c6, r6) =
        followed-gives (answer_in chat expect_cache m.0 m.1 reserve cold none s5) _ r5 in
      let (b, s7, c7, r7) =
        followed-gives (answer_in chat expect_cache m.0 m.1 reserve warm (some a) s6) _ r6 in
      passed e1 l m.0 m.1 s2 s3 s5 s6 a b c3 e4 c6
        (subst (λ v. answer_in chat expect_cache m.0 m.1 reserve warm (some a) s6 ≡ gives b v)
          (gives-state r7) c7)
        (ap (λ p. p.0) (gives-value r7)) (ap (λ p. p.1) (gives-value r7))
    where
      passed :
          (ltb 0 reserve && ltb reserve context) ≡ true
          → (l : ℕ) (messages : Text) (n : ℕ) (before after start between : State)
            (a b : Comparable)
          → tokenize chat l before ≡ gives (messages, n) after
          → (leb (context - reserve) (n + 64) && leb n (context - reserve)) ≡ true
          → answer_in chat expect_cache messages n reserve cold none start ≡ gives a between
          → answer_in chat expect_cache messages n reserve warm (some a) between ≡ gives b t
          → l ≡ lo
          → n ≡ prompt_tokens
          → IsPassed context reserve expect_cache lo prompt_tokens t
      passed room l messages n before after start between a b sized bounds go_cold go_warm at_lo e =
          let (_, below) = &&-both (ltb 0 reserve) _ room in
          let (near, within) = &&-both (leb (context - reserve) (n + 64)) _ bounds in
          let less = ltb→lt reserve context below in
          let near' = leb→le (context - reserve) (n + 64) near in
          let within' = leb→le n (context - reserve) within in
          let (c, ok, made, _) =
            answer_in-IsAccepted expect_cache messages n reserve cold none start a between
              go_cold in
          let (d, okay, done, agree) =
            answer_in-IsAccepted expect_cache messages n reserve warm (some a) between b t
              go_warm in
          let (content, reasoning) = is_same_sound b a agree in
          record {
            messages = messages;
            before = before;
            after = after;
            start = start;
            between = between;
            first = c;
            second = d;
            measured =
                subst (λ k. tokenize chat k before ≡ gives (messages, prompt_tokens) after) at_lo
                  (subst (λ k. tokenize chat l before ≡ gives (messages, k) after) e sized);
            within = omega (arith, e);
            near = omega (arith, e);
            cold_answer =
                subst (λ k. IsAccepted expect_cache messages k reserve cold start between c) e ok;
            warm_answer =
                subst (λ k. IsAccepted expect_cache messages k reserve warm between t d) e okay;
            same_content = ap (λ x. x.answer) made ∙ sym content ∙ sym (ap (λ x. x.answer) done);
            same_reasoning =
                ap (λ x. x.reasoning) made ∙ sym reasoning ∙ sym (ap (λ x. x.reasoning) done);
          }
