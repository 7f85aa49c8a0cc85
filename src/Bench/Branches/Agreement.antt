-- ===== src/Bench/Branches/Agreement.antt =====
-- What a run of glm53-cache-branches.py that passes says of the server.
use nix_strix_halo.Prelude.{
  ℕ, ◌/◌, ◌<◌, ◌≡◌, refl, ◌∙◌, true, ◌&&◌, List, [], ◌∷◌, ltb, ltb→lt, ◌==◌, ==_iff, length, All,
  &&-both,
}
use nix_strix_halo.Prelude.Text.{Text, codes}
use nix_strix_halo.Bench.Script.{gives, followed-gives, followed-check, gives-value, check-gives}
use nix_strix_halo.Bench.Server.{Float, Server, flushed-gives, flush_cache, wait_healthy}
use nix_strix_halo.Bench.Boundaries.{original}
use nix_strix_halo.Bench.Branches.{
  Branch, branches, appended, generate_eight, compare, control, identical, try_branch, try_branches,
  is_nil, run,
}
use nix_strix_halo.Bench.Branches.Pairs.{
  Pair, IsSamePair, IsFreshSecond, generate_eight-answer, compare-IsQuiet, same_of,
}

module _ (float : Float) (server : Server float.F) (limit : float.F) where
  open float use {F, le, is_finite}
  open server use {State}

  -- The control: two fresh answers agree.
  abbrev pub IsRepeatable : Type 0
  IsRepeatable =
      (p : Pair float server limit) × IsSamePair float server limit appended p
      × IsFreshSecond float server limit p
      × (p.first.cached_tokens ≡ 0)

  -- The same prompt again: a fresh answer, and one that reuses more than half of the prompt.
  abbrev pub IsRepeated : Type 0
  IsRepeated =
      (p : Pair float server limit) × IsSamePair float server limit original p
      × (p.used ≡ p.again)
      × (p.first.cached_tokens ≡ 0)
      × (length original / 2 < p.second.cached_tokens)

  control-IsSamePair :
      (s : State) {after : List Text} {t : State}
      → control float server limit s ≡ gives after t
      → after ≡ []
      → IsRepeatable
  unfolding control
  control-IsSamePair s {after} {t} h e =
      let (_, s1, c1, r1) = followed-gives (flush_cache server s) _ h in
      let (first, s2, c2, r2) =
        followed-gives (generate_eight float server limit appended s1) _ r1 in
      let (_, s3, c3, r3) = followed-gives (flush_cache server s2) _ r2 in
      let (second, s4, c4, r4) =
        followed-gives (generate_eight float server limit appended s3) _ r3 in
      let (counts, r5) =
        followed-check (first.cached_tokens == second.cached_tokens && second.cached_tokens == 0) s4
          _ r4 in
      let (a, n) = generate_eight-answer float server limit appended s1 c2 in
      let (b, _) = generate_eight-answer float server limit appended s3 c4 in
      let (equal, none_used) = &&-both (first.cached_tokens == second.cached_tokens) _ counts in
      let zero_used = (==_iff second.cached_tokens 0).0 none_used in
      let (_, calm) =
        compare-IsQuiet float server limit (codes "fresh-repeat-control") first second [] s4 r5 in
      let p : Pair float server limit = record {
        before = s1;
        used = s2;
        again = s3;
        after = s4;
        first = first;
        second = second;
      } in
      (
        p,
        same_of float server limit appended p [] a b n (calm e),
        (flushed-gives _ c3, zero_used),
        (==_iff first.cached_tokens second.cached_tokens).0 equal ∙ zero_used,
      )

  identical-IsSamePair :
      (failures : List Text) (s : State) {after : List Text} {t : State}
      → identical float server limit failures s ≡ gives after t
      → after ≡ []
      → (failures ≡ []) × IsRepeated
  unfolding identical
  identical-IsSamePair failures s {after} {t} h e =
      let (_, s1, c1, r1) = followed-gives (flush_cache server s) _ h in
      let (cold, s2, c2, r2) =
        followed-gives (generate_eight float server limit original s1) _ r1 in
      let (warm, s3, c3, r3) =
        followed-gives (generate_eight float server limit original s2) _ r2 in
      let (left, s4, c4, r4) =
        followed-gives (compare float server limit (codes "identical") cold warm failures s3) _
          r3 in
      let (counts, r5) =
        followed-check (cold.cached_tokens == 0 && ltb (length original / 2) warm.cached_tokens) s4
          _ r4 in
      let (none_used, reused) = &&-both (cold.cached_tokens == 0) _ counts in
      let (a, n) = generate_eight-answer float server limit original s1 c2 in
      let (b, _) = generate_eight-answer float server limit original s2 c3 in
      let (_, calm) =
        compare-IsQuiet float server limit (codes "identical") cold warm failures s3 c4 in
      let agreed = calm (gives-value r5 ∙ e) in
      let p : Pair float server limit = record {
        before = s1;
        used = s2;
        again = s2;
        after = s3;
        first = cold;
        second = warm;
      } in
      (
        agreed.0,
        (
          p,
          same_of float server limit original p failures a b n agreed,
          refl,
          (==_iff cold.cached_tokens 0).0 none_used,
          ltb→lt (length original / 2) warm.cached_tokens reused,
        ),
      )

  abbrev pub IsReused : List ℕ → Type 0
  IsReused prompt =
      (p : Pair float server limit) × IsSamePair float server limit prompt p
      × IsFreshSecond float server limit p
      × (0 < p.first.cached_tokens)

  try_branch-IsReused :
      (branch : Branch) (failures : List Text) (s : State) {after : List Text} {t : State}
      → try_branch float server limit branch failures s ≡ gives after t
      → after ≡ []
      → (failures ≡ []) × IsReused branch.prompt
  unfolding try_branch
  try_branch-IsReused branch failures s {after} {t} h e =
      let (cached, s1, c1, r1) =
        followed-gives (generate_eight float server limit branch.prompt s) _ h in
      let (_, s2, c2, r2) = followed-gives (flush_cache server s1) _ r1 in
      let (fresh, s3, c3, r3) =
        followed-gives (generate_eight float server limit branch.prompt s2) _ r2 in
      let (left, s4, c4, r4) =
        followed-gives (compare float server limit branch.label cached fresh failures s3) _ r3 in
      let (counts, r5) =
        followed-check (ltb 0 cached.cached_tokens && fresh.cached_tokens == 0) s4 _ r4 in
      let (_, s6, c6, r6) = followed-gives (generate_eight float server limit original s4) _ r5 in
      let (used, none_used) = &&-both (ltb 0 cached.cached_tokens) _ counts in
      let (a, n) = generate_eight-answer float server limit branch.prompt s c1 in
      let (b, _) = generate_eight-answer float server limit branch.prompt s2 c3 in
      let (_, calm) = compare-IsQuiet float server limit branch.label cached fresh failures s3 c4 in
      let agreed = calm (gives-value r6 ∙ e) in
      let p : Pair float server limit = record {
        before = s;
        used = s1;
        again = s2;
        after = s3;
        first = cached;
        second = fresh;
      } in
      (
        agreed.0,
        (
          p,
          same_of float server limit branch.prompt p failures a b n agreed,
          (flushed-gives _ c2, (==_iff fresh.cached_tokens 0).0 none_used),
          ltb→lt 0 cached.cached_tokens used,
        ),
      )

  try_branches-IsReused :
      (bs : List Branch) (failures : List Text) (s : State) {after : List Text} {t : State}
      → try_branches float server limit bs failures s ≡ gives after t
      → after ≡ []
      → (failures ≡ []) × All (λ b. IsReused b.prompt) bs
  unfolding try_branches
  try_branches-IsReused [] failures s h e = (gives-value h ∙ e, tt)
  try_branches-IsReused (b ∷ bs) failures s h e =
      let (left, s1, c1, r1) = followed-gives (try_branch float server limit b failures s) _ h in
      let (empty, rest) = try_branches-IsReused bs left s1 r1 e in
      let (none_before, first) = try_branch-IsReused b failures s c1 empty in
      (none_before, (first, rest))

  is_nil_sound : (ts : List Text) → is_nil float server limit ts ≡ true → ts ≡ []
  is_nil_sound [] h = refl
  is_nil_sound (t ∷ ts) h = cc

  -- Where glm53-cache-branches.py passes, the control, the repeated prompt and each of the three
  -- branches had two answers with eight log-probabilities, the same tokens and a largest distance
  -- below the limit; the second answer of the control and of the branches came right after a flush
  -- and reused nothing, the first of a branch reused some tokens, and the repeated prompt more than
  -- half of them.
  pub run-AreSame :
      (s t : State)
      → run float server limit s ≡ gives tt t
      → IsRepeatable × IsRepeated × All (λ b. IsReused b.prompt) branches
  unfolding run
  run-AreSame s t h =
      let (_, s1, c1, r1) = followed-gives (wait_healthy server 180 s) _ h in
      let (first, s2, c2, r2) = followed-gives (control float server limit s1) _ r1 in
      let (second, s3, c3, r3) = followed-gives (identical float server limit first s2) _ r2 in
      let (third, s4, c4, r4) =
        followed-gives (try_branches float server limit branches second s3) _ r3 in
      let (none_left, _) = check-gives (is_nil float server limit third) r4 in
      let (none_second, reused) =
        try_branches-IsReused branches second s3 c4 (is_nil_sound third none_left) in
      let (none_first, repeated) = identical-IsSamePair first s2 c3 none_second in
      (control-IsSamePair s1 c2 none_first, repeated, reused)
