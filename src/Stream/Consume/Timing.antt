-- ===== src/Stream/Consume/Timing.antt =====
-- The times of a successful request, under a clock that does not go back.
use nix_strix_halo.Prelude.{
  ℕ, ◌+◌, ◌≤◌, ◌≡◌, subst, ap, ◌∙◌, ◌↔◌, inl, inr, none, some, List, [], ◌∷◌, arith, Bool-cases,
  Option-cases,
}
use nix_strix_halo.Prelude.Text.{Text, codes}
use nix_strix_halo.Json.{iterated, Json, object, Items, nil, cons, Fields, is_truthy}
use nix_strix_halo.Stream.Consume.Done.{Visit-cases, stopped-done, finish-succeeded}
use nix_strix_halo.Stream.Consume.{
  Runtime, Line, ignored, done, malformed, event, Loop, saw_done, proceed, stopped, goes_on,
  visit_line, get_or_null, is_none, read_line, visit_event, visit_choice, visit_choices, read_lines,
  add_piece, take_usage, choices_of, initial, finish, consume_stream, complete, Success, succeeded,
  text_bytes_of, success_of,
}

-- The times of the row that is built from a loop's end.
pub record IsConsistent (start : ℕ) (r : Success) : Type 0 where
  pub lasting : start + r.duration ≡ r.end_time
  pub first : (t : ℕ) → r.ttft ≡ some t → t ≤ r.duration
  pub parts : (t d : ℕ) → r.ttft ≡ some t → r.decode ≡ some d → t + d ≡ r.duration
  pub both : (r.ttft ≡ none) ↔ (r.decode ≡ none)

module _ (runtime : Runtime) (monotone : (i : ℕ) → runtime.clock i ≤ runtime.clock (i + 1))
    (start : ℕ) where
  -- The first token came between the start and the next reading.
  record IsTimed (s : Loop) : Type 0 where
    started : start ≤ runtime.clock s.readings
    token : (t : ℕ) → s.first_token ≡ some t → (start ≤ t) × (t ≤ runtime.clock s.readings)

  add_piece-IsTimed : (piece : Json) (s : Loop) → IsTimed s → IsTimed (add_piece runtime piece s)
  add_piece-IsTimed piece s h = elim (Option-cases s.first_token) [
    | inl e ↦ record {
      started = ground (arith, monotone s.readings, h.started);
      token = λ t k. ground (arith, monotone s.readings, h.started);
    }
    | inr (t, e) ↦ record {
      started = ground (arith, h.started);
      token = λ u k. ground (arith, h.token t, h.started);
    }
  ]

  visit_choice-IsTimed :
      (choice : Json) (s s' : Loop)
      → visit_choice runtime choice s ≡ some s'
      → IsTimed s
      → IsTimed s'
  unfolding visit_choice
  visit_choice-IsTimed (object choice) s s' h timed =
      elim (Bool-cases (is_truthy (get_or_null (codes "text") choice))) [
        | inl e ↦
            let piece = get_or_null (codes "text") choice in
            subst IsTimed (cc (rw e at h)) (add_piece-IsTimed piece s timed)
        | inr e ↦ subst IsTimed (cc (rw e at h)) timed
      ]
  visit_choice-IsTimed _ s s' h timed = cc

  visit_choices-IsTimed :
      (choices : Items) (s s' : Loop)
      → visit_choices runtime choices s ≡ some s'
      → IsTimed s
      → IsTimed s'
  unfolding visit_choices
  visit_choices-IsTimed nil s s' h timed = subst IsTimed (cc) timed
  visit_choices-IsTimed (cons choice choices) s s' h timed =
      elim (Option-cases (visit_choice runtime choice s)) [
        | inl e ↦ cc (rw (e, visit_choices) at h)
        | inr (t, e) ↦
            visit_choices-IsTimed choices t s' (rw (e, visit_choices) at h)
              (visit_choice-IsTimed choice s t e timed)
      ]

  take_usage-IsTimed : (obj : Fields) (s : Loop) → IsTimed s → IsTimed (take_usage runtime obj s)
  take_usage-IsTimed obj s h = elim (Bool-cases (is_none (get_or_null (codes "usage") obj))) [
    | inl e ↦ rw e h
    | inr e ↦ rw e (record { started = h.started; token = h.token })
  ]

  visit_event-IsTimed :
      (obj : Fields) (s s' : Loop) → visit_event runtime obj s ≡ some s' → IsTimed s → IsTimed s'
  unfolding visit_event
  visit_event-IsTimed obj s s' h timed = elim (Option-cases (iterated (choices_of obj))) [
    | inl e ↦ cc (rw (e, visit_event) at h)
    | inr (choices, e) ↦
        visit_choices-IsTimed choices _ s' (rw (e, visit_event) at h)
          (take_usage-IsTimed obj s timed)
  ]

  goes_on-IsTimed :
      (obj : Fields) (s s' : Loop)
      → goes_on (visit_event runtime obj s) ≡ proceed s'
      → IsTimed s
      → IsTimed s'
  goes_on-IsTimed obj s s' h timed = elim (Option-cases (visit_event runtime obj s)) [
    | inl e ↦ cc (rw e at h)
    | inr (t, e) ↦ visit_event-IsTimed obj s s' (e ∙ cc (rw e at h)) timed
  ]

  done-IsTimed :
      (l : Line) (s s' : Loop)
      → visit_line runtime l s ≡ stopped (saw_done s')
      → IsTimed s
      → IsTimed s'
  unfolding visit_line
  done-IsTimed l s s' h timed =
      let e : l ≡ done = stopped-done runtime l s s' h in subst IsTimed (cc (rw e at h)) timed

  visit_line-IsTimed :
      (l : Line) (s s' : Loop) → visit_line runtime l s ≡ proceed s' → IsTimed s → IsTimed s'
  unfolding visit_line
  visit_line-IsTimed ignored s s' h timed = subst IsTimed (cc) timed
  visit_line-IsTimed done s s' h timed = cc
  visit_line-IsTimed (malformed payload) s s' h timed = cc
  visit_line-IsTimed (event (object obj)) s s' h timed =
      elim (Bool-cases (is_none (get_or_null (codes "error") obj))) [
        | inl e ↦ goes_on-IsTimed obj s s' (rw e at h) timed
        | inr e ↦ cc (rw e at h)
      ]
  visit_line-IsTimed (event _) s s' h timed = cc

  read_lines-IsTimed :
      (lines : List Text) (s s' : Loop)
      → read_lines runtime lines s ≡ saw_done s'
      → IsTimed s
      → IsTimed s'
  unfolding read_lines
  read_lines-IsTimed [] s s' h timed = cc
  read_lines-IsTimed (raw ∷ lines) s s' h timed =
      elim (Visit-cases runtime (visit_line runtime (read_line runtime raw) s)) [
        | inl (t, e) ↦
            read_lines-IsTimed lines t s' (rw (e, read_lines) at h)
              (visit_line-IsTimed _ s t e timed)
        | inr (ending, e) ↦
            let same : ending ≡ saw_done s' = rw (e, read_lines) at h in
            done-IsTimed _ s s' (e ∙ ap stopped same) timed
      ]

  success-IsConsistent :
      (s : Loop) (i : ℕ) (usage : Fields) (bytes : ℕ) (r : Success)
      → success_of runtime start i s usage bytes ≡ succeeded r
      → IsTimed s
      → IsConsistent start r
  success-IsConsistent s i usage bytes r h timed = elim (Option-cases s.first_token) [
    | inl e ↦ record {
      lasting = ground (arith, timed.started);
      first = λ t k. ground arith;
      parts = λ t d k l. ground arith;
      both = (λ k. ground arith, λ k. ground arith);
    }
    | inr (u, e) ↦ record {
      lasting = ground (arith, timed.started);
      first = λ t k. ground (arith, timed.token u);
      parts = λ t d k l. ground (arith, timed.token u);
      both = (λ k. ground arith, λ k. ground arith);
    }
  ]

  complete-IsConsistent :
      (s : Loop) (i : ℕ) (usage : Json) (r : Success)
      → complete runtime start i s usage ≡ some (succeeded r)
      → IsTimed s
      → IsConsistent start r
  complete-IsConsistent s i (object usage) r h timed =
      elim (Option-cases (text_bytes_of s.text_parts)) [
        | inl e ↦ cc (rw (e, complete) at h)
        | inr (bytes, e) ↦ success-IsConsistent s i usage bytes r (cc (rw (e, complete) at h)) timed
      ]
  complete-IsConsistent s i _ r h timed = cc

  -- Under a clock that does not go back, and a start that is not after the next reading, a success
  -- of consume_stream has a duration that leads from its start to its end, a time to the first
  -- token that is at most the duration, a decode time that makes up the rest, and the one of the
  -- two is missing exactly if the other is.
  pub consume_stream-IsConsistent :
      (request_index reading : ℕ) (lines : List Text) (r : Success)
      → start ≤ runtime.clock reading
      → consume_stream runtime start request_index reading lines ≡ some (succeeded r)
      → IsConsistent start r
  unfolding consume_stream finish
  consume_stream-IsConsistent i reading lines r begun h =
      let ending = read_lines runtime lines (initial reading) in
      let (s, e) = finish-succeeded runtime start i ending r h in
      let fresh : IsTimed (initial reading) = record { started = begun; token = λ t k. cc } in
      complete-IsConsistent s i s.usage r (rw e at h)
        (read_lines-IsTimed lines (initial reading) s e fresh)
