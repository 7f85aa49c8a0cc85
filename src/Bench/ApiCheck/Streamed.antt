-- ===== src/Bench/ApiCheck/Streamed.antt =====
-- A streamed answer, read line by line, is the sum of its choices.
use nix_strix_halo.Prelude.{
  ℕ, compare, In, ◌≢◌, ◌↔◌, ◌≡◌, refl, sym, subst, ap, ◌∙◌, true, false, Option, none, some, List,
  [], ◌∷◌, ◌++◌, map, if◌then◌else◌, Bool-cases, inl, inr, drop,
}
use mathlib.Core.List.{append_assoc, append-nil, map-append}
use mathlib.Core.Option.{some-injective}
use nix_strix_halo.Prelude.Text.{Text, codes, text_eq, starts_with, strip}
use nix_strix_halo.Json.{
  Json, null, bool, number, text, array, object, Items, nil, cons, Fields, is_truthy,
}
use nix_strix_halo.Bench.ApiCheck.{
  Part, Delta, Loop, add_parts, add_delta, visit_choices, visit_event, read_lines, start, concat,
  message_of, fresh_call, indices, picked, read_choice, choices_of, take_usage, truthy_field, ◌>>=◌,
}
use nix_strix_halo.Bench.ApiCheck.Fragments.{joined_all, of_index, add_parts-append}
use nix_strix_halo.Bench.ApiCheck.Gathered.{picked-add_parts}
use nix_strix_halo.Prelude.Sort.{sorted}
use nix_strix_halo.Prelude.Sort.Numbers.{IsRising}

-- All fragments, and the last finish reason that is one.
abbrev pub all_parts : List Delta → List Part
all_parts [] = []
all_parts (d ∷ ds) = d.parts ++ all_parts ds

abbrev pub last_finish : Json → List Delta → Json
last_finish v [] = v
last_finish v (d ∷ ds) = last_finish (if is_truthy d.finish_reason then d.finish_reason else v) ds

module _ (loads : Text → Option Json) (clock : ℕ → ℕ) where
  -- The choices of a stream up to its end, each decoded by itself.
  unfoldable pub deltas_in : Items → Option (List Delta)
  deltas_in nil = some []
  deltas_in (cons v vs) = read_choice v >>= λ d. deltas_in vs >>= λ ds. some (d ∷ ds)

  unfoldable pub deltas_of_event : Json → Option (List Delta)
  unfolding deltas_in
  deltas_of_event (object event) = choices_of loads clock event >>= deltas_in
  deltas_of_event _ = none

  unfoldable pub deltas_of : List Text → Option (List Delta)
  unfolding deltas_of_event
  deltas_of [] = some []
  deltas_of (line ∷ lines) = elim (starts_with (codes "data: ") line) [
    | false ↦ deltas_of lines
    | true ↦ elim (text_eq (strip (drop 6 line)) (codes "[DONE]")) [
      | true ↦ some []
      | false ↦ loads (strip (drop 6 line)) >>= λ event.
          deltas_of_event event >>= λ ds. deltas_of lines >>= λ rest. some (ds ++ rest)
    ]
  ]

  -- The loop's variables after these choices.
  pub record IsRead (ds : List Delta) (s t : Loop) : Type 0 where
    pub calls : t.calls ≡ add_parts (all_parts ds) s.calls
    pub content : t.content ≡ s.content ++ map (λ d. d.said) ds
    pub reasoning : t.reasoning ≡ s.reasoning ++ map (λ d. d.thought) ds
    pub finish : t.finish ≡ last_finish s.finish ds

  IsRead-nil : (s : Loop) → IsRead [] s s
  unfolding add_parts
  IsRead-nil s = record {
    calls = refl;
    content = sym (append-nil s.content);
    reasoning = sym (append-nil s.reasoning);
    finish = refl;
  }

  all_parts-append : (ds es : List Delta) → all_parts (ds ++ es) ≡ all_parts ds ++ all_parts es
  all_parts-append [] es = refl
  all_parts-append (d ∷ ds) es =
      ap (λ l. d.parts ++ l) (all_parts-append ds es)
      ∙ sym (append_assoc d.parts (all_parts ds) (all_parts es))

  last_finish-append :
      (v : Json) (ds es : List Delta) → last_finish v (ds ++ es) ≡ last_finish (last_finish v ds) es
  last_finish-append v [] es = refl
  last_finish-append v (d ∷ ds) es =
      last_finish-append (if is_truthy d.finish_reason then d.finish_reason else v) ds es

  IsRead-append :
      (ds es : List Delta) (s t u : Loop) → IsRead ds s t → IsRead es t u → IsRead (ds ++ es) s u
  IsRead-append ds es s t u a b = record {
    calls =
        b.calls
        ∙ ap (add_parts (all_parts es)) a.calls
        ∙ sym (add_parts-append (all_parts ds) (all_parts es) s.calls)
        ∙ ap (λ ps. add_parts ps s.calls) (sym (all_parts-append ds es));
    content =
        b.content
        ∙ ap (λ l. l ++ map (λ d. d.said) es) a.content
        ∙ append_assoc s.content (map (λ d. d.said) ds) (map (λ d. d.said) es)
        ∙ ap (λ l. s.content ++ l) (sym (map-append (λ d. d.said) ds es));
    reasoning =
        b.reasoning
        ∙ ap (λ l. l ++ map (λ d. d.thought) es) a.reasoning
        ∙ append_assoc s.reasoning (map (λ d. d.thought) ds) (map (λ d. d.thought) es)
        ∙ ap (λ l. s.reasoning ++ l) (sym (map-append (λ d. d.thought) ds es));
    finish =
        b.finish ∙ ap (λ v. last_finish v es) a.finish ∙ sym (last_finish-append s.finish ds es);
  }

  found :
      {A B : Type 0} (o : Option A) (next : A → Option B) {b : B}
      → (o >>= next) ≡ some b
      → (a : A) × (o ≡ some a) × (next a ≡ some b)
  found none next h = cc
  found (some a) next h = (a, refl, h)

  then_found :
      {A B : Type 0} {o : Option A} (next : A → Option B) {a : A}
      → o ≡ some a
      → (o >>= next) ≡ next a
  then_found next e = ap (λ o. o >>= next) e

  add_delta-IsRead : (d : Delta) (s : Loop) → IsRead (d ∷ []) s (add_delta loads clock d s)
  unfolding add_delta
  add_delta-IsRead d s = record {
    calls = ap (λ ps. add_parts ps s.calls) (sym (append-nil d.parts));
    content = refl;
    reasoning = refl;
    finish = refl;
  }

  take_usage-IsRead : (event : Fields) (s : Loop) → IsRead [] s (take_usage loads clock event s)
  unfolding add_parts
  take_usage-IsRead event s = elim (Bool-cases (truthy_field (codes "usage") event)) [
    | inl e ↦ rw e (record {
      calls = refl;
      content = sym (append-nil s.content);
      reasoning = sym (append-nil s.reasoning);
      finish = refl;
    })
    | inr e ↦ rw e (IsRead-nil s)
  ]

  visit_choices-IsRead :
      (vs : Items) (s t : Loop)
      → visit_choices loads clock vs s ≡ some t
      → (ds : List Delta) × (deltas_in vs ≡ some ds) × IsRead ds s t
  unfolding visit_choices deltas_in
  visit_choices-IsRead nil s t h =
      ([], refl, subst (IsRead [] s) (some-injective _ _ h) (IsRead-nil s))
  visit_choices-IsRead (cons v vs) s t h =
      let (d, read, rest) = found (read_choice v) _ h in
      let (ds, decoded, after) = visit_choices-IsRead vs (add_delta loads clock d s) t rest in
      (
        d ∷ ds,
        then_found _ read ∙ then_found _ decoded,
        IsRead-append (d ∷ []) ds s (add_delta loads clock d s) t (add_delta-IsRead d s) after,
      )

  visit_event-IsRead :
      (event : Json) (s t : Loop)
      → visit_event loads clock event s ≡ some t
      → (ds : List Delta) × (deltas_of_event event ≡ some ds) × IsRead ds s t
  unfolding visit_event deltas_of_event
  visit_event-IsRead (object event) s t h =
      let (choices, listed, rest) = found (choices_of loads clock event) _ h in
      let (ds, decoded, after) =
        visit_choices-IsRead choices (take_usage loads clock event s) t rest in
      (
        ds,
        then_found _ listed ∙ decoded,
        IsRead-append [] ds s (take_usage loads clock event s) t (take_usage-IsRead event s) after,
      )
  visit_event-IsRead null s t h = cc
  visit_event-IsRead (bool b) s t h = cc
  visit_event-IsRead (number n) s t h = cc
  visit_event-IsRead (text w) s t h = cc
  visit_event-IsRead (array vs) s t h = cc

  deltas_of-nil : deltas_of [] ≡ some []
  unfolding deltas_of
  deltas_of-nil = refl

  deltas_of-stop :
      (line : Text) (lines : List Text)
      → starts_with (codes "data: ") line ≡ true
      → text_eq (strip (drop 6 line)) (codes "[DONE]") ≡ true
      → deltas_of (line ∷ lines) ≡ some []
  unfolding deltas_of
  deltas_of-stop line lines p q = rw (p, q, deltas_of) refl

  deltas_of-event :
      (line : Text) (lines : List Text) {event : Json} {ds rest : List Delta}
      → starts_with (codes "data: ") line ≡ true
      → text_eq (strip (drop 6 line)) (codes "[DONE]") ≡ false
      → loads (strip (drop 6 line)) ≡ some event
      → deltas_of_event event ≡ some ds
      → deltas_of lines ≡ some rest
      → deltas_of (line ∷ lines) ≡ some (ds ++ rest)
  unfolding deltas_of
  deltas_of-event line lines p q r d e =
      rw (p, q, deltas_of) (then_found _ r ∙ then_found _ d ∙ then_found _ e)

  deltas_of-other :
      (line : Text) (lines : List Text)
      → starts_with (codes "data: ") line ≡ false
      → deltas_of (line ∷ lines) ≡ deltas_of lines
  unfolding deltas_of
  deltas_of-other line lines p = rw (p, deltas_of) refl

  pub read_lines-IsRead :
      (lines : List Text) (s t : Loop)
      → read_lines loads clock lines s ≡ some t
      → (ds : List Delta) × (deltas_of lines ≡ some ds) × IsRead ds s t
  unfolding read_lines
  read_lines-IsRead [] s t h =
      ([], deltas_of-nil, subst (IsRead [] s) (some-injective _ _ h) (IsRead-nil s))
  read_lines-IsRead (line ∷ lines) s t h = elim (Bool-cases (starts_with (codes "data: ") line)) [
    | inr other ↦
        let (ds, e, read) = read_lines-IsRead lines s t (rw (other, read_lines) at h) in
        (ds, deltas_of-other line lines other ∙ e, read)
    | inl payload ↦ elim (Bool-cases (text_eq (strip (drop 6 line)) (codes "[DONE]"))) [
      | inl stop ↦ (
        [],
        deltas_of-stop line lines payload stop,
        subst (IsRead [] s) (some-injective _ _ (rw (payload, stop, read_lines) at h))
            (IsRead-nil s),
      )
      | inr more ↦
          let (event, loaded, rest) =
            found (loads (strip (drop 6 line))) _ (rw (payload, more, read_lines) at h) in
          let (u, visited, after) = found (visit_event loads clock event s) _ rest in
          let (ds, decoded, first) = visit_event-IsRead event s u visited in
          let (es, others, second) = read_lines-IsRead lines u t after in
          (
            ds ++ es,
            deltas_of-event line lines payload more loaded decoded others,
            IsRead-append ds es s u t first second,
          )
    ]
  ]

  -- Where a streamed answer is read to its end, its choices decode one by one, and the message that
  -- is made of it has one call for each index that some fragment has, in rising order of the
  -- indices, and for no other, each with the id, the name and the arguments that the fragments of
  -- its index give in their order; its content and reasoning are the pieces in their order, and the
  -- finish reason is the last one given.
  pub message_of-calls :
      (lines : List Text) (t : Loop)
      → read_lines loads clock lines start ≡ some t
      → (ds : List Delta) × (deltas_of lines ≡ some ds)
        × ((is : List ℕ) × IsRising is
            × ((i : ℕ) → In i is ↔ (of_index i (all_parts ds) ≢ []))
            × ((message_of t).tool_calls
                ≡ map (λ i. joined_all fresh_call (of_index i (all_parts ds))) is))
        × ((message_of t).content ≡ concat (map (λ d. d.said) ds))
        × ((message_of t).reasoning_content ≡ concat (map (λ d. d.thought) ds))
        × (t.finish ≡ last_finish null ds)
  unfolding message_of
  message_of-calls lines t h =
      let (ds, e, read) = read_lines-IsRead lines start t h in
      let (is, rising, members, calls) = picked-add_parts (all_parts ds) in
      (
        ds,
        e,
        (
          is,
          rising,
          members,
          ap (λ cs. picked cs (sorted compare (indices cs))) read.calls ∙ calls,
        ),
        ap concat read.content,
        ap concat read.reasoning,
        read.finish,
      )
