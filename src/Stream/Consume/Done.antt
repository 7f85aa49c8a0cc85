-- ===== src/Stream/Consume/Done.antt =====
-- A stream counts as a success only behind its sentinel line.
use nix_strix_halo.Prelude.{
  ℕ, ◌≡◌, ◌≢◌, refl, ap, ◌∙◌, ◌⊎◌, inl, inr, true, Option, none, some, List, [], ◌∷◌, ◌++◌, All,
  Bool-cases, Option-cases,
}
use nix_strix_halo.Prelude.Text.{Text, codes}
use nix_strix_halo.Json.{Json, null, bool, number, text, array, object, Fields}
use nix_strix_halo.Stream.Consume.{
  Runtime, Line, ignored, done, malformed, event, Loop, Ending, saw_done, stream_error, eof, raised,
  Visit, proceed, stopped, goes_on, visit_line, get_or_null, is_none, read_line, visit_event,
  read_lines, text_bytes_of, initial, finish, consume_stream, Success, succeeded,
}

module _ (runtime : Runtime) where
  -- A line that neither ends the stream nor carries an error.
  abbrev pub IsBenign : Text → Type 0
  IsBenign raw =
      (read_line runtime raw ≡ ignored)
      ⊎ ((obj : Fields) × (read_line runtime raw ≡ event (object obj))
          × (get_or_null (codes "error") obj ≡ null))

  -- The response has a sentinel line, and every line before it is benign.
  pub record IsComplete (lines : List Text) : Type 0 where
    pub before : List Text
    pub sentinel : Text
    pub rest : List Text
    pub split : lines ≡ before ++ sentinel ∷ rest
    pub benign : All IsBenign before
    pub is_done : read_line runtime sentinel ≡ done

  IsComplete-cons :
      (raw : Text) {lines : List Text} → IsBenign raw → IsComplete lines → IsComplete (raw ∷ lines)
  IsComplete-cons raw b c = record {
    before = raw ∷ c.before;
    sentinel = c.sentinel;
    rest = c.rest;
    split = ap (λ ls. raw ∷ ls) c.split;
    benign = (b, c.benign);
    is_done = c.is_done;
  }

  null_of_is_none : (v : Json) → is_none v ≡ true → v ≡ null
  null_of_is_none null h = refl
  null_of_is_none (bool b) h = cc
  null_of_is_none (number n) h = cc
  null_of_is_none (text t) h = cc
  null_of_is_none (array vs) h = cc
  null_of_is_none (object d) h = cc

  -- What the loop makes of a line that it reads on from.
  abbrev pub IsQuiet : Line → Type 0
  IsQuiet l =
      (l ≡ ignored)
      ⊎ ((obj : Fields) × (l ≡ event (object obj)) × (get_or_null (codes "error") obj ≡ null))

  proceed-IsQuiet : (l : Line) (s s' : Loop) → visit_line runtime l s ≡ proceed s' → IsQuiet l
  unfolding visit_line
  proceed-IsQuiet ignored s s' h = inl refl
  proceed-IsQuiet done s s' h = cc
  proceed-IsQuiet (malformed payload) s s' h = cc
  proceed-IsQuiet (event (object obj)) s s' h =
      elim (Bool-cases (is_none (get_or_null (codes "error") obj))) [
        | inl e ↦ inr (obj, refl, null_of_is_none _ e)
        | inr e ↦ cc (rw e at h)
      ]
  proceed-IsQuiet (event _) s s' h = cc

  goes_on-not_done : (o : Option Loop) (s : Loop) → goes_on o ≢ stopped (saw_done s)
  goes_on-not_done none s h = cc
  goes_on-not_done (some t) s h = cc

  pub stopped-done :
      (l : Line) (s s' : Loop) → visit_line runtime l s ≡ stopped (saw_done s') → l ≡ done
  unfolding visit_line
  stopped-done ignored s s' h = cc
  stopped-done done s s' h = refl
  stopped-done (malformed payload) s s' h = cc
  stopped-done (event (object obj)) s s' h =
      elim (Bool-cases (is_none (get_or_null (codes "error") obj))) [
        | inl e ↦ absurd (goes_on-not_done (visit_event runtime obj s) s' (rw e at h))
        | inr e ↦ cc (rw e at h)
      ]
  stopped-done (event _) s s' h = cc

  pub Visit-cases : (v : Visit) → ((s : Loop) × (v ≡ proceed s)) ⊎ ((e : Ending) × (v ≡ stopped e))
  Visit-cases (proceed s) = inl (s, refl)
  Visit-cases (stopped e) = inr (e, refl)

  read_lines-IsComplete :
      (lines : List Text) (s s' : Loop)
      → read_lines runtime lines s ≡ saw_done s'
      → IsComplete lines
  unfolding read_lines
  read_lines-IsComplete [] s s' h = cc
  read_lines-IsComplete (raw ∷ lines) s s' h =
      elim (Visit-cases (visit_line runtime (read_line runtime raw) s)) [
        | inl (t, e) ↦
            IsComplete-cons raw (proceed-IsQuiet _ s t e)
              (read_lines-IsComplete lines t s' (rw (e, read_lines) at h))
        | inr (ending, e) ↦
            let same : ending ≡ saw_done s' = rw (e, read_lines) at h in
            record {
              before = [];
              sentinel = raw;
              rest = lines;
              split = refl;
              benign = tt;
              is_done = stopped-done (read_line runtime raw) s s' (e ∙ ap stopped same);
            }
      ]

  pub finish-succeeded :
      (start request_index : ℕ) (e : Ending) (r : Success)
      → finish runtime start request_index e ≡ some (succeeded r)
      → (s : Loop) × (e ≡ saw_done s)
  unfolding finish
  finish-succeeded start i (saw_done s) r h = (s, refl)
  finish-succeeded start i (stream_error error s) r h = cc
  finish-succeeded start i (eof s) r h = elim (Option-cases (text_bytes_of s.text_parts)) [
    | inl e ↦ cc (rw (e, finish) at h)
    | inr (n, e) ↦ cc (rw (e, finish) at h)
  ]
  finish-succeeded start i raised r h = cc

  -- consume_stream reports a success only if the response has a sentinel line and every line before
  -- it is no data line or an event that is an object without an error.
  pub consume_stream-IsComplete :
      (start request_index reading : ℕ) (lines : List Text) (r : Success)
      → consume_stream runtime start request_index reading lines ≡ some (succeeded r)
      → IsComplete lines
  unfolding consume_stream
  consume_stream-IsComplete start i reading lines r h =
      let (s, e) = finish-succeeded start i (read_lines runtime lines (initial reading)) r h in
      read_lines-IsComplete lines (initial reading) s e

  read_lines-rest :
      (before : List Text) (sentinel : Text) (rest : List Text) (s : Loop)
      → read_line runtime sentinel ≡ done
      → read_lines runtime (before ++ sentinel ∷ rest) s
        ≡ read_lines runtime (before ++ sentinel ∷ []) s
  unfolding read_lines visit_line
  read_lines-rest [] sentinel rest s d = rw (d, read_lines)
  read_lines-rest (raw ∷ before) sentinel rest s d =
      elim (Visit-cases (visit_line runtime (read_line runtime raw) s)) [
        | inl (t, e) ↦ rw (e, read_lines) (read_lines-rest before sentinel rest t d)
        | inr (ending, e) ↦ rw (e, read_lines)
      ]

  -- Nothing that the server sends behind a sentinel line changes the result of consume_stream.
  pub consume_stream-rest :
      (start request_index reading : ℕ) (before : List Text) (sentinel : Text) (rest : List Text)
      → read_line runtime sentinel ≡ done
      → consume_stream runtime start request_index reading (before ++ sentinel ∷ rest)
        ≡ consume_stream runtime start request_index reading (before ++ sentinel ∷ [])
  unfolding consume_stream
  consume_stream-rest start i reading before sentinel rest d =
      ap (finish runtime start i) (read_lines-rest before sentinel rest (initial reading) d)
