-- ===== src/Stream/Consume.antt =====
-- `consume_stream` and `summarize_stream_error` of vllm-stream-client.py.
pub mod Done
pub mod Timing
use nix_strix_halo.Prelude.{
  ℕ, zero, suc, ◌+◌, ◌-◌, ◌≤◌, ◌<◌, Bool, true, false, ◌&&◌, ◌||◌, not, Option, none, some, List,
  [], ◌∷◌, ◌++◌, if◌then◌else◌, ltb, leb, take, drop,
}
use nix_strix_halo.Prelude.Decimal.{show}
use nix_strix_halo.Prelude.Text.{Text, codes, text_eq, starts_with, strip}
use nix_strix_halo.Json.{
  Json, null, bool, number, text, array, object, Items, nil, cons, Fields, end, field, get_field,
  is_truthy, iterated,
}

-- `json.loads` (`none` is JSONDecodeError), `json.dumps`, `str` of a decoded value, and the
-- readings of `time.perf_counter` in the order in which they are taken.
pub record Runtime : Type 0 where
  pub loads : Text → Option Json
  pub dumps : Json → Text
  pub str : Json → Text
  pub clock : ℕ → ℕ

abbrev pub get_or_null : Text → Fields → Json
get_or_null k d = elim (get_field k d) [ none ↦ null | some v ↦ v ]

abbrev pub is_none : Json → Bool
is_none null = true
is_none _ = false

-- What a line of the response is.
pub data Line : Type 0 where
  ignored : Line
  done : Line
  malformed : Text → Line
  event : Json → Line

-- The variables of the loop; `readings` counts the readings of the clock.
pub record Loop : Type 0 where
  pub first_token : Option ℕ
  pub usage : Json
  pub text_parts : List Json
  pub readings : ℕ

-- How the loop ends: by the sentinel, by an error in the stream, at the end of the response, or by an
-- exception.
pub data Ending : Type 0 where
  saw_done : Loop → Ending
  stream_error : Text → Loop → Ending
  eof : Loop → Ending
  raised : Ending

-- Whether the loop goes on behind a line.
pub data Visit : Type 0 where
  proceed : Loop → Visit
  stopped : Ending → Visit

abbrev pub goes_on : Option Loop → Visit
goes_on none = stopped raised
goes_on (some s) = proceed s

-- obj.get("choices", [])
abbrev pub choices_of : Fields → Json
choices_of obj = elim (get_field (codes "choices") obj) [ none ↦ array nil | some v ↦ v ]

module _ (runtime : Runtime) where
  unfoldable pub read_line : Text → Line
  read_line raw =
      let line = strip raw in
      let payload = strip (drop 5 line) in
      if not (starts_with (codes "data:") line)
      then ignored
      else if text_eq payload (codes "[DONE]")
      then done
      else elim (runtime.loads payload) [ none ↦ malformed payload | some obj ↦ event obj ]

  -- A piece that is not empty: the first one takes the time.
  abbrev pub add_piece : Json → Loop → Loop
  add_piece piece s = elim s.first_token [
    | none ↦ record s {
      first_token = some (runtime.clock s.readings);
      text_parts = s.text_parts ++ piece ∷ [];
      readings = s.readings + 1;
    }
    | some t ↦ record s { text_parts = s.text_parts ++ piece ∷ [] }
  ]

  -- `none` is the AttributeError of `.get`.
  unfoldable pub visit_choice : Json → Loop → Option Loop
  visit_choice (object choice) s =
      let piece = get_or_null (codes "text") choice in
      if is_truthy piece then some (add_piece piece s) else some s
  visit_choice _ s = none

  unfoldable pub visit_choices : Items → Loop → Option Loop
  visit_choices nil s = some s
  visit_choices (cons choice choices) s = elim (visit_choice choice s) [
    | none ↦ none
    | some s' ↦ visit_choices choices s'
  ]

  abbrev pub take_usage : Fields → Loop → Loop
  take_usage obj s =
      let usage = get_or_null (codes "usage") obj in
      if is_none usage then s else record s { usage = usage }

  -- The part of an event behind the test for an error: `none` is an exception.
  unfoldable pub visit_event : Fields → Loop → Option Loop
  visit_event obj s = elim (iterated (choices_of obj)) [
    | none ↦ none
    | some choices ↦ visit_choices choices (take_usage obj s)
  ]

  abbrev pub message_of : Json → Text
  message_of (object error) =
      let message = get_or_null (codes "message") error in
      if is_truthy message then runtime.str message else runtime.dumps (object error)
  message_of error = runtime.str error

  unfoldable pub summarize_stream_error : Json → Text
  summarize_stream_error error = codes "stream error: " ++ take 300 (message_of error)

  -- One turn of the loop, at a line.
  unfoldable pub visit_line : Line → Loop → Visit
  visit_line ignored s = proceed s
  visit_line done s = stopped (saw_done s)
  visit_line (malformed payload) s =
      stopped (stream_error (codes "malformed SSE data: " ++ take 300 payload) s)
  visit_line (event (object obj)) s =
      let error = get_or_null (codes "error") obj in
      if not (is_none error)
      then stopped (stream_error (summarize_stream_error error) s)
      else goes_on (visit_event obj s)
  visit_line (event other) s = stopped raised

  unfoldable pub read_lines : List Text → Loop → Ending
  read_lines [] s = eof s
  read_lines (raw ∷ lines) s = elim (visit_line (read_line raw) s) [
    | proceed s' ↦ read_lines lines s'
    | stopped ending ↦ ending
  ]

-- len(text.encode("utf-8")); `none` is the UnicodeEncodeError at a surrogate.
abbrev pub utf8_width : ℕ → ℕ
utf8_width c = if ltb c 0x80 then 1 else if ltb c 0x800 then 2 else if ltb c 0x10000 then 3 else 4

abbrev pub is_surrogate : ℕ → Bool
is_surrogate c = leb 0xD800 c && leb c 0xDFFF

unfoldable pub encoded_length : Text → Option ℕ
encoded_length [] = some 0
encoded_length (c ∷ s) = elim (encoded_length s) [
  | none ↦ none
  | some n ↦ if is_surrogate c then none else some (utf8_width c + n)
]

-- "".join(parts); `none` is the TypeError at a part that is no text.
unfoldable pub join_parts : List Json → Option Text
join_parts [] = some []
join_parts (text t ∷ parts) = elim (join_parts parts) [ none ↦ none | some s ↦ some (t ++ s) ]
join_parts (other ∷ parts) = none

unfoldable pub text_bytes_of : List Json → Option ℕ
text_bytes_of parts = elim (join_parts parts) [ none ↦ none | some s ↦ encoded_length s ]

pub record Success : Type 0 where
  pub request_index : ℕ
  pub start : ℕ
  pub end_time : ℕ
  pub duration : ℕ
  pub ttft : Option ℕ
  pub decode : Option ℕ
  pub prompt_tokens : Json
  pub completion_tokens : Json
  pub text_bytes : ℕ

pub record Failed : Type 0 where
  pub request_index : ℕ
  pub start : ℕ
  pub end_time : ℕ
  pub error : Text

-- The dictionary that is returned, by its field `ok`.
pub data Row : Type 0 where
  succeeded : Success → Row
  failed : Failed → Row

abbrev pub minus : Option ℕ → ℕ → Option ℕ
minus none start = none
minus (some t) start = some (t - start)

-- max(0.0, duration - ttft)
abbrev pub decode_of : ℕ → Option ℕ → Option ℕ
decode_of duration none = none
decode_of duration (some ttft) = some (duration - ttft)

abbrev pub initial : ℕ → Loop
initial reading = record {
  first_token = none;
  usage = object end;
  text_parts = [];
  readings = reading;
}

module _ (runtime : Runtime) (start request_index : ℕ) where
  abbrev pub success_of : Loop → Fields → ℕ → Row
  success_of s usage bytes =
      let end_time = runtime.clock s.readings in
      let duration = end_time - start in
      let ttft = minus s.first_token start in
      succeeded (record {
        request_index = request_index;
        start = start;
        end_time = end_time;
        duration = duration;
        ttft = ttft;
        decode = decode_of duration ttft;
        prompt_tokens = get_or_null (codes "prompt_tokens") usage;
        completion_tokens = get_or_null (codes "completion_tokens") usage;
        text_bytes = bytes;
      })

  abbrev pub failure_of : Loop → Text → Row
  failure_of s error = failed (record {
    request_index = request_index;
    start = start;
    end_time = runtime.clock s.readings;
    error = error;
  })

  abbrev pub complete : Loop → Json → Option Row
  complete s (object usage) = elim (text_bytes_of s.text_parts) [
    | none ↦ none
    | some bytes ↦ some (success_of s usage bytes)
  ]
  complete s _ = none

  -- The statements behind the loop; `none` is an exception.
  unfoldable pub finish : Ending → Option Row
  finish raised = none
  finish (stream_error error s) = some (failure_of s error)
  finish (eof s) = elim (text_bytes_of s.text_parts) [
    | none ↦ none
    | some bytes ↦ some (
        failure_of s (
          codes "stream ended without [DONE]"
          ++ (codes " (received " ++ (show bytes ++ codes " bytes of text)"))))
  ]
  finish (saw_done s) = complete s s.usage

  -- `reading` is the number of the next reading of the clock.
  unfoldable pub consume_stream : ℕ → List Text → Option Row
  consume_stream reading lines = finish (read_lines runtime lines (initial reading))
