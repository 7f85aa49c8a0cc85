-- ===== src/Stream/Aggregate.antt =====
-- `stream_one` and `aggregate` of vllm-stream-client.py. The rows of `aggregate` stand in the order
-- in which the requests ended.
mod Bags
pub mod Completion
pub mod Counts
use nix_strix_halo.Prelude.{
  ℕ, zero, suc, ◌+◌, ◌-◌, ◌*◌, Bool, true, false, ◌&&◌, not, Option, none, some, List, [], ◌∷◌,
  ◌++◌, if◌then◌else◌, ltb, length, take,
}
use nix_strix_halo.Prelude.Decimal.{show}
use nix_strix_halo.Prelude.Text.{Text, codes, join}
use nix_strix_halo.Json.{Json, null, bool, number, text, array, object}
use nix_strix_halo.Stream.Consume.{
  Runtime, Row, Success, Failed, succeeded, failed, consume_stream, is_none,
}
use nix_strix_halo.Stream.Stats.{Ratio, sum, mean, mean_ratios, median, percentile}

infixl 5 ◌>>=◌
abbrev pub ◌>>=◌ {ℓ κ} : {A : Type ℓ} {B : Type κ} → Option A → (A → Option B) → Option B
none >>= f = none
some a >>= f = f a

-- What the request meets: an HTTP error with its body, another exception by its `repr`, or a
-- response with its decoded lines.
pub data Response : Type 0 where
  http_error : ℕ → Text → Response
  exception : Text → Response
  stream : List Text → Response

-- `reading` numbers the first reading of the clock, and `handled` the one of an `except` clause;
-- `repr` is the text of an exception that `consume_stream` raises.
unfoldable pub stream_one : Runtime → ℕ → ℕ → ℕ → Text → Response → Row
stream_one runtime request_index reading handled repr (http_error status body) = failed (record {
  request_index = request_index;
  start = runtime.clock reading;
  end_time = runtime.clock handled;
  error = codes "HTTP " ++ (show status ++ (codes ": " ++ take 4000 body));
})
stream_one runtime request_index reading handled repr (exception message) = failed (record {
  request_index = request_index;
  start = runtime.clock reading;
  end_time = runtime.clock handled;
  error = message;
})
stream_one runtime request_index reading handled repr (stream lines) =
    elim (consume_stream runtime (runtime.clock reading) request_index (reading + 1) lines) [
      | some row ↦ row
      | none ↦ failed (record {
        request_index = request_index;
        start = runtime.clock reading;
        end_time = runtime.clock handled;
        error = repr;
      })
    ]

-- [row for row in rows if row.get("ok")]
abbrev pub ok_rows : List Row → List Success
ok_rows [] = []
ok_rows (succeeded r ∷ rows) = r ∷ ok_rows rows
ok_rows (failed f ∷ rows) = ok_rows rows

-- [row for row in rows if not row.get("ok")]
abbrev pub bad_rows : List Row → List Failed
bad_rows [] = []
bad_rows (succeeded r ∷ rows) = bad_rows rows
bad_rows (failed f ∷ rows) = f ∷ bad_rows rows

pub data Status : Type 0 where
  ok partial all_failed : Status

-- "ok" if ok_rows and not bad_rows else ("partial" if ok_rows else "failed")
unfoldable pub status_of : List Success → List Failed → Status
status_of [] bad = all_failed
status_of (r ∷ good) [] = ok
status_of (r ∷ good) (f ∷ bad) = partial

-- The values that are not None.
abbrev pub present : (Success → Option ℕ) → List Success → List ℕ
present field [] = []
present field (r ∷ rows) = elim (field r) [
  | none ↦ present field rows
  | some t ↦ t ∷ present field rows
]

-- n / d if d > 0 else None
abbrev pub ratio : ℕ → ℕ → Option Ratio
ratio n d = if ltb 0 d then some (record { num = n; den = d }) else none

-- `int` of a value that is not None, with `int` of a text as a parameter: `none` is its exception.
abbrev pub int_of : (Text → Option ℕ) → Json → Option ℕ
int_of parse_int (number n) = some n
int_of parse_int (bool true) = some 1
int_of parse_int (bool false) = some 0
int_of parse_int (text t) = parse_int t
int_of parse_int _ = none

-- What a row adds to a list: nothing, a value, or an exception that ends the function.
pub data Part (A : Type 0) : Type 0 where
  nothing : Part A
  value : A → Part A
  fails : Part A

abbrev pub absorb : {A : Type 0} → Part A → Option (List A) → Option (List A)
absorb nothing values = values
absorb fails values = none
absorb (value a) none = none
absorb (value a) (some values) = some (a ∷ values)

unfoldable pub collect : {A : Type 0} → (Success → Part A) → List Success → Option (List A)
collect part [] = some []
collect part (r ∷ rows) = absorb (part r) (collect part rows)

abbrev pub value_or_fails : {A : Type 0} → Option A → Part A
value_or_fails none = fails
value_or_fails (some a) = value a

abbrev pub value_or_nothing : {A : Type 0} → Option A → Part A
value_or_nothing none = nothing
value_or_nothing (some a) = value a

-- int(row[...]) if row.get(...) is not None
abbrev pub token_part : (Text → Option ℕ) → Json → Part ℕ
token_part parse_int v = if is_none v then nothing else value_or_fails (int_of parse_int v)

abbrev pub output_tps_of : ℕ → Success → Option Ratio
output_tps_of tokens r = ratio tokens r.duration

-- max(0, tokens - 1) / decode_s, if decode_s and decode_s > 0
abbrev pub decode_tps_of : ℕ → Success → Option Ratio
decode_tps_of tokens r = elim r.decode [ none ↦ none | some d ↦ ratio (tokens - 1) d ]

-- What a row adds to `output_tps` or `decode_tps`.
abbrev pub tps_part : (Text → Option ℕ) → (ℕ → Success → Option Ratio) → Success → Part Ratio
tps_part parse_int rate r =
    if is_none r.completion_tokens then nothing else elim (int_of parse_int r.completion_tokens) [
      | none ↦ fails
      | some tokens ↦ value_or_nothing (rate tokens r)
    ]

abbrev pub errors_of : List Failed → List Text
errors_of [] = []
errors_of (f ∷ bad) = take 300 f.error ∷ errors_of bad

-- The fields that the run itself gives to the row, before they are formatted; an inner `none` is
-- Python's None.
pub record Summary : Type 0 where
  pub prompt_tokens_per_req : Option Ratio
  pub requests_ok : ℕ
  pub requests_failed : ℕ
  pub status : Status
  pub wall : ℕ
  pub total_prompt_tokens : ℕ
  pub total_completion_tokens : ℕ
  pub total_tps : Option Ratio
  pub ttft_mean : Option Ratio
  pub ttft_p50 : Option Ratio
  pub ttft_p95 : Option Ratio
  pub prefill_mean : Option Ratio
  pub decode_mean : Option Ratio
  pub decode_tps_mean : Option Ratio
  pub output_tps_mean : Option Ratio

module _ (parse_int : Text → Option ℕ) where
  -- `none` is an exception.
  unfoldable pub summarize : ℕ → List Success → List Failed → Option Summary
  summarize wall good bad = do
    prompt_tokens ← collect (λ r. token_part parse_int r.prompt_tokens) good
    completion_tokens ← collect (λ r. token_part parse_int r.completion_tokens) good
    output_tps ← collect (tps_part parse_int output_tps_of) good
    decode_tps ← collect (tps_part parse_int decode_tps_of) good
    let ttfts = present (λ r. r.ttft) good
    let decodes = present (λ r. r.decode) good
    ttft_p50 ← percentile ttfts 50
    ttft_p95 ← percentile ttfts 95
    some (record {
      prompt_tokens_per_req = median prompt_tokens;
      requests_ok = length good;
      requests_failed = length bad;
      status = status_of good bad;
      wall = wall;
      total_prompt_tokens = sum prompt_tokens;
      total_completion_tokens = sum completion_tokens;
      total_tps = ratio (sum completion_tokens) wall;
      ttft_mean = mean ttfts;
      ttft_p50 = ttft_p50;
      ttft_p95 = ttft_p95;
      prefill_mean = mean ttfts;
      decode_mean = mean decodes;
      decode_tps_mean = mean_ratios decode_tps;
      output_tps_mean = mean_ratios output_tps;
    })

  unfoldable pub aggregate : ℕ → List Row → Option (Summary × Text)
  aggregate wall rows = do
    summary ← summarize wall (ok_rows rows) (bad_rows rows)
    some (summary, join (codes " | ") (errors_of (bad_rows rows)))
