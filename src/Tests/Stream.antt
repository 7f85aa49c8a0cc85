-- ===== src/Tests/Stream.antt =====
-- A response of two events and its sentinel line, and the rows of a run.
use nix_strix_halo.Prelude.{
  ℕ, ◌+◌, ◌*◌, ◌≡◌, ◌≤◌, refl, Option, none, some, List, [], ◌∷◌, if◌then◌else◌, map, length, arith,
}
use mathlib.Core.List.{Perm}
use mathlib.Core.List.Perm
use nix_strix_halo.Prelude.Sort.{sorted, insert}
use nix_strix_halo.Prelude.Text.{Text, codes, text_eq, join}
use nix_strix_halo.Prelude.Dict.{Dict}
use nix_strix_halo.Json.{Json, null, text, array, object, nil, cons, Fields, fields, get_field}
use nix_strix_halo.Stream.Consume.{
  Runtime, Row, Success, Failed, succeeded, failed, consume_stream, read_lines, read_line,
  visit_line, visit_event, visit_choices, visit_choice, finish, text_bytes_of, join_parts,
  encoded_length, done, stream_error, initial, summarize_stream_error,
}
use nix_strix_halo.Stream.Consume.Done.{IsComplete, consume_stream-IsComplete}
use nix_strix_halo.Stream.Consume.Timing.{IsConsistent, consume_stream-IsConsistent}
use nix_strix_halo.Stream.Stats.{Ratio, percentile, mean, median, mean_ratios}
use nix_strix_halo.Stream.Stats.Percentile.{Within, percentile-Within}
use nix_strix_halo.Stream.Aggregate.{partial, Summary, aggregate, summarize, collect, status_of}
use nix_strix_halo.Stream.Aggregate.Completion.{messages, aggregate-perm}
use nix_strix_halo.Stream.Aggregate.Counts.{aggregate-counts}
use nix_strix_halo.Stream.Report.{
  csv_fields, Args, Host, append_csv, cells, base_row, summary_row, update,
}
use nix_strix_halo.Stream.Report.File.{appended, appended-one_header}

abbrev choice_event : Json
choice_event = object (
    fields (
      (codes "choices", array (cons (object (fields ((codes "text", text (codes "hi")) ∷ []))) nil))
      ∷ []))

abbrev error_event : Fields
error_event = fields ((codes "error", text (codes "busy")) ∷ [])

-- `json.loads` on the two payloads of the example; all others are malformed.
abbrev decode_payload : Text → Option Json
decode_payload payload =
    if text_eq payload (codes "T")
    then some choice_event
    else if text_eq payload (codes "E")
    then some (object error_event)
    else none

abbrev str_of : Json → Text
str_of (text t) = t
str_of _ = []

abbrev runtime : Runtime
runtime = record { loads = decode_payload; dumps = λ v. []; str = str_of; clock = λ n. 10 + 5 * n }

abbrev lines : List Text
lines = codes "data: T" ∷ [] ∷ codes "data: [DONE]" ∷ []

abbrev success : Success
success = record {
  request_index = 0;
  start = 10;
  end_time = 20;
  duration = 10;
  ttft = some 5;
  decode = some 5;
  prompt_tokens = null;
  completion_tokens = null;
  text_bytes = 2;
}

consumed : consume_stream runtime 10 0 1 lines ≡ some (succeeded success)
unfolding consume_stream read_lines read_line visit_line visit_event visit_choices visit_choice
    get_field finish text_bytes_of join_parts encoded_length
consumed = refl

consume_stream-IsComplete_example : IsComplete runtime lines
consume_stream-IsComplete_example = consume_stream-IsComplete runtime 10 0 1 lines success consumed

sentinel-done : read_line runtime (codes "data: [DONE]") ≡ done
unfolding read_line
sentinel-done = refl

clock_runs : (i : ℕ) → 10 + 5 * i ≤ 10 + 5 * (i + 1)
clock_runs i = omega arith

consume_stream-IsConsistent_example : IsConsistent 10 success
consume_stream-IsConsistent_example =
    consume_stream-IsConsistent runtime clock_runs 10 0 1 lines success (omega arith) consumed

stopped_at_error :
    read_lines runtime (codes "data: E" ∷ []) (initial 1)
    ≡ stream_error (codes "stream error: busy") (initial 1)
unfolding read_lines read_line visit_line get_field summarize_stream_error
stopped_at_error = refl

percentile-Within_example :
    (r : Ratio) × (percentile (3 ∷ 9 ∷ 5 ∷ []) 95 ≡ some (some r)) × Within 3 9 r
percentile-Within_example =
    percentile-Within 3 (9 ∷ 5 ∷ []) 95 3 9 (omega arith)
      (omega arith, (omega arith, (omega arith, tt)))
      (omega arith, (omega arith, (omega arith, tt)))

percentile_test :
    percentile (3 ∷ 9 ∷ 5 ∷ []) 95 ≡ some (some (record { num = 5 * 100 + 4 * 90; den = 100 }))
unfolding percentile sorted insert
percentile_test = refl

abbrev failure : Failed
failure = record { request_index = 1; start = 10; end_time = 12; error = codes "busy" }

abbrev no_number : Text → Option ℕ
no_number t = none

abbrev rows : List Row
rows = succeeded success ∷ failed failure ∷ []

abbrev summary : Summary
summary = record {
  prompt_tokens_per_req = none;
  requests_ok = 1;
  requests_failed = 1;
  status = partial;
  wall = 20;
  total_prompt_tokens = 0;
  total_completion_tokens = 0;
  total_tps = some (record { num = 0; den = 20 });
  ttft_mean = some (record { num = 5; den = 1 });
  ttft_p50 = some (record { num = 5; den = 1 });
  ttft_p95 = some (record { num = 5; den = 1 });
  prefill_mean = some (record { num = 5; den = 1 });
  decode_mean = some (record { num = 5; den = 1 });
  decode_tps_mean = none;
  output_tps_mean = none;
}

aggregated : aggregate no_number 20 rows ≡ some (summary, codes "busy")
unfolding aggregate summarize collect status_of percentile sorted insert mean median mean_ratios
aggregated = refl

aggregate-perm_example :
    (aggregate no_number 20 (failed failure ∷ succeeded success ∷ [])
      ≡ some (summary, join (codes " | ") (messages (failed failure ∷ succeeded success ∷ []))))
    × (codes "busy" ≡ join (codes " | ") (messages rows))
    × Perm (messages rows) (messages (failed failure ∷ succeeded success ∷ []))
aggregate-perm_example =
    aggregate-perm no_number 20 summary (codes "busy")
      (Perm.swap (failed failure) (succeeded success) []) aggregated

aggregate-counts_example : (2 ≡ length rows) × (partial ≡ partial)
aggregate-counts_example = aggregate-counts no_number 20 rows summary (codes "busy") aggregated

abbrev host : Host
host = record { now = codes "now"; name = codes "strix"; six_digits = λ r. [] }

abbrev args : Args
args = record {
  run_id = codes "r1";
  transport = codes "tcp";
  parallelism = codes "pp";
  model = codes "m";
  concurrency = 2;
  max_tokens = 16;
  endpoint = [];
  socket_ifname = [];
  rdma_hca = [];
  vllm_extra_args = [];
  server_log = [];
  skip_reason = [];
}

abbrev written : Option (List (List Text))
written = some (
    append_csv none
      (update (base_row host args (codes "p")) (summary_row host summary (codes "busy"))))

appended-one_header_example :
    appended none ([] ∷ base_row host args [] ∷ [])
    ≡ some (csv_fields ∷ map cells ([] ∷ base_row host args [] ∷ []))
appended-one_header_example = appended-one_header [] (base_row host args [] ∷ [])
