-- ===== src/Stream/Report.antt =====
-- `fmt`, `base_row`, `append_csv` and `main` of vllm-stream-client.py. A CSV file is the list of its
-- records, each the list of its cells.
pub mod File
use nix_strix_halo.Prelude.{
  ℕ, ◌+◌, ◌≡◌, refl, Bool, true, false, Option, none, some, List, [], ◌∷◌, ◌++◌, map, if◌then◌else◌,
  ltb, length,
}
use nix_strix_halo.Prelude.Decimal.{show}
use nix_strix_halo.Prelude.Text.{Text, codes}
use nix_strix_halo.Prelude.Dict.{Dict, get, put}
use nix_strix_halo.Stream.Consume.{Row}
use nix_strix_halo.Stream.Stats.{Ratio, whole}
use nix_strix_halo.Stream.Aggregate.{Status, ok, partial, all_failed, Summary, aggregate}

abbrev pub csv_fields : List Text
csv_fields =
    codes "timestamp_utc"
    ∷ codes "run_id"
    ∷ codes "host"
    ∷ codes "transport"
    ∷ codes "parallelism"
    ∷ codes "model"
    ∷ codes "concurrency"
    ∷ codes "max_tokens"
    ∷ codes "prompt_chars"
    ∷ codes "prompt_tokens_per_req"
    ∷ codes "requests_ok"
    ∷ codes "requests_failed"
    ∷ codes "status"
    ∷ codes "skip_reason"
    ∷ codes "wall_s"
    ∷ codes "total_prompt_tokens"
    ∷ codes "total_completion_tokens"
    ∷ codes "total_tps"
    ∷ codes "ttft_mean_s"
    ∷ codes "ttft_p50_s"
    ∷ codes "ttft_p95_s"
    ∷ codes "prefill_mean_s"
    ∷ codes "decode_mean_s"
    ∷ codes "decode_tps_mean"
    ∷ codes "output_tps_mean"
    ∷ codes "endpoint"
    ∷ codes "socket_ifname"
    ∷ codes "rdma_hca"
    ∷ codes "vllm_extra_args"
    ∷ codes "server_log"
    ∷ codes "errors"
    ∷ []

pub record Args : Type 0 where
  pub run_id : Text
  pub transport : Text
  pub parallelism : Text
  pub model : Text
  pub concurrency : ℕ
  pub max_tokens : ℕ
  pub endpoint : Text
  pub socket_ifname : Text
  pub rdma_hca : Text
  pub vllm_extra_args : Text
  pub server_log : Text
  pub skip_reason : Text

-- The clock's date, the host's name, and how a float is written: f"{value:.6f}".
pub record Host : Type 0 where
  pub now : Text
  pub name : Text
  pub six_digits : Ratio → Text

-- An exact fraction is neither NaN nor infinite.
unfoldable pub fmt : Host → Option Ratio → Text
fmt host none = []
fmt host (some r) = host.six_digits r

unfoldable pub base_row : Host → Args → Text → Dict Text
base_row host args prompt =
    (codes "timestamp_utc", host.now)
    ∷ (codes "run_id", args.run_id)
    ∷ (codes "host", host.name)
    ∷ (codes "transport", args.transport)
    ∷ (codes "parallelism", args.parallelism)
    ∷ (codes "model", args.model)
    ∷ (codes "concurrency", show args.concurrency)
    ∷ (codes "max_tokens", show args.max_tokens)
    ∷ (codes "prompt_chars", show (length prompt))
    ∷ (codes "endpoint", args.endpoint)
    ∷ (codes "socket_ifname", args.socket_ifname)
    ∷ (codes "rdma_hca", args.rdma_hca)
    ∷ (codes "vllm_extra_args", args.vllm_extra_args)
    ∷ (codes "server_log", args.server_log)
    ∷ []

-- row.update(more)
abbrev pub update : Dict Text → Dict Text → Dict Text
update row [] = row
update row ((k, v) ∷ more) = update (put k v row) more

abbrev status_text : Status → Text
status_text ok = codes "ok"
status_text partial = codes "partial"
status_text all_failed = codes "failed"

abbrev pub summary_row : Host → Summary → Text → Dict Text
summary_row host s errors =
    (codes "prompt_tokens_per_req", fmt host s.prompt_tokens_per_req)
    ∷ (codes "requests_ok", show s.requests_ok)
    ∷ (codes "requests_failed", show s.requests_failed)
    ∷ (codes "status", status_text s.status)
    ∷ (codes "skip_reason", [])
    ∷ (codes "wall_s", fmt host (some (whole s.wall)))
    ∷ (codes "total_prompt_tokens", show s.total_prompt_tokens)
    ∷ (codes "total_completion_tokens", show s.total_completion_tokens)
    ∷ (codes "total_tps", fmt host s.total_tps)
    ∷ (codes "ttft_mean_s", fmt host s.ttft_mean)
    ∷ (codes "ttft_p50_s", fmt host s.ttft_p50)
    ∷ (codes "ttft_p95_s", fmt host s.ttft_p95)
    ∷ (codes "prefill_mean_s", fmt host s.prefill_mean)
    ∷ (codes "decode_mean_s", fmt host s.decode_mean)
    ∷ (codes "decode_tps_mean", fmt host s.decode_tps_mean)
    ∷ (codes "output_tps_mean", fmt host s.output_tps_mean)
    ∷ (codes "errors", errors)
    ∷ []

abbrev skipped_row : Text → Dict Text
skipped_row reason =
    (codes "requests_ok", codes "0")
    ∷ (codes "requests_failed", codes "0")
    ∷ (codes "status", codes "skipped")
    ∷ (codes "skip_reason", reason)
    ∷ []

-- row.get(field, "")
abbrev pub cell : Dict Text → Text → Text
cell row name = elim (get name row) [ none ↦ [] | some v ↦ v ]

unfoldable pub cells : Dict Text → List Text
cells row = map (cell row) csv_fields

-- path.exists() and path.stat().st_size > 0
abbrev pub has_content : Option (List (List Text)) → Bool
has_content none = false
has_content (some []) = false
has_content (some (r ∷ rs)) = true

abbrev pub records_of : Option (List (List Text)) → List (List Text)
records_of none = []
records_of (some rs) = rs

-- The file after the call, opened for appending; `none` is a file that is not there.
unfoldable pub append_csv : Option (List (List Text)) → Dict Text → List (List Text)
append_csv file row =
    if has_content file
    then records_of file ++ cells row ∷ []
    else records_of file ++ csv_fields ∷ cells row ∷ []

-- The exit code and the file that `main` leaves; an exception of `aggregate` ends the program.
pub data Exit : Type 0 where
  exits : ℕ → Option (List (List Text)) → Exit
  raises : Option (List (List Text)) → Exit

abbrev pub code_of : Status → ℕ
code_of ok = 0
code_of partial = 0
code_of all_failed = 1

abbrev pub has_text : Text → Bool
has_text [] = false
has_text (c ∷ s) = true

-- `main` behind the call of `aggregate`.
unfoldable pub finish_run :
    Host → Args → Text → Option (List (List Text)) → Option (Summary × Text) → Exit
finish_run host args prompt file none = raises file
finish_run host args prompt file (some (s, errors)) =
    exits (code_of s.status)
      (some (append_csv file (update (base_row host args prompt) (summary_row host s errors))))

-- `rows` are the rows of the requests in the order in which they ended.
unfoldable pub main :
    Host → (Text → Option ℕ) → Args → Text → ℕ → List Row → Option (List (List Text)) → Exit
main host parse_int args prompt wall rows file =
    if has_text args.skip_reason
    then exits 0
        (some (append_csv file (update (base_row host args prompt) (skipped_row args.skip_reason))))
    else if ltb args.concurrency 1
    then exits 2 file
    else finish_run host args prompt file (aggregate parse_int wall rows)
