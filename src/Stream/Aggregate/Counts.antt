-- ===== src/Stream/Aggregate/Counts.antt =====
-- Every request of a run is counted once.
use nix_strix_halo.Prelude.{
  ℕ, ◌+◌, ◌≡◌, refl, ap, ◌∙◌, Option, none, some, List, arith, if◌then◌else◌, ◌==◌, length,
}
use nix_strix_halo.Prelude.Text.{Text}
use nix_strix_halo.Stream.Consume.{Row, Success, Failed}
use nix_strix_halo.Stream.Aggregate.{
  ok_rows, bad_rows, ok, partial, all_failed, status_of, Summary, summarize, aggregate, collect,
  token_part, tps_part, output_tps_of, decode_tps_of, present, ◌>>=◌,
}
use nix_strix_halo.Stream.Stats.{percentile}
use nix_strix_halo.Stream.Aggregate.Bags.{length-rows, status_of-by_length}

>>=-some {ℓ κ} :
    {A : Type ℓ} {B : Type κ} (m : Option A) (f : A → Option B) {b : B}
    → (m >>= f) ≡ some b
    → (a : A) × (m ≡ some a) × (f a ≡ some b)
>>=-some none f h = cc
>>=-some (some a) f h = (a, refl, h)

-- The fields of the summary that count.
pub record IsCount (good : List Success) (bad : List Failed) (s : Summary) : Type 0 where
  pub good_count : s.requests_ok ≡ length good
  pub bad_count : s.requests_failed ≡ length bad
  pub status_count : s.status ≡ status_of good bad

module _ (parse_int : Text → Option ℕ) (wall : ℕ) where
  summarize-IsCount :
      (good : List Success) (bad : List Failed) (s : Summary)
      → summarize parse_int wall good bad ≡ some s
      → IsCount good bad s
  unfolding summarize
  summarize-IsCount good bad s h =
      let (ps, e1, h1) = >>=-some (collect (λ r. token_part parse_int r.prompt_tokens) good) _ h in
      let (cs, e2, h2) =
        >>=-some (collect (λ r. token_part parse_int r.completion_tokens) good) _ h1 in
      let (os, e3, h3) = >>=-some (collect (tps_part parse_int output_tps_of) good) _ h2 in
      let (ds, e4, h4) = >>=-some (collect (tps_part parse_int decode_tps_of) good) _ h3 in
      let (p50, e5, h5) = >>=-some (percentile (present (λ r. r.ttft) good) 50) _ h4 in
      let (p95, e6, h6) = >>=-some (percentile (present (λ r. r.ttft) good) 95) _ h5 in
      record { good_count = cc; bad_count = cc; status_count = cc }

  pub aggregate-IsCount :
      (rows : List Row) (s : Summary) (errors : Text)
      → aggregate parse_int wall rows ≡ some (s, errors)
      → IsCount (ok_rows rows) (bad_rows rows) s
  unfolding aggregate
  aggregate-IsCount rows s errors h =
      let (t, e, k) = >>=-some (summarize parse_int wall (ok_rows rows) (bad_rows rows)) _ h in
      let same : t ≡ s = cc in summarize-IsCount (ok_rows rows) (bad_rows rows) s (e ∙ ap some same)

  -- Where aggregate returns, every request is counted once, as ended well or not, and the status
  -- follows from the two counts.
  pub aggregate-counts :
      (rows : List Row) (s : Summary) (errors : Text)
      → aggregate parse_int wall rows ≡ some (s, errors)
      → (s.requests_ok + s.requests_failed ≡ length rows)
        × (s.status ≡ (
            if s.requests_ok == 0
            then all_failed
            else if s.requests_failed == 0
            then ok
            else partial))
  aggregate-counts rows s errors h =
      let c = aggregate-IsCount rows s errors h in
      (
        omega (arith, length-rows rows, c.good_count, c.bad_count),
        rw (c.good_count, c.bad_count)
            (c.status_count ∙ status_of-by_length (ok_rows rows) (bad_rows rows)),
      )
