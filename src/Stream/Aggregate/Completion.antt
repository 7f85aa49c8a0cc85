-- ===== src/Stream/Aggregate/Completion.antt =====
-- The order in which the requests end does not show in the summary of a run.
use mathlib.Core.Logic.{∥∥₁_elim}
use mathlib.Core.List.{Perm, Permᴰ}
use mathlib.Core.List.Perm
use mathlib.Core.Option.{some-injective}
use nix_strix_halo.Prelude.{
  ℕ, ◌≡◌, refl, sym, ap, ◌∙◌, inl, inr, Option, some, List, [], ◌∷◌, map, length, take,
  Option-cases,
}
use nix_strix_halo.Prelude.Bags.{length-perm}
use nix_strix_halo.Prelude.Text.{Text, codes, join}
use nix_strix_halo.Stream.Consume.{Row, Success, Failed}
use nix_strix_halo.Stream.Stats.Percentile.{percentile-perm}
use nix_strix_halo.Stream.Aggregate.Bags.{
  ok_rows-perm, bad_rows-perm, length-bad_rows, bind-SameBag, collect-perm, present-perm, sum-perm,
  mean-perm, mean_ratios-perm, median-perm, status_of-lengths,
}
use nix_strix_halo.Stream.Aggregate.{
  ok_rows, bad_rows, errors_of, token_part, tps_part, Summary, summarize, aggregate, output_tps_of,
  decode_tps_of,
}

module _ (parse_int : Text → Option ℕ) (wall : ℕ) where
  summarize-perm :
      {xs ys : List Success} (bad bad' : List Failed)
      → Permᴰ xs ys
      → length bad ≡ length bad'
      → summarize parse_int wall xs bad ≡ summarize parse_int wall ys bad'
  unfolding summarize
  summarize-perm {xs} {ys} bad bad' p e =
      bind-SameBag _ _ _ _ (collect-perm (λ r. token_part parse_int r.prompt_tokens) p) λ ps qs pq.
        bind-SameBag _ _ _ _ (collect-perm (λ r. token_part parse_int r.completion_tokens) p)
          λ cs ds cd.
            bind-SameBag _ _ _ _ (collect-perm (tps_part parse_int output_tps_of) p) λ os us ou.
              bind-SameBag _ _ _ _ (collect-perm (tps_part parse_int decode_tps_of) p) λ es fs ef.
                rw (
                  percentile-perm 50 ∣ present-perm (λ r. r.ttft) p ∣₁,
                  percentile-perm 95 ∣ present-perm (λ r. r.ttft) p ∣₁,
                  median-perm pq,
                  status_of-lengths xs ys bad bad' (length-perm p) e,
                  length-perm p,
                  e,
                  sum-perm pq,
                  sum-perm cd,
                  mean-perm (present-perm (λ r. r.ttft) p),
                  mean-perm (present-perm (λ r. r.decode) p),
                  mean_ratios-perm ou,
                  mean_ratios-perm ef,
                )

-- What a request that did not end well adds to the messages: 300 characters of its error at most.
abbrev pub messages : List Row → List Text
messages rows = map (λ (f : Failed). take 300 f.error) (bad_rows rows)

errors_of-messages : (bad : List Failed) → errors_of bad ≡ map (λ f. take 300 f.error) bad
errors_of-messages [] = refl
errors_of-messages (f ∷ bad) = ap (λ l. take 300 f.error ∷ l) (errors_of-messages bad)

aggregate-some :
    (parse_int : Text → Option ℕ) (wall : ℕ) (rows : List Row) {s : Summary}
    → summarize parse_int wall (ok_rows rows) (bad_rows rows) ≡ some s
    → aggregate parse_int wall rows ≡ some (s, join (codes " | ") (messages rows))
unfolding aggregate
aggregate-some parse_int wall rows e = rw (e, errors_of-messages (bad_rows rows)) refl

aggregate-summary :
    (parse_int : Text → Option ℕ) (wall : ℕ) (rows : List Row) {s : Summary} {errors : Text}
    → aggregate parse_int wall rows ≡ some (s, errors)
    → summarize parse_int wall (ok_rows rows) (bad_rows rows) ≡ some s
unfolding aggregate
aggregate-summary parse_int wall rows h =
    elim (Option-cases (summarize parse_int wall (ok_rows rows) (bad_rows rows))) [
      | inl e ↦ cc (rw e at h)
      | inr (s, e) ↦ e ∙ ap some (ap (λ p. p.0) (some-injective _ _ (rw e at h)))
    ]

-- Where aggregate returns for the requests in one order, it returns the same fields for any other
-- order in which they end, and the errors are in both cases the messages of all requests that did
-- not end well, each at most 300 characters long, joined in the order in which these ended; the one
-- list of messages is a reordering of the other.
pub aggregate-perm :
    (parse_int : Text → Option ℕ) (wall : ℕ) {rows rows' : List Row} (s : Summary) (errors : Text)
    → Perm rows rows'
    → aggregate parse_int wall rows ≡ some (s, errors)
    → (aggregate parse_int wall rows' ≡ some (s, join (codes " | ") (messages rows')))
      × (errors ≡ join (codes " | ") (messages rows))
      × Perm (messages rows) (messages rows')
aggregate-perm parse_int wall {rows} {rows'} s errors p h =
    let known = aggregate-summary parse_int wall rows h in
    let set : IsSet (Option Summary) = hlevel in
    let same : summarize parse_int wall (ok_rows rows) (bad_rows rows)
        ≡ summarize parse_int wall (ok_rows rows') (bad_rows rows') =
      ∥∥₁_elim p (set _ _) λ d.
        summarize-perm parse_int wall (bad_rows rows) (bad_rows rows') (ok_rows-perm d)
          (length-bad_rows d) in
    (
      aggregate-some parse_int wall rows' (sym same ∙ known),
      ap (λ p. p.1) (some-injective _ _ (sym h ∙ aggregate-some parse_int wall rows known)),
      Perm.map _ (∥∥₁_elim p squash₁ λ d. ∣ bad_rows-perm d ∣₁),
    )
