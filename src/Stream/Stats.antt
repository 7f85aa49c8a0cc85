-- ===== src/Stream/Stats.antt =====
-- `percentile` of vllm-stream-client.py, and `statistics.mean` and `statistics.median` as it uses
-- them. Times are whole ticks of the clock, and results are exact fractions.
pub mod Percentile
use nix_strix_halo.Prelude.{
  ℕ, zero, suc, ◌+◌, ◌-◌, ◌*◌, ◌/◌, ◌%◌, Bool, true, false, Option, none, some, List, [], ◌∷◌,
  if◌then◌else◌, ◌==◌, length, get_elem?, compare,
}
use nix_strix_halo.Prelude.Sort.{sorted}

pub record Ratio : Type 0 where
  pub num : ℕ
  pub den : ℕ

abbrev pub whole : ℕ → Ratio
whole n = record { num = n; den = 1 }

-- The sum of two fractions, over the product of their denominators.
abbrev pub plus : Ratio → Ratio → Ratio
plus a b = record { num = a.num * b.den + b.num * a.den; den = a.den * b.den }

abbrev pub sum : List ℕ → ℕ
sum [] = 0
sum (n ∷ ns) = n + sum ns

abbrev pub sum_ratios : List Ratio → Ratio
sum_ratios [] = whole 0
sum_ratios (r ∷ rs) = plus r (sum_ratios rs)

-- statistics.mean(values) if values else None
unfoldable pub mean : List ℕ → Option Ratio
mean [] = none
mean (n ∷ ns) = some (record { num = sum (n ∷ ns); den = length (n ∷ ns) })

unfoldable pub mean_ratios : List Ratio → Option Ratio
mean_ratios [] = none
mean_ratios (r ∷ rs) =
    let total = sum_ratios (r ∷ rs) in
    some (record { num = total.num; den = total.den * length (r ∷ rs) })

abbrev pub at : List ℕ → ℕ → ℕ
at xs i = elim (get_elem? xs i) [ none ↦ 0 | some x ↦ x ]

-- statistics.median(values) if values else None
unfoldable pub median : List ℕ → Option Ratio
median [] = none
median (n ∷ ns) =
    let ordered = sorted compare (n ∷ ns) in
    let size = length (n ∷ ns) in
    if size % 2 == 1
    then some (whole (at ordered (size / 2)))
    else some (record { num = at ordered (size / 2 - 1) + at ordered (size / 2); den = 2 })

-- ordered[lo], or between ordered[lo] and ordered[hi]: `none` is an IndexError. `part` is the
-- hundredths of `rank - lo`.
abbrev pub interpolate : Option ℕ → Option ℕ → ℕ → Option Ratio
interpolate (some low) (some high) part =
    some (record { num = low * 100 + (high - low) * part; den = 100 })
interpolate _ _ part = none

abbrev pub exactly : Option ℕ → Option Ratio
exactly none = none
exactly (some a) = some (whole a)

abbrev pub found : Option Ratio → Option (Option Ratio)
found none = none
found (some r) = some (some r)

-- The outer `none` is an IndexError, the inner one is Python's `None`. `pct` is a whole number, and
-- `rank` is counted in hundredths.
unfoldable pub percentile : List ℕ → ℕ → Option (Option Ratio)
percentile [] pct = some none
percentile (x ∷ []) pct = found (exactly (get_elem? (sorted compare (x ∷ [])) 0))
percentile (x ∷ y ∷ ys) pct =
    let ordered = sorted compare (x ∷ y ∷ ys) in
    let rank = pct * (length ordered - 1) in
    let lo = rank / 100 in
    let hi = (rank + 99) / 100 in
    if lo == hi
    then found (exactly (get_elem? ordered lo))
    else found (interpolate (get_elem? ordered lo) (get_elem? ordered hi) (rank % 100))
