-- ===== src/Stream/Report/File.antt =====
-- What runs of the client leave in the CSV file, and their exit codes.
use nix_strix_halo.Prelude.{◌≡◌, sym, ap, ◌∙◌, Option, none, some, List, [], ◌∷◌, ◌++◌, map, length}
use mathlib.Core.List.{append_assoc, append-nil}
use nix_strix_halo.Prelude.Decimal.{show}
use nix_strix_halo.Prelude.Text.{Text, codes}
use nix_strix_halo.Prelude.Dict.{Dict}
use nix_strix_halo.Stream.Consume.{Success, Failed}
use nix_strix_halo.Stream.Report.{csv_fields, cell, cells, append_csv}

-- The file after one run for each row, from a file that may not be there.
abbrev pub appended : Option (List (List Text)) → List (Dict Text) → Option (List (List Text))
appended file [] = file
appended file (row ∷ rows) = appended (some (append_csv file row)) rows

more_rows :
    (r : List Text) (rs : List (List Text)) (rows : List (Dict Text))
    → appended (some (r ∷ rs)) rows ≡ some ((r ∷ rs) ++ map cells rows)
unfolding append_csv
more_rows r rs [] = ap (λ xs. some (r ∷ xs)) (sym (append-nil rs))
more_rows r rs (row ∷ rows) =
    more_rows r (rs ++ cells row ∷ []) rows
    ∙ ap (λ xs. some (r ∷ xs)) (append_assoc rs (cells row ∷ []) (map cells rows))

-- However many runs, at least one, append to a file that is not there, the header stands once, at
-- the front, and the rows follow in the order of the runs.
pub appended-one_header :
    (row : Dict Text) (rows : List (Dict Text))
    → appended none (row ∷ rows) ≡ some (csv_fields ∷ map cells (row ∷ rows))
unfolding append_csv
appended-one_header row rows = more_rows csv_fields (cells row ∷ []) rows

-- The records of a file that has any, and the header of one that has none.
abbrev pub with_header : Option (List (List Text)) → List (List Text)
with_header none = csv_fields ∷ []
with_header (some []) = csv_fields ∷ []
with_header (some (r ∷ rs)) = r ∷ rs

-- The row of a run that aggregated counts the requests, and its errors are those of the run.
pub record IsCounting (good : List Success) (bad : List Failed) (row : Dict Text) : Type 0 where
  pub good_cell : cell row (codes "requests_ok") ≡ show (length good)
  pub bad_cell : cell row (codes "requests_failed") ≡ show (length bad)
