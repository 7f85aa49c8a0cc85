-- ===== src/Tests/ContextCache.antt =====
-- The search for the longest prompt against a server that counts the characters of a text.
mod Lines
use nix_strix_halo.Prelude.{
  ℕ, zero, suc, ◌+◌, ◌*◌, ◌/◌, ◌^◌, ◌≤◌, ◌<◌, ◌≡◌, ◌≢◌, ◌↔◌, ◌⊎◌, refl, ◌∙◌, Bool, true, false,
  Option, none, some, List, [], ◌∷◌, arith, if◌then◌else◌, leb, ltb, ◌==◌, length, get_elem?,
}
use nix_strix_halo.Prelude.Text.{Text, codes}
use nix_strix_halo.Prelude.Decimal.{show, digits_of}
use nix_strix_halo.Json.{Json, json_eq, get_field}
use nix_strix_halo.Tests.ContextCache.Lines.{lines_of, make_messages-lines}
use nix_strix_halo.Bench.Script.{gives}
use nix_strix_halo.Bench.ContextCache.{
  Chat, Completion, expected, fit, run, marked_rows, rows_from, early_row, middle_row, late_row,
  make_messages, row_of,
}
use nix_strix_halo.Bench.ContextCache.Markers.{marked_rows-places}
use nix_strix_halo.Bench.ContextCache.Fit.{
  IsCounter, size_of, size_of-content, fit-IsLast, fit-largest,
}
use nix_strix_halo.Bench.ContextCache.Phases.{IsPassed, run-IsPassed}

row_test : row_of 1_234 ≡ codes "record_001234: build=70, tests=25, status=passed\n"
unfolding row_of show
row_test = refl

marked_rows-places_example :
    (rows : List Text) × (marked_rows 20 ≡ some rows)
    × (length rows ≡ 20)
    × (3 ≤ 20
        → (get_elem? rows 2 ≡ some early_row)
          × (get_elem? rows 10 ≡ some middle_row)
          × (get_elem? rows 18 ≡ some late_row))
    × ((j : ℕ) → j ≢ 2 → j ≢ 10 → j ≢ 18 → get_elem? rows j ≡ get_elem? (rows_from 20 0) j)
marked_rows-places_example = marked_rows-places 20 (omega arith)

-- A server whose tokens are the lines.
abbrev recalled : Completion
recalled = record {
  finish_reason = codes "stop";
  content = codes " markers ";
  reasoning_content = none;
  prompt_tokens = 100;
  prompt_tokens_details = none;
}

abbrev line_server : Chat
line_server = record {
  State = Unit {0};
  tokenize = λ t s. (some (lines_of t), s);
  flush = λ s. (true, s);
  complete = λ t n s. (some recalled, s);
  loads = λ t. some expected;
}

run_test : run line_server 1 110 10 false tt ≡ gives (98, 100) tt
unfolding run lines_of make_messages row_of show json_eq get_field
run_test = refl

run-IsPassed_example : IsPassed line_server 110 10 false 98 100 tt
run-IsPassed_example = run-IsPassed line_server 1 110 10 false tt 98 100 tt run_test

counts : IsCounter line_server lines_of
counts t s = refl

size_of-line_server :
    (count : ℕ) → 1 ≤ count → size_of line_server lines_of counts count ≡ count + 2
size_of-line_server count h =
    let (t, e, n) = make_messages-lines count h in
    size_of-content line_server lines_of counts count e ∙ n

fit-largest_example :
    (l : ℕ) × (fit line_server 1 100 tt ≡ gives l tt)
    × ((n : ℕ) → 1 ≤ n → (size_of line_server lines_of counts n ≤ 100) ↔ (n ≤ l))
fit-largest_example =
    fit-largest line_server lines_of counts 100 1 0 tt (omega arith)
      (omega (arith, size_of-line_server 256 (omega arith)))
      (omega (arith, size_of-line_server 10 (omega arith)))
      (λ n m h l. omega (arith, size_of-line_server n h, size_of-line_server m (omega arith)))
