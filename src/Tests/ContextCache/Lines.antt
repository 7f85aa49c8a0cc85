-- ===== src/Tests/ContextCache/Lines.antt =====
-- A prompt with n records has n + 2 lines.
use nix_strix_halo.Prelude.{
  ℕ, zero, suc, ◌+◌, ◌*◌, ◌-◌, ◌/◌, ◌%◌, ◌≤◌, ◌≡◌, refl, subst, ap, ◌∙◌, Option, none, some, List,
  [], ◌∷◌, ◌++◌, arith, if◌then◌else◌, ◌==◌, length, All, Option-cases, inl, inr,
}
use nix_strix_halo.Prelude.Text.{Text, codes}
use nix_strix_halo.Prelude.Decimal.{show, digits_of}
use nix_strix_halo.Bench.ContextCache.{
  zeros, padded, row_of, marker, rows_from, set_row, then_set, early_row, middle_row, late_row,
  marked_rows, concat, content_of, make_messages, with_content,
}
use nix_strix_halo.Bench.ContextCache.Markers.{marked_rows-places}

unfoldable pub lines_of : Text → ℕ
lines_of [] = 0
lines_of (c ∷ s) = (if c == 10 then 1 else 0) + lines_of s

lines_of-append : (s t : Text) → lines_of (s ++ t) ≡ lines_of s + lines_of t
unfolding lines_of
lines_of-append [] t = omega arith
lines_of-append (c ∷ s) t = omega (arith, lines_of-append s t)

lines_of-nil : lines_of [] ≡ 0
unfolding lines_of
lines_of-nil = refl

lines_of-digit : (d : ℕ) → lines_of ((b'0' + d) ∷ []) ≡ 0
unfolding lines_of
lines_of-digit d = ground arith

lines_of-digits_of : (fuel n : ℕ) → lines_of (digits_of fuel n) ≡ 0
unfolding digits_of
lines_of-digits_of zero n = lines_of-nil
lines_of-digits_of (suc fuel) n = ground (
  arith,
  lines_of-append (digits_of fuel (n / 10)) ((b'0' + n % 10) ∷ []),
  lines_of-digits_of fuel (n / 10),
  lines_of-digit n,
  lines_of-digit (n % 10),
)

lines_of-show : (n : ℕ) → lines_of (show n) ≡ 0
unfolding show
lines_of-show n = lines_of-digits_of (suc n) n

lines_of-zeros : (n : ℕ) → lines_of (zeros n) ≡ 0
unfolding lines_of
lines_of-zeros zero = refl
lines_of-zeros (suc n) = omega (arith, lines_of-zeros n)

lines_of-codes :
    (lines_of (codes "record_") ≡ 0)
    × (lines_of (codes ": build=") ≡ 0)
    × (lines_of (codes ", tests=") ≡ 0)
    × (lines_of (codes ", status=passed\n") ≡ 1)
unfolding lines_of
lines_of-codes = (refl, refl, refl, refl)

lines_of-padded : (i : ℕ) → lines_of (padded i) ≡ 0
unfolding padded
lines_of-padded i = omega (
  arith,
  lines_of-append (zeros (6 - length (show i))) (show i),
  lines_of-zeros (6 - length (show i)),
  lines_of-show i,
)

lines_of-row_of : (i : ℕ) → lines_of (row_of i) ≡ 1
unfolding row_of
lines_of-row_of i =
    let (a, b, c, d) = lines_of-codes in
    let upto_build = padded i ++ codes ": build=" in
    let upto_number = upto_build ++ show (i % 97) in
    let upto_tests = upto_number ++ codes ", tests=" in
    let upto_count = upto_tests ++ show (i % 31) in
    lines_of-append (codes "record_") (upto_count ++ codes ", status=passed\n")
    ∙ omega (
      arith,
      a,
      b,
      c,
      d,
      lines_of-append (padded i) (codes ": build="),
      lines_of-append upto_build (show (i % 97)),
      lines_of-append upto_number (codes ", tests="),
      lines_of-append upto_tests (show (i % 31)),
      lines_of-append upto_count (codes ", status=passed\n"),
      lines_of-padded i,
      lines_of-show (i % 97),
      lines_of-show (i % 31),
    )

IsLine : Text → Type 0
IsLine r = lines_of r ≡ 1

markers : IsLine early_row × IsLine middle_row × IsLine late_row
unfolding IsLine lines_of marker
markers = (refl, refl, refl)

rows_from-IsLine : (count first : ℕ) → All IsLine (rows_from count first)
unfolding rows_from IsLine
rows_from-IsLine zero first = tt
rows_from-IsLine (suc count) first = (lines_of-row_of first, rows_from-IsLine count (first + 1))

set_row-IsLine :
    (i : ℕ) (row : Text) (rows : List Text) {out : List Text}
    → IsLine row
    → All IsLine rows
    → set_row i row rows ≡ some out
    → All IsLine out
unfolding set_row
set_row-IsLine i row [] p h e = cc
set_row-IsLine zero row (r ∷ rs) {out} p h e =
    let q : row ∷ rs ≡ out = cc in subst (All IsLine) q (p, h.1)
set_row-IsLine (suc i) row (r ∷ rs) {out} p h e = elim (Option-cases (set_row i row rs)) [
  | inl none_set ↦ let q = rw none_set at e in cc
  | inr (rest, found) ↦
      let q : r ∷ rest ≡ out = let k = rw found at e in cc in
      subst (All IsLine) q (h.0, set_row-IsLine i row rs p (h.1) found)
]

then_set-IsLine :
    (o : Option (List Text)) (i : ℕ) (row : Text) {out : List Text}
    → IsLine row
    → ((rows : List Text) → o ≡ some rows → All IsLine rows)
    → then_set o i row ≡ some out
    → All IsLine out
then_set-IsLine none i row p all_lines e = cc
then_set-IsLine (some rows) i row p all_lines e =
    set_row-IsLine i row rows p (all_lines rows refl) e

marked_rows-IsLine :
    (count : ℕ) (rows : List Text) → marked_rows count ≡ some rows → All IsLine rows
unfolding marked_rows
marked_rows-IsLine count rows e =
    then_set-IsLine _ (9 * count / 10) late_row (markers.2)
      (λ a ea.
        then_set-IsLine _ (count / 2) middle_row (markers.1)
          (λ b eb.
            set_row-IsLine (count / 10) early_row _ (markers.0) (rows_from-IsLine count 0) eb)
          ea)
      e

lines_of-concat : (rows : List Text) → All IsLine rows → lines_of (concat rows) ≡ length rows
unfolding IsLine
lines_of-concat [] h = lines_of-nil
lines_of-concat (r ∷ rs) h =
    let ih = lines_of-concat rs (h.1) in
    let first = h.0 in omega (arith, lines_of-append r (concat rs))

frame :
    (lines_of (
        codes
          "Read these build records. Three ACCEPTANCE_MARKER records contain values to remember.\n")
      ≡ 1)
    × (lines_of (
          codes
            "\nReturn only a JSON object mapping early, middle, and late to the exact values in their ACCEPTANCE_MARKER records.")
        ≡ 1)
unfolding lines_of
frame = (refl, refl)

lines_of-content_of :
    (rows : List Text) → All IsLine rows → lines_of (content_of rows) ≡ length rows + 2
unfolding content_of
lines_of-content_of rows h =
    lines_of-append
      (codes
        "Read these build records. Three ACCEPTANCE_MARKER records contain values to remember.\n")
      _
    ∙ omega (
      arith,
      frame.0,
      frame.1,
      lines_of-append (concat rows) (
          codes
            "\nReturn only a JSON object mapping early, middle, and late to the exact values in their ACCEPTANCE_MARKER records."),
      lines_of-concat rows h,
    )

pub make_messages-lines :
    (count : ℕ) → 1 ≤ count → (t : Text) × (make_messages count ≡ some t) × (lines_of t ≡ count + 2)
unfolding make_messages
make_messages-lines count h =
    let (rows, e, len, _, _) = marked_rows-places count h in
    let made = lines_of-content_of rows (marked_rows-IsLine count rows e) in
    (content_of rows, ap with_content e, omega (arith, made, len))
