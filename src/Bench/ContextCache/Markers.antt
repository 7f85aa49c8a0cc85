-- ===== src/Bench/ContextCache/Markers.antt =====
-- The rows of a prompt of glm53-context-cache.py: the three markers stand at their own places.
use nix_strix_halo.Prelude.{
  ℕ, zero, suc, ◌+◌, ◌*◌, ◌/◌, ◌≤◌, ◌<◌, ◌≡◌, ◌≢◌, refl, ap, ◌∙◌, Option, some, List, [], ◌∷◌,
  arith, length, get_elem?,
}
use nix_strix_halo.Prelude.Text.{Text}
use nix_strix_halo.Bench.ContextCache.{
  rows_from, set_row, then_set, early_row, middle_row, late_row, marked_rows, content_of,
  with_content, make_messages,
}

length-rows_from : (count first : ℕ) → length (rows_from count first) ≡ count
unfolding rows_from
length-rows_from zero first = refl
length-rows_from (suc count) first = ap suc (length-rows_from count (first + 1))

set_row-cons :
    (i : ℕ) (row r : Text) (rs rest : List Text)
    → set_row i row rs ≡ some rest
    → set_row (suc i) row (r ∷ rs) ≡ some (r ∷ rest)
unfolding set_row
set_row-cons i row r rs rest e = rw e refl

set_row-zero : (row r : Text) (rs : List Text) → set_row zero row (r ∷ rs) ≡ some (row ∷ rs)
unfolding set_row
set_row-zero row r rs = refl

-- A row that is there is set, and no other row changes.
set_row-some :
    (i : ℕ) (row : Text) (rows : List Text)
    → i < length rows
    → (out : List Text) × (set_row i row rows ≡ some out)
      × (length out ≡ length rows)
      × (get_elem? out i ≡ some row)
      × ((j : ℕ) → j ≢ i → get_elem? out j ≡ get_elem? rows j)
set_row-some i row [] h = absurd (omega arith)
set_row-some zero row (r ∷ rs) h = (row ∷ rs, set_row-zero row r rs, refl, refl, others)
  where
    others : (j : ℕ) → j ≢ zero → get_elem? (row ∷ rs) j ≡ get_elem? (r ∷ rs) j
    others zero n = absurd (n refl)
    others (suc j) n = refl
set_row-some (suc i) row (r ∷ rs) h =
    let (out, e, len, here, others) = set_row-some i row rs (omega arith) in
    (r ∷ out, set_row-cons i row r rs out e, ap suc len, here, kept out others)
  where
    kept :
        (out : List Text)
        → ((j : ℕ) → j ≢ i → get_elem? out j ≡ get_elem? rs j)
        → (j : ℕ) → j ≢ suc i
        → get_elem? (r ∷ out) j ≡ get_elem? (r ∷ rs) j
    kept out others zero n = refl
    kept out others (suc j) n = others j (λ e. n (ap suc e))

then_set-some :
    {rows : Option (List Text)} {out : List Text} (i : ℕ) (row : Text)
    → rows ≡ some out
    → then_set rows i row ≡ set_row i row out
then_set-some i row e = rw e refl

-- For every positive count the prompt has that many rows; from three rows on, the early, the middle
-- and the late marker stand at a tenth, at the half and at nine tenths of them, none overwritten,
-- and in every case all other rows are the plain records.
pub marked_rows-places :
    (count : ℕ)
    → 1 ≤ count
    → (rows : List Text) × (marked_rows count ≡ some rows)
      × (length rows ≡ count)
      × (3 ≤ count
          → (get_elem? rows (count / 10) ≡ some early_row)
            × (get_elem? rows (count / 2) ≡ some middle_row)
            × (get_elem? rows (9 * count / 10) ≡ some late_row))
      × ((j : ℕ)
          → j ≢ count / 10
          → j ≢ count / 2
          → j ≢ 9 * count / 10
          → get_elem? rows j ≡ get_elem? (rows_from count 0) j)
unfolding marked_rows
marked_rows-places count h =
    let len0 = length-rows_from count 0 in
    let (a, ea, la, ha, oa) =
      set_row-some (count / 10) early_row (rows_from count 0) (omega (arith, len0)) in
    let (b, eb, lb, hb, ob) = set_row-some (count / 2) middle_row a (omega (arith, len0, la)) in
    let (c, ec, lc, hc, oc) =
      set_row-some (9 * count / 10) late_row b (omega (arith, len0, la, lb)) in
    (
      c,
      then_set-some (9 * count / 10) late_row (then_set-some (count / 2) middle_row ea ∙ eb) ∙ ec,
      omega (arith, len0, la, lb, lc),
      λ big. (
        oc (count / 10) (omega arith) ∙ ob (count / 10) (omega arith) ∙ ha,
        oc (count / 2) (omega arith) ∙ hb,
        hc,
      ),
      λ j p q r. oc j r ∙ ob j q ∙ oa j p,
    )

pub make_messages-some : (count : ℕ) → 1 ≤ count → (t : Text) × (make_messages count ≡ some t)
unfolding make_messages
make_messages-some count h =
    let (rows, e, _, _, _) = marked_rows-places count h in (content_of rows, ap with_content e)
