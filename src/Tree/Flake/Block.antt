-- ===== src/Tree/Flake/Block.antt =====
-- The generated block of flake.nix is replaced, and nothing around it.
use nix_strix_halo.Prelude.{
  suc, ◌+◌, ◌≡◌, refl, sym, ap, ◌∙◌, inl, inr, true, none, List, [], ◌∷◌, ◌++◌, arith, ltb, take,
  drop, length, length-append, Bool-cases, Option-cases,
}
use mathlib.Core.List.{append_assoc}
use nix_strix_halo.Prelude.Text.{Text}
use nix_strix_halo.Tree.Git.{yields}
use nix_strix_halo.Tree.Names.{Parsed, nix_string}
use nix_strix_halo.Tree.Flake.{
  SourceEntry, begin_inputs, end_inputs, index_of, all_entry_lines, generated_note, input_lines,
  replace_block, update_lines,
}
use nix_strix_halo.Tree.Flake.Markers.{IsMarked, index_of-IsMarked, place_begin, place_end}

take-append : (s t : List Text) → take (length s) (s ++ t) ≡ s
take-append [] t = refl
take-append (x ∷ s) t = ap (λ r. x ∷ r) (take-append s t)

drop-append : (s t : List Text) → drop (length s) (s ++ t) ≡ t
drop-append [] t = refl
drop-append (x ∷ s) t = drop-append s t

-- What lies behind the block, by its place.
drop-block :
    (pre mid post : List Text) (b e : Text)
    → drop (length pre + suc (length mid) + 1) (pre ++ b ∷ (mid ++ e ∷ post)) ≡ post
drop-block pre mid post b e =
    let head = pre ++ b ∷ (mid ++ e ∷ []) in
    let same : head ++ post ≡ pre ++ b ∷ (mid ++ e ∷ post) =
      append_assoc pre (b ∷ (mid ++ e ∷ [])) post
      ∙ ap (λ ls. pre ++ b ∷ ls) (append_assoc mid (e ∷ []) post) in
    let place : length pre + suc (length mid) + 1 ≡ length head =
      omega (arith, length-append pre (b ∷ (mid ++ e ∷ [])), length-append mid (e ∷ [])) in
    rw (place, ← same) (drop-append head post)

module _ (urlparse : Text → Parsed) (root : SourceEntry) (submodules : List SourceEntry) where
  -- In lines where neither marker stands before the begin marker, and no end marker between it and
  -- the end marker, the block from the one marker to the other is replaced by the generated lines,
  -- and all lines before and behind stay.
  pub update_lines-block :
      (pre mid post : List Text)
      → index_of begin_inputs pre ≡ none
      → index_of end_inputs pre ≡ none
      → index_of end_inputs mid ≡ none
      → update_lines urlparse root submodules (pre ++ begin_inputs ∷ (mid ++ end_inputs ∷ post))
        ≡ yields (pre ++ (input_lines urlparse root submodules ++ post))
  unfolding update_lines
  update_lines-block pre mid post h k l =
      let less : ltb (length pre) (length pre + suc (length mid)) ≡ true = ground arith in
      rw (
        place_begin pre _ h,
        place_end pre mid post k l,
        less,
        take-append pre (begin_inputs ∷ (mid ++ end_inputs ∷ post)),
        drop-block pre mid post begin_inputs end_inputs,
      )

  -- Between the first begin marker and the first end marker, where this one comes behind, the lines
  -- are replaced by the generated ones; all lines before and behind stay.
  pub update_lines-marked :
      (lines : List Text) (m : IsMarked lines)
      → update_lines urlparse root submodules lines
        ≡ yields (m.pre ++ (input_lines urlparse root submodules ++ m.post))
  update_lines-marked lines m =
      ap (update_lines urlparse root submodules) m.parts
      ∙ update_lines-block m.pre m.mid m.post m.no_begin m.no_end m.open_end

  -- The lines are updated only where both markers are there, in order.
  pub update_lines-IsMarked :
      (lines out : List Text)
      → update_lines urlparse root submodules lines ≡ yields out
      → IsMarked lines
  unfolding update_lines
  update_lines-IsMarked lines out h = elim (Option-cases (index_of begin_inputs lines)) [
    | inl n ↦ cc (rw (n, replace_block) at h)
    | inr (i, b) ↦ elim (Option-cases (index_of end_inputs lines)) [
      | inl n ↦ cc (rw (b, n, replace_block) at h)
      | inr (j, e) ↦ elim (Bool-cases (ltb i j)) [
        | inl less ↦ index_of-IsMarked lines i j b e (ground arith)
        | inr more ↦ cc (rw (b, e, replace_block, more) at h)
      ]
    ]
  ]

  no_end_in-entries :
      (entries : List SourceEntry) → index_of end_inputs (all_entry_lines urlparse entries) ≡ none
  unfolding all_entry_lines index_of nix_string
  no_end_in-entries [] = refl
  no_end_in-entries (entry ∷ entries) = rw (no_end_in-entries entries)

  -- The generated lines are a block between the markers.
  generated : List Text
  generated = generated_note urlparse ∷ all_entry_lines urlparse (root ∷ submodules)

  input_lines-block :
      (post : List Text)
      → input_lines urlparse root submodules ++ post
        ≡ begin_inputs ∷ (generated ++ end_inputs ∷ post)
  unfolding input_lines generated
  input_lines-block post =
      ap (λ ls. begin_inputs ∷ generated_note urlparse ∷ ls)
        (append_assoc (all_entry_lines urlparse (root ∷ submodules)) (end_inputs ∷ []) post)

  no_end_in-generated : index_of end_inputs generated ≡ none
  unfolding generated index_of
  no_end_in-generated = rw (no_end_in-entries (root ∷ submodules))

  -- A second update with the same inputs changes nothing.
  pub update_lines-again :
      (lines out : List Text)
      → update_lines urlparse root submodules lines ≡ yields out
      → update_lines urlparse root submodules out ≡ yields out
  update_lines-again lines out h =
      let m = update_lines-IsMarked lines out h in
      let made : out ≡ m.pre ++ (input_lines urlparse root submodules ++ m.post) =
        cc (h, update_lines-marked lines m) in
      let shape : out ≡ m.pre ++ begin_inputs ∷ (generated ++ end_inputs ∷ m.post) =
        made ∙ ap (λ ls. m.pre ++ ls) (input_lines-block m.post) in
      ap (update_lines urlparse root submodules) shape
      ∙ update_lines-block m.pre generated m.post m.no_begin m.no_end no_end_in-generated
      ∙ ap yields (sym made)
