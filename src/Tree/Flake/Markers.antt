-- ===== src/Tree/Flake/Markers.antt =====
-- Where `lines.index` of update-source-tree.py finds the two markers.
use nix_strix_halo.Prelude.{
  ℕ, suc, ◌+◌, ◌≤◌, ◌<◌, ◌≡◌, refl, sym, ap, ◌∙◌, inl, inr, Option, none, some, List, [], ◌∷◌, ◌++◌,
  arith, length, Bool-cases, Option-cases,
}
use nix_strix_halo.Prelude.Text.{Text, text_eq, text_eq_iff, text_eq_refl}
use nix_strix_halo.Tree.Flake.{begin_inputs, end_inputs, index_of, next_index}

abbrev pub shift : ℕ → Option ℕ → Option ℕ
shift n none = none
shift n (some i) = some (n + i)

index_of-append :
    (x : Text) (pre rest : List Text)
    → index_of x pre ≡ none
    → index_of x (pre ++ rest) ≡ shift (length pre) (index_of x rest)
unfolding index_of
index_of-append x [] rest h = elim (Option-cases (index_of x rest)) [
  | inl e ↦ rw e
  | inr (i, e) ↦ rw e (ap some (omega arith))
]
index_of-append x (line ∷ pre) rest h =
    ground (arith, index_of-append x pre rest, Option-cases (index_of x rest))

index_of-here : (x : Text) (rest : List Text) → index_of x (x ∷ rest) ≡ some 0
unfolding index_of
index_of-here x rest = rw (text_eq_refl x)

-- The lines up to the first x, and those behind it.
pub record IsSplit (x : Text) (lines : List Text) (i : ℕ) : Type 0 where
  pub pre : List Text
  pub post : List Text
  pub parts : lines ≡ pre ++ x ∷ post
  pub place : length pre ≡ i
  pub fresh : index_of x pre ≡ none

index_of-IsSplit :
    (x : Text) (lines : List Text) (i : ℕ) → index_of x lines ≡ some i → IsSplit x lines i
unfolding index_of
index_of-IsSplit x [] i h = cc
index_of-IsSplit x (line ∷ lines) i h = elim (Bool-cases (text_eq line x)) [
  | inl e ↦ record {
    pre = [];
    post = lines;
    parts = ap (λ l. l ∷ lines) ((text_eq_iff line x).0 e);
    place = ground arith;
    fresh = refl;
  }
  | inr e ↦ elim (Option-cases (index_of x lines)) [
    | inl n ↦ cc (rw (e, n) at h)
    | inr (k, n) ↦
        let s = index_of-IsSplit x lines k n in
        record {
          pre = line ∷ s.pre;
          post = s.post;
          parts = ap (λ ls. line ∷ ls) s.parts;
          place = ground (arith, s.place);
          fresh = ground (arith, s.fresh);
        }
  ]
]

-- A line that comes first behind `pre` is not in `pre`, and is in the rest.
index_of-behind :
    (x : Text) (pre rest : List Text) (j : ℕ)
    → index_of x (pre ++ rest) ≡ some j
    → length pre ≤ j
    → (index_of x pre ≡ none) × ((k : ℕ) × (index_of x rest ≡ some k))
unfolding index_of
index_of-behind x [] rest j h le = (refl, (j, h))
index_of-behind x (line ∷ pre) rest j h le = elim (Bool-cases (text_eq line x)) [
  | inl e ↦ ground arith
  | inr e ↦ elim (Option-cases (index_of x (pre ++ rest))) [
    | inl n ↦ cc (rw (e, n) at h)
    | inr (i, n) ↦
        let (fresh, there) = index_of-behind x pre rest i n (ground arith) in
        (ground (arith, fresh), there)
  ]
]

-- The file around and between the two markers.
pub record IsMarked (lines : List Text) : Type 0 where
  pub pre : List Text
  pub mid : List Text
  pub post : List Text
  pub parts : lines ≡ pre ++ begin_inputs ∷ (mid ++ end_inputs ∷ post)
  pub no_begin : index_of begin_inputs pre ≡ none
  pub no_end : index_of end_inputs pre ≡ none
  pub open_end : index_of end_inputs mid ≡ none

end-not_begin :
    (rest : List Text)
    → index_of end_inputs (begin_inputs ∷ rest) ≡ next_index (index_of end_inputs rest)
unfolding index_of
end-not_begin rest = refl

begin-not_end :
    (line : Text) (rest : List Text) (k : ℕ)
    → index_of end_inputs (begin_inputs ∷ rest) ≡ some k
    → (j : ℕ) × (index_of end_inputs rest ≡ some j)
begin-not_end line rest k h = elim (Option-cases (index_of end_inputs rest)) [
  | inl n ↦ cc (rw n at (sym (end-not_begin rest) ∙ h))
  | inr there ↦ there
]

pub index_of-IsMarked :
    (lines : List Text) (i j : ℕ)
    → index_of begin_inputs lines ≡ some i
    → index_of end_inputs lines ≡ some j
    → i < j
    → IsMarked lines
index_of-IsMarked lines i j h k less =
    let s = index_of-IsSplit begin_inputs lines i h in
    let (no_end, (n, there)) =
      index_of-behind end_inputs s.pre (begin_inputs ∷ s.post) j (rw s.parts at k)
        (omega (arith, s.place)) in
    let (m, behind) = begin-not_end begin_inputs s.post n there in
    let t = index_of-IsSplit end_inputs s.post m behind in
    record {
      pre = s.pre;
      mid = t.pre;
      post = t.post;
      parts = s.parts ∙ ap (λ ls. s.pre ++ begin_inputs ∷ ls) t.parts;
      no_begin = s.fresh;
      no_end = no_end;
      open_end = t.fresh;
    }

pub place_begin :
    (pre rest : List Text)
    → index_of begin_inputs pre ≡ none
    → index_of begin_inputs (pre ++ begin_inputs ∷ rest) ≡ some (length pre)
place_begin pre rest h =
    index_of-append begin_inputs pre (begin_inputs ∷ rest) h
    ∙ ap (shift (length pre)) (index_of-here begin_inputs rest)
    ∙ ap some (omega arith)

pub place_end :
    (pre mid post : List Text)
    → index_of end_inputs pre ≡ none
    → index_of end_inputs mid ≡ none
    → index_of end_inputs (pre ++ begin_inputs ∷ (mid ++ end_inputs ∷ post))
      ≡ some (length pre + suc (length mid))
place_end pre mid post h k =
    index_of-append end_inputs pre _ h
    ∙ ap (shift (length pre)) (
        end-not_begin _
        ∙ ap next_index (
            index_of-append end_inputs mid _ k
            ∙ ap (shift (length mid)) (index_of-here end_inputs post)))
    ∙ ap some (omega arith)
