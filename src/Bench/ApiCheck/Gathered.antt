-- ===== src/Bench/ApiCheck/Gathered.antt =====
-- The calls of the message: one for every index that a fragment has, in rising order of the indices.
use nix_strix_halo.Prelude.{
  ℕ, ◌≡◌, ◌≢◌, ◌↔◌, refl, sym, ap, ◌∙◌, compare, none, some, List, [], ◌∷◌, map, In, All, All-of,
  ◌⊎◌, inl, inr, ◌==◌, ==_iff, Bool-cases,
}
use nix_strix_halo.Prelude.Sort.{sorted, In-sorted, sorted-In}
use nix_strix_halo.Prelude.Sort.Numbers.{AreDistinct, IsRising, sorted-IsRising}
use nix_strix_halo.Bench.ApiCheck.{
  Part, Call, Calls, fresh_call, add_part, add_parts, get_call, indices, picked,
}
use nix_strix_halo.Bench.ApiCheck.Fragments.{joined_all, continued, of_index, get_call-add_parts}

In-add_part :
    (i : ℕ) (p : Part) (cs : Calls)
    → In i (indices (add_part p cs))
    → (i ≡ p.index) ⊎ In i (indices cs)
unfolding add_part
In-add_part i p [] (inl e) = inl e
In-add_part i p [] (inr m) = absurd m
In-add_part i p ((j, c) ∷ cs) m = elim (Bool-cases (j == p.index)) [
  | inl e ↦ inr (rw e at m)
  | inr e ↦ elim (rw e at m) [
    | inl same ↦ inr (inl same)
    | inr later ↦ elim (In-add_part i p cs later) [ inl q ↦ inl q | inr n ↦ inr (inr n) ]
  ]
]

add_part-AreDistinct :
    (p : Part) (cs : Calls) → AreDistinct (indices cs) → AreDistinct (indices (add_part p cs))
unfolding add_part
add_part-AreDistinct p [] h = (λ m. m, tt)
add_part-AreDistinct p ((j, c) ∷ cs) h = elim (Bool-cases (j == p.index)) [
  | inl e ↦ rw e h
  | inr e ↦ rw e (
    λ m. elim (In-add_part j p cs m) [
      | inl same ↦ cc (e, (==_iff j p.index).1 same)
      | inr there ↦ h.0 there
    ],
    add_part-AreDistinct p cs h.1,
  )
]

add_parts-AreDistinct :
    (ps : List Part) (cs : Calls)
    → AreDistinct (indices cs)
    → AreDistinct (indices (add_parts ps cs))
unfolding add_parts
add_parts-AreDistinct [] cs h = h
add_parts-AreDistinct (p ∷ ps) cs h =
    add_parts-AreDistinct ps (add_part p cs) (add_part-AreDistinct p cs h)

In-get_call : (i : ℕ) (cs : Calls) → In i (indices cs) → (c : Call) × (get_call i cs ≡ some c)
unfolding get_call
In-get_call i [] m = absurd m
In-get_call i ((j, c) ∷ cs) m = elim (Bool-cases (j == i)) [
  | inl e ↦ (c, rw e refl)
  | inr e ↦ elim m [
    | inl same ↦ absurd (cc (e, (==_iff j i).1 (sym same)))
    | inr later ↦ let (d, there) = In-get_call i cs later in (d, rw e there)
  ]
]

get_call-In : (i : ℕ) (cs : Calls) (c : Call) → get_call i cs ≡ some c → In i (indices cs)
unfolding get_call
get_call-In i [] c h = cc
get_call-In i ((j, d) ∷ cs) c h = elim (Bool-cases (j == i)) [
  | inl e ↦ inl (sym ((==_iff j i).0 e))
  | inr e ↦ inr (get_call-In i cs c (rw e at h))
]

continued-some :
    (ps : List Part) (c : Call)
    → continued none ps ≡ some c
    → (ps ≢ []) × (c ≡ joined_all fresh_call ps)
continued-some [] c h = cc
continued-some (p ∷ ps) c h = (λ e. cc, cc)

continued-given : (ps : List Part) → ps ≢ [] → (c : Call) × (continued none ps ≡ some c)
continued-given [] h = absurd (h refl)
continued-given (p ∷ ps) h = (_, refl)

-- The dictionary holds for every index what its fragments give.
module _ (ps : List Part) (cs : Calls)
    (gathered : (i : ℕ) → get_call i cs ≡ continued none (of_index i ps)) where
  picked-map :
      (is : List ℕ)
      → All (λ i. In i (indices cs)) is
      → picked cs is ≡ map (λ i. joined_all fresh_call (of_index i ps)) is
  picked-map [] h = refl
  picked-map (i ∷ is) (m, h) =
      let (c, e) = In-get_call i cs m in
      let (_, made) = continued-some (of_index i ps) c (sym (gathered i) ∙ e) in
      rw (e, made, picked) (ap (λ l. joined_all fresh_call (of_index i ps) ∷ l) (picked-map is h))

  In-indices_iff : (i : ℕ) → In i (indices cs) ↔ (of_index i ps ≢ [])
  In-indices_iff i = (there, back)
    where
      there : In i (indices cs) → of_index i ps ≢ []
      there m =
          let (c, e) = In-get_call i cs m in
          (continued-some (of_index i ps) c (sym (gathered i) ∙ e)).0

      back : of_index i ps ≢ [] → In i (indices cs)
      back h = let (c, e) = continued-given (of_index i ps) h in get_call-In i cs c (gathered i ∙ e)

  -- The sorted indices and the calls that are picked by them.
  picked-sorted :
      AreDistinct (indices cs)
      → (is : List ℕ) × IsRising is
        × ((i : ℕ) → In i is ↔ (of_index i ps ≢ []))
        × (picked cs (sorted compare (indices cs))
            ≡ map (λ i. joined_all fresh_call (of_index i ps)) is)
  picked-sorted distinct = (
    sorted compare (indices cs),
    sorted-IsRising (indices cs) distinct,
    λ i. (
      λ m. (In-indices_iff i).0 (In-sorted compare i (indices cs) m),
      λ h. sorted-In compare i (indices cs) ((In-indices_iff i).1 h),
    ),
    picked-map (sorted compare (indices cs)) (
        All-of (λ i. In i (indices cs)) (sorted compare (indices cs))
          (λ i m. In-sorted compare i (indices cs) m)),
  )

pub picked-add_parts :
    (ps : List Part)
    → (is : List ℕ) × IsRising is
      × ((i : ℕ) → In i is ↔ (of_index i ps ≢ []))
      × (picked (add_parts ps []) (sorted compare (indices (add_parts ps [])))
          ≡ map (λ i. joined_all fresh_call (of_index i ps)) is)
unfolding get_call
picked-add_parts ps =
    picked-sorted ps (add_parts ps []) (λ i. get_call-add_parts i ps [])
      (add_parts-AreDistinct ps [] tt)
