-- ===== src/Bench/ApiCheck/Fragments.antt =====
-- Every tool call of a streamed answer is put together from its own fragments, in their order,
-- however the fragments of the calls alternate.
use nix_strix_halo.Prelude.{
  ℕ, ◌≡◌, refl, sym, subst, ap, ◌∙◌, false, Option, none, some, List, [], ◌∷◌, ◌++◌, map, arith,
  ◌==◌, ==_iff, keep, Bool-cases, inl, inr,
}
use mathlib.Core.List.{append_assoc, append-nil}
use nix_strix_halo.Bench.ApiCheck.{
  Part, Call, Calls, joined, fresh_call, add_part, add_parts, concat, get_call,
}

-- What a call holds after more fragments of it.
abbrev pub joined_all : Call → List Part → Call
joined_all c ps = record {
  id = c.id ++ concat (map (λ p. p.part_id) ps);
  name = c.name ++ concat (map (λ p. p.part_name) ps);
  arguments = c.arguments ++ concat (map (λ p. p.part_arguments) ps);
}

abbrev pub continued : Option Call → List Part → Option Call
continued none [] = none
continued none (p ∷ ps) = some (joined_all fresh_call (p ∷ ps))
continued (some c) ps = some (joined_all c ps)

abbrev pub of_index : ℕ → List Part → List Part
of_index i = keep (λ p. i == p.index)

abbrev call_or_fresh : Option Call → Call
call_or_fresh none = fresh_call
call_or_fresh (some c) = c

get_call-add_part_same :
    (p : Part) (cs : Calls)
    → get_call p.index (add_part p cs) ≡ some (joined (call_or_fresh (get_call p.index cs)) p)
unfolding get_call add_part
get_call-add_part_same p [] = rw ((==_iff p.index p.index).1 refl) refl
get_call-add_part_same p ((i, c) ∷ cs) = elim (Bool-cases (i == p.index)) [
  | inl e ↦ rw e (rw e refl)
  | inr e ↦ rw e (rw e (get_call-add_part_same p cs))
]

get_call-add_part_other :
    (i : ℕ) (p : Part) (cs : Calls)
    → (p.index == i) ≡ false
    → get_call i (add_part p cs) ≡ get_call i cs
unfolding get_call add_part
get_call-add_part_other i p [] h = rw h refl
get_call-add_part_other i p ((j, c) ∷ cs) h = ground (arith, get_call-add_part_other i p cs h)

joined_all-cons :
    (c : Call) (p : Part) (ps : List Part) → joined_all (joined c p) ps ≡ joined_all c (p ∷ ps)
joined_all-cons c p ps =
    rw
      (
        append_assoc c.id p.part_id (concat (map (λ p. p.part_id) ps)),
        append_assoc c.name p.part_name (concat (map (λ p. p.part_name) ps)),
        append_assoc c.arguments p.part_arguments (concat (map (λ p. p.part_arguments) ps)),
      )
      refl

continued-nil : (o : Option Call) → continued o [] ≡ o
continued-nil none = refl
continued-nil (some c) = rw (append-nil c.id, append-nil c.name, append-nil c.arguments) refl

continued-cons :
    (o : Option Call) (p : Part) (ps : List Part)
    → continued o (p ∷ ps) ≡ some (joined_all (call_or_fresh o) (p ∷ ps))
continued-cons none p ps = refl
continued-cons (some c) p ps = refl

-- A call goes on with the fragments of its index.
pub get_call-add_parts :
    (i : ℕ) (ps : List Part) (cs : Calls)
    → get_call i (add_parts ps cs) ≡ continued (get_call i cs) (of_index i ps)
unfolding add_parts
get_call-add_parts i [] cs = sym (continued-nil (get_call i cs))
get_call-add_parts i (p ∷ ps) cs = elim (Bool-cases (i == p.index)) [
  | inl e ↦
      let at_p : i ≡ p.index = (==_iff i p.index).0 e in
      let o = get_call i cs in
      let met : get_call i (add_part p cs) ≡ some (joined (call_or_fresh o) p) =
        subst (λ k. get_call k (add_part p cs) ≡ some (joined (call_or_fresh (get_call k cs)) p))
          (sym at_p) (get_call-add_part_same p cs) in
      get_call-add_parts i ps (add_part p cs)
      ∙ ap (λ q. continued q (of_index i ps)) met
      ∙ ap some (joined_all-cons (call_or_fresh o) p (of_index i ps))
      ∙ rw e (sym (continued-cons o p (of_index i ps)))
  | inr e ↦
      get_call-add_parts i ps (add_part p cs)
      ∙ ap (λ q. continued q (of_index i ps)) (get_call-add_part_other i p cs (differ i p.index e))
      ∙ rw e refl
]
  where
    differ : (a b : ℕ) → (a == b) ≡ false → (b == a) ≡ false
    differ a b h = ground arith

pub add_parts-append :
    (ps qs : List Part) (cs : Calls) → add_parts (ps ++ qs) cs ≡ add_parts qs (add_parts ps cs)
unfolding add_parts
add_parts-append [] qs cs = refl
add_parts-append (p ∷ ps) qs cs = add_parts-append ps qs (add_part p cs)
