-- ===== src/Bench/Branches/Pairs.antt =====
-- A comparison of glm53-cache-branches.py that adds no failure, read backwards.
use nix_strix_halo.Prelude.{
  ℕ, ◌≡◌, refl, sym, ap, ◌∙◌, Bool, true, false, Option, none, some, List, [], ◌∷◌, ◌==◌, ==_iff,
  length, &&-both,
}
use nix_strix_halo.Prelude.Text.{Text, text_eq, text_eq_iff}
use nix_strix_halo.Bench.Script.{gives, followed-gives, followed-check, gives-value, gives-state}
use nix_strix_halo.Bench.Server.{Float, Generated, Server, answered-gives, generate}
use nix_strix_halo.Bench.Numbers.{max_distance, value_of}
use nix_strix_halo.Bench.Branches.{is_complete, generate_eight, failures_with, compare}

module _ (float : Float) (server : Server float.F) (limit : float.F) where
  open float use {F, le, is_finite}
  open server use {State}

  -- Two answers to a prompt, in these states, with the same tokens and a largest distance below the
  -- limit.
  pub record IsSame (prompt : List ℕ) (s u v w : State) (first second : Generated F) : Type 0 where
    pub first_answer : server.generate prompt 8 s ≡ (some first, u)
    pub second_answer : server.generate prompt 8 v ≡ (some second, w)
    pub eight : length first.logprobs ≡ 8
    pub same_ids : first.output_ids ≡ second.output_ids
    pub delta : F
    pub largest : max_distance float first.logprobs second.logprobs ≡ some delta
    pub below : le limit delta ≡ false

  pub generate_eight-answer :
      (ids : List ℕ) (s : State) {g : Generated F} {t : State}
      → generate_eight float server limit ids s ≡ gives g t
      → (server.generate ids 8 s ≡ (some g, t)) × (length g.logprobs ≡ 8)
  unfolding generate_eight
  generate_eight-answer ids s {g} {t} h =
      let (r, u, sent, rest) = followed-gives (generate server ids 8 s) _ h in
      let (ok, last) = followed-check (is_complete float server limit r) u _ rest in
      let (eight, _) = &&-both (length r.logprobs == 8) _ ok in
      let same : r ≡ g = gives-value last in
      (
        answered-gives _ sent
            ∙ ap (λ x. (some x, u)) same
            ∙ ap (λ x. (some g, x)) (gives-state last),
        ap (λ x. length x.logprobs) (sym same) ∙ (==_iff _ _).0 eight,
      )

  -- A comparison that leaves no failure had none before, and agreed.
  abbrev pub IsQuiet : Generated F → Generated F → List Text → Type 0
  IsQuiet first second failures =
      (failures ≡ [])
      × (first.output_ids ≡ second.output_ids)
      × (delta : F) × (max_distance float first.logprobs second.logprobs ≡ some delta)
      × (le limit delta ≡ false)

  quiet :
      (label : Text) (same far : Bool) (failures : List Text)
      → failures_with float server limit label same far failures ≡ []
      → (failures ≡ []) × (same ≡ true) × (far ≡ false)
  quiet label true false failures h = (h, refl, refl)
  quiet label true true [] h = cc
  quiet label true true (f ∷ fs) h = cc
  quiet label false far [] h = cc
  quiet label false far (f ∷ fs) h = cc

  value_of-gives :
      (o : Option F) (s : State) {a : F} {t : State}
      → value_of float o s ≡ gives a t
      → (o ≡ some a) × (s ≡ t)
  value_of-gives none s h = cc
  value_of-gives (some a) s h = (cc, cc)

  pub compare-IsQuiet :
      (label : Text) (first second : Generated F) (failures : List Text) (s : State)
      {after : List Text} {t : State}
      → compare float server limit label first second failures s ≡ gives after t
      → (s ≡ t) × (after ≡ [] → IsQuiet first second failures)
  unfolding compare
  compare-IsQuiet label first second failures s {after} {t} h =
      let (delta, u, made, rest) =
        followed-gives (value_of float (max_distance float first.logprobs second.logprobs) s) _ h in
      let (largest, same_state) = value_of-gives _ s made in
      (
        same_state ∙ gives-state rest,
        λ e.
            let (before, ids, near) =
              quiet label (text_eq first.output_ids second.output_ids) (le limit delta) failures
                (gives-value rest ∙ e) in
            (before, (text_eq_iff _ _).0 ids, delta, largest, near),
      )

  -- A pair of answers, with the states around them.
  pub record Pair : Type 0 where
    pub before : State
    pub used : State
    pub again : State
    pub after : State
    pub first : Generated F
    pub second : Generated F

  abbrev pub IsSamePair : List ℕ → Pair → Type 0
  IsSamePair prompt p = IsSame prompt p.before p.used p.again p.after p.first p.second

  -- The second answer came right after a flush, and reused nothing.
  abbrev pub IsFreshSecond : Pair → Type 0
  IsFreshSecond p = (server.flush p.used ≡ (true, p.again)) × (p.second.cached_tokens ≡ 0)

  pub same_of :
      (prompt : List ℕ) (p : Pair) (failures : List Text)
      → server.generate prompt 8 p.before ≡ (some p.first, p.used)
      → server.generate prompt 8 p.again ≡ (some p.second, p.after)
      → length p.first.logprobs ≡ 8
      → IsQuiet p.first p.second failures
      → IsSamePair prompt p
  same_of prompt p failures a b n (q, ids, delta, largest, below) = record {
    first_answer = a;
    second_answer = b;
    eight = n;
    same_ids = ids;
    delta = delta;
    largest = largest;
    below = below;
  }
