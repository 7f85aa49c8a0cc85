-- ===== src/Stack/Plan.antt =====
-- A refresh runs the commands of its plan in order, up to the first one that fails.
use nix_strix_halo.Prelude.{
  ◌≡◌, refl, sym, ap, subst, ◌∙◌, ◌⊎◌, Bool, true, false, none, some, List, [], ◌∷◌, ◌++◌,
  if◌then◌else◌, Bool-cases, Option-cases, inl, inr,
}
use mathlib.Core.List.{append_assoc, append-nil}
use nix_strix_halo.Prelude.Text.{Text}
use nix_strix_halo.Prelude.Order.{IsOrder, by_key-IsOrder, lex-IsOrder, compare-IsOrder}
use nix_strix_halo.Prelude.Sort.{sorted, sorted-perm, sorted-IsAscending, IsAscending}
use mathlib.Core.List.{Perm}
use nix_strix_halo.Json.{Json, Fields, object, get_field}
use nix_strix_halo.Stack.{
  Kind, Call, Run, calls_for, execute, refresh_all, refresh, is_refused, items_of, compare_item,
  key_of,
}

-- The commands that the targets call for, in order, up to a pin that lacks its text.
unfoldable pub plan : (Text → Text) → Kind → List (Text × Json) → List Call
plan staged kind [] = []
plan staged kind ((target, pin) ∷ items) =
    let rest = plan staged kind items in
    elim (calls_for staged kind target pin) [ none ↦ [] | some calls ↦ calls ++ rest ]

-- The pin of some target lacks the text that its command is given.
unfoldable pub has_lacking : (Text → Text) → Kind → List (Text × Json) → Bool
has_lacking staged kind [] = false
has_lacking staged kind ((target, pin) ∷ items) =
    let rest = has_lacking staged kind items in
    elim (calls_for staged kind target pin) [ none ↦ true | some calls ↦ rest ]

-- Every command of the list succeeded when it was run.
abbrev pub HaveSucceeded : (List Call → Call → Bool) → List Call → List Call → Type 0
HaveSucceeded succeeds history [] = Unit
HaveSucceeded succeeds history (c ∷ cs) =
    (succeeds history c ≡ true) × HaveSucceeded succeeds (history ++ c ∷ []) cs

compare_item-IsOrder : IsOrder compare_item
compare_item-IsOrder = by_key-IsOrder (lex-IsOrder compare-IsOrder) (λ (i : Text × Json). i.0)

-- The last command failed, and all before it succeeded.
pub record IsFailure (succeeds : List Call → Call → Bool) (history calls : List Call) : Type 0 where
  pub before : List Call
  pub failing : Call
  pub last : calls ≡ before ++ failing ∷ []
  pub succeeded : HaveSucceeded succeeds history before
  pub refused : succeeds (history ++ before) failing ≡ false

-- A run did a first part of the planned commands. Without an exception it did all of them, each with
-- success, and no pin lacks its text; with one, the last command failed, or all that the plan has
-- succeeded and a pin lacks its text.
pub record IsPrefix (succeeds : List Call → Call → Bool) (history planned : List Call)
    (lacking : Bool) (r : Run) : Type 0 where
  pub left : List Call
  pub in_order : planned ≡ r.calls ++ left
  pub complete :
      r.raised ≡ false → (lacking ≡ false) × (left ≡ []) × HaveSucceeded succeeds history r.calls
  pub stopped :
      r.raised ≡ true
      → IsFailure succeeds history r.calls
        ⊎ ((lacking ≡ true) × (left ≡ []) × HaveSucceeded succeeds history r.calls)

module _ (succeeds : List Call → Call → Bool) where
  HaveSucceeded-append :
      (history cs ds : List Call)
      → HaveSucceeded succeeds history cs
      → HaveSucceeded succeeds (history ++ cs) ds
      → HaveSucceeded succeeds history (cs ++ ds)
  HaveSucceeded-append history [] ds a b =
      subst (λ l. HaveSucceeded succeeds l ds) (append-nil history) b
  HaveSucceeded-append history (c ∷ cs) ds (ok, a) b = (
    ok,
    HaveSucceeded-append (history ++ c ∷ []) cs ds a
        (subst (λ l. HaveSucceeded succeeds l ds) (sym (append_assoc history (c ∷ []) cs)) b),
  )

  IsFailure-behind :
      (history cs ds : List Call)
      → HaveSucceeded succeeds history cs
      → IsFailure succeeds (history ++ cs) ds
      → IsFailure succeeds history (cs ++ ds)
  IsFailure-behind history cs ds a f = record {
    before = cs ++ f.before;
    failing = f.failing;
    last = ap (λ l. cs ++ l) f.last ∙ sym (append_assoc cs f.before (f.failing ∷ []));
    succeeded = HaveSucceeded-append history cs f.before a f.succeeded;
    refused =
        subst (λ l. succeeds l f.failing ≡ false) (append_assoc history cs f.before) f.refused;
  }

  -- The commands of one target: all of them with success, or up to a failure.
  pub record IsRun (history planned : List Call) (r : Run) : Type 0 where
    pub rest : List Call
    pub in_order : planned ≡ r.calls ++ rest
    pub complete : r.raised ≡ false → (rest ≡ []) × HaveSucceeded succeeds history r.calls
    pub fails : r.raised ≡ true → IsFailure succeeds history r.calls

  execute-IsRun :
      (history planned : List Call) → IsRun history planned (execute succeeds history planned)
  unfolding execute
  execute-IsRun history [] = record {
    rest = [];
    in_order = refl;
    complete = λ h. (refl, tt);
    fails = λ h. cc;
  }
  execute-IsRun history (c ∷ cs) = elim (Bool-cases (succeeds history c)) [
    | inl ok ↦
        let ih = execute-IsRun (history ++ c ∷ []) cs in
        rw ok (record {
          rest = ih.rest;
          in_order = ap (◌∷◌ c) ih.in_order;
          complete = λ h. let (e, all_ok) = ih.complete h in (e, (ok, all_ok));
          fails = λ h. IsFailure-behind history (c ∷ []) _ (ok, tt) (ih.fails h);
        })
    | inr bad ↦ rw bad (record {
      rest = cs;
      in_order = refl;
      complete = λ h. cc;
      fails = λ h. record {
        before = [];
        failing = c;
        last = refl;
        succeeded = tt;
        refused = rw (append-nil history) bad;
      };
    })
  ]

  followed_by-IsPrefix :
      (history first second : List Call) (lacking : Bool) (r next : Run) (raised : Bool)
      → raised ≡ r.raised
      → IsRun history first r
      → IsPrefix succeeds (history ++ r.calls) second lacking next
      → IsPrefix succeeds history
          (first ++ second)
          lacking
          (if raised then r else record { calls = r.calls ++ next.calls; raised = next.raised })
  followed_by-IsPrefix history first second lacking r next true e a b = record {
    left = a.rest ++ second;
    in_order = ap (λ l. l ++ second) a.in_order ∙ append_assoc r.calls a.rest second;
    complete = λ h. cc;
    stopped = λ h. inl (a.fails h);
  }
  followed_by-IsPrefix history first second lacking r next false e a b =
      let (none_left, ok) = a.complete (sym e) in
      let whole : first ≡ r.calls =
        a.in_order ∙ ap (λ l. r.calls ++ l) none_left ∙ append-nil r.calls in
      record {
        left = b.left;
        in_order =
            ap (λ l. l ++ second) whole
            ∙ ap (λ l. r.calls ++ l) b.in_order
            ∙ sym (append_assoc r.calls next.calls b.left);
        complete = λ h.
            let (full, done, more) = b.complete h in
            (full, done, HaveSucceeded-append history r.calls next.calls ok more);
        stopped = λ h. elim (b.stopped h) [
          | inl f ↦ inl (IsFailure-behind history r.calls next.calls ok f)
          | inr (lacks, done, more) ↦
              inr (lacks, done, HaveSucceeded-append history r.calls next.calls ok more)
        ];
      }

  module _ (staged : Text → Text) (kind : Kind) where
    plan-nil : (plan staged kind [] ≡ []) × (has_lacking staged kind [] ≡ false)
    unfolding plan has_lacking
    plan-nil = (refl, refl)

    plan-none :
        (target : Text) (pin : Json) (items : List (Text × Json))
        → calls_for staged kind target pin ≡ none
        → (plan staged kind ((target, pin) ∷ items) ≡ [])
          × (has_lacking staged kind ((target, pin) ∷ items) ≡ true)
    unfolding plan has_lacking
    plan-none target pin items e = (rw (e, plan) refl, rw (e, has_lacking) refl)

    plan-some :
        (target : Text) (pin : Json) (items : List (Text × Json)) {calls : List Call}
        → calls_for staged kind target pin ≡ some calls
        → (plan staged kind ((target, pin) ∷ items) ≡ calls ++ plan staged kind items)
          × (has_lacking staged kind ((target, pin) ∷ items) ≡ has_lacking staged kind items)
    unfolding plan has_lacking
    plan-some target pin items e = (rw (e, plan) refl, rw (e, has_lacking) refl)

    -- The same for another spelling of the plan.
    planned_as :
        {history planned planned' : List Call} {lacking lacking' : Bool} {r : Run}
        → (planned ≡ planned') × (lacking ≡ lacking')
        → IsPrefix succeeds history planned' lacking' r
        → IsPrefix succeeds history planned lacking r
    planned_as {history} {planned} {planned'} {lacking} {lacking'} {r} (e, f) h =
        subst (λ p. IsPrefix succeeds history p lacking r) (sym e)
          (subst (λ l. IsPrefix succeeds history planned' l r) (sym f) h)

    refresh_all-IsPrefix :
        (history : List Call) (items : List (Text × Json))
        → IsPrefix succeeds history
            (plan staged kind items)
            (has_lacking staged kind items)
            (refresh_all succeeds staged kind history items)
    unfolding refresh_all
    refresh_all-IsPrefix history [] =
        planned_as plan-nil (record {
          left = [];
          in_order = refl;
          complete = λ h. (refl, refl, tt);
          stopped = λ h. cc;
        })
    refresh_all-IsPrefix history ((target, pin) ∷ items) =
        elim (Option-cases (calls_for staged kind target pin)) [
          | inl lacking ↦ planned_as (plan-none target pin items lacking) (
              rw (lacking, refresh_all)
                (record {
                  left = [];
                  in_order = refl;
                  complete = λ h. cc;
                  stopped = λ h. inr (refl, refl, tt);
                }))
          | inr (calls, called) ↦
              let r = execute succeeds history calls in
              planned_as (plan-some target pin items called) (
                rw (called, refresh_all)
                  (followed_by-IsPrefix history calls (plan staged kind items) _ r _ r.raised refl
                    (execute-IsRun history calls)
                    (refresh_all-IsPrefix (history ++ r.calls) items)))
        ]

    -- Where the targets of a kind are an object that is not refused, a refresh handles them in the
    -- order of their names and runs a first part of the commands that they call for: without an
    -- exception all of them, each with success, and no pin lacks its text; with one up to a command
    -- that failed after all others succeeded, or, where some pin lacks its text, all that are
    -- planned before the first such pin, each with success.
    pub refresh-IsPlanned :
        (sources targets : Fields)
        → get_field (key_of kind) sources ≡ some (object targets)
        → is_refused kind (items_of targets) ≡ false
        → (items : List (Text × Json)) × IsAscending compare_item items
          × Perm items (items_of targets)
          × IsPrefix succeeds []
              (plan staged kind items)
              (has_lacking staged kind items)
              (refresh succeeds staged kind sources)
    unfolding refresh
    refresh-IsPlanned sources targets found kept = (
      sorted compare_item (items_of targets),
      sorted-IsAscending compare_item-IsOrder (items_of targets),
      sorted-perm compare_item (items_of targets),
      rw (found, kept) (refresh_all-IsPrefix [] (sorted compare_item (items_of targets))),
    )
