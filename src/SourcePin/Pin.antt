-- ===== src/SourcePin/Pin.antt =====
-- What a run of update-rocm-source.py keeps of the file that it rewrites.
use nix_strix_halo.Prelude.{◌≡◌, refl, sym, ap, ◌∙◌, false, Option, none, some, List}
use nix_strix_halo.Prelude.Text.{Text, codes, text_eq, text_eq_refl}
use nix_strix_halo.Json.{Json, object, Fields, get_field, put_field, get_field-put_field}
use nix_strix_halo.SourcePin.{
  Deep, Step, stop, go, ◌>>=◌, Args, main, series_of, ref_of, rev_step, source_fetch_policy,
  store_in, pin_fields, or_else, current_of, current_step, fetch_args_of, deep_of, policy_of, child,
}

>>=-go {ℓ κ} :
    {A : Type ℓ} {B : Type κ} (first : Step A) (next : A → Step B) {last : B}
    → (first >>= next) ≡ go last
    → (value : A) × (first ≡ go value) × (next value ≡ go last)
>>=-go (stop reason) next h = cc
>>=-go (go value) next h = (value, refl, h)

-- A run that writes replaces the pin of its target in the targets of the file.
stored :
    (sources : Fields) (target : Text) (pin : Json) (old out : Fields)
    → store_in sources target pin (some (object old)) ≡ go out
    → get_field (codes "targets") out ≡ some (object (put_field target pin old))
stored sources target pin old out h =
    let same : put_field (codes "targets") (object (put_field target pin old)) sources ≡ out = cc in
    rw (← same) (
      get_field-put_field (codes "targets") (codes "targets") (object (put_field target pin old))
        sources)

step-eq : {A : Type 0} {a b : A} → go a ≡ go b → a ≡ b
step-eq h = cc

fetch_args-kept :
    (sources pinned : Fields) (target : Text) (fetch_args : Option (List Text))
    (deep : Option (List Deep))
    → (policy : Json × Json) (value : Json) → fetch_args ≡ none
    → source_fetch_policy sources target fetch_args deep ≡ go policy
    → current_of sources target ≡ some (object pinned)
    → get_field (codes "fetchArgs") pinned ≡ some value
    → policy.0 ≡ value
unfolding source_fetch_policy
fetch_args-kept sources pinned target fetch_args deep policy value unset h now kept =
    let (current, e, h') = >>=-go (current_step (current_of sources target)) _ h in
    let (args, e', h'') = >>=-go (fetch_args_of fetch_args current) _ h' in
    let (deep', e'', ends) = >>=-go (deep_of deep current) _ h'' in
    let same : (args, deep') ≡ policy = cc in
    let this : object pinned ≡ current = step-eq (rw now at e) in
    let taken : args ≡ value = step-eq (sym e' ∙ rw (unset, ← this) (rw (policy_of, kept))) in
    rw (← same) taken

pin-fetch_args :
    (args : Args) (ref rev version : Text) (policy : Json × Json) (now : Text)
    → get_field (codes "fetchArgs") (pin_fields args ref rev version policy now) ≡ some policy.0
unfolding get_field
pin-fetch_args args ref rev version policy now = refl

module _ (ls_remote : Text → Text → Text) (now : Text) (args : Args) (sources out old : Fields)
    (ran : main ls_remote now args (some sources) ≡ go out)
    (there : get_field (codes "targets") sources ≡ some (object old)) where
  written :
      (rev : Text) × (policy : Json × Json) × (source_fetch_policy sources args.target
          args.fetch_args args.deep_nested_submodules
        ≡ go policy)
      × (get_field (codes "targets") out
          ≡ some (
              object (
                put_field args.target
                  (object (
                    pin_fields args
                      (ref_of args (series_of args sources))
                      rev
                      (or_else args.version (series_of args sources))
                      policy
                      now))
                  old)))
  unfolding main
  written =
      let (rev, e, h) =
        >>=-go (rev_step ls_remote args (ref_of args (series_of args sources))) _ ran in
      let (policy, e', h') =
        >>=-go (source_fetch_policy sources args.target args.fetch_args args.deep_nested_submodules)
          _ h in
      (rev, policy, e', stored sources args.target _ old out (rw there at h'))

  -- A run of update-rocm-source.py on a file with targets that writes keeps the pins of all other
  -- targets.
  pub main-other_targets :
      (other : Text)
      → text_eq args.target other ≡ false
      → (new : Fields) × (get_field (codes "targets") out ≡ some (object new))
        × (get_field other new ≡ get_field other old)
  main-other_targets other apart =
      let (rev, policy, e, found) = written in
      (_, found, get_field-put_field args.target other _ old ∙ rw apart)

  -- A run of update-rocm-source.py without fetch arguments of its own, on a file whose pin of the
  -- target has some, writes these into the new pin.
  pub main-fetch_args :
      (pinned : Fields) (value : Json)
      → args.fetch_args ≡ none
      → get_field args.target old ≡ some (object pinned)
      → get_field (codes "fetchArgs") pinned ≡ some value
      → (new pin : Fields) × (get_field (codes "targets") out ≡ some (object new))
        × (get_field args.target new ≡ some (object pin))
        × (get_field (codes "fetchArgs") pin ≡ some value)
  main-fetch_args pinned value unset old_pin kept =
      let (rev, policy, e, found) = written in
      let now_pinned : current_of sources args.target ≡ some (object pinned) =
        rw (current_of, child, there, child, old_pin) in
      let taken =
        fetch_args-kept sources pinned args.target args.fetch_args args.deep_nested_submodules
          policy value unset e now_pinned kept in
      let pin =
        pin_fields args (ref_of args (series_of args sources)) rev
          (or_else args.version (series_of args sources)) policy now in
      (
        put_field args.target (object pin) old,
        pin,
        found,
        get_field-put_field args.target args.target (object pin) old
            ∙ rw (text_eq_refl args.target),
        pin-fetch_args args _ rev _ policy now ∙ ap some taken,
      )
