-- ===== src/Stack.antt =====
-- `refresh` of update-rocm-stack.py: the commands of a refresh, in their order, up to the first one
-- that fails.
pub mod Plan
use nix_strix_halo.Prelude.{
  Bool, true, false, Option, none, some, List, [], ◌∷◌, ◌++◌, if◌then◌else◌, compare, Ordering,
  length, take, ◌==◌,
}
use nix_strix_halo.Prelude.Order.{lex}
use nix_strix_halo.Prelude.Sort.{sorted}
use nix_strix_halo.Prelude.Text.{Text, codes, split, join, strip}
use nix_strix_halo.Json.{Json, text, object, Fields, end, field, get_field}

pub data Kind : Type 0 where
  rocm python_wheels therock_source : Kind

pub data Call : Type 0 where
  run_script : Text → List Text → Call
  flake_lock : Call
  nix_build : Text → Call

-- The commands that were run, and whether an exception ended them.
pub record Run : Type 0 where
  pub calls : List Call
  pub raised : Bool

abbrev pub key_of : Kind → Text
key_of rocm = codes "linux"
key_of python_wheels = codes "targets"
key_of therock_source = codes "targets"

-- pin[key], where it is a text
abbrev pub text_in : Text → Json → Option Text
text_in key (object pin) = elim (get_field key pin) [ some (text value) ↦ some value | _ ↦ none ]
text_in key _ = none

abbrev pub items_of : Fields → List (Text × Json)
items_of end = []
items_of (field target pin targets) = (target, pin) ∷ items_of targets

abbrev pub compare_item : Text × Json → Text × Json → Ordering
compare_item (a, p) (b, q) = lex compare a b

abbrev pub series_arg : Option Text → Text → Text → Option (List Call)
series_arg none script target = none
series_arg (some series) script target =
    some (run_script script (codes "--target" ∷ target ∷ codes "--series" ∷ series ∷ []) ∷ [])

-- ".".join(version.split(".")[:2])
abbrev pub series_of : Option Text → Option Text
series_of none = none
series_of (some version) = some (join (codes ".") (take 2 (split b'.' version)))

-- The body of the loop; `staged` is what nix prints for the build of a target.
unfoldable pub calls_for : (Text → Text) → Kind → Text → Json → Option (List Call)
calls_for staged rocm target pin =
    series_arg (series_of (text_in (codes "version") pin)) (codes "update-rocm.py") target
calls_for staged python_wheels target pin =
    series_arg (text_in (codes "series") pin) (codes "update-python-wheels.py") target
calls_for staged therock_source target pin = some (
    run_script (codes "update-rocm-source.py") (codes "--target" ∷ target ∷ [])
    ∷ run_script (codes "update-source-tree.py") (codes "--target" ∷ target ∷ [])
    ∷ flake_lock
    ∷ nix_build target
    ∷ run_script (codes "update-rocm-third-party.py")
        (codes "--source" ∷ strip (staged target) ∷ [])
    ∷ [])

-- Which commands succeed, after those that were run before; a failure raises CalledProcessError.
-- The failing command is the last of `calls`.
unfoldable pub execute : (List Call → Call → Bool) → List Call → List Call → Run
execute succeeds history [] = record { calls = []; raised = false }
execute succeeds history (c ∷ cs) =
    let rest = execute succeeds (history ++ c ∷ []) cs in
    if succeeds history c
    then record { calls = c ∷ rest.calls; raised = rest.raised }
    else record { calls = c ∷ []; raised = true }

-- The next part of a run, unless an exception ended it.
abbrev pub followed_by : Run → Run → Run
followed_by r next =
    if r.raised then r else record { calls = r.calls ++ next.calls; raised = next.raised }

abbrev pub made_of : (List Call → Call → Bool) → List Call → Option (List Call) → Run
made_of succeeds history none = record { calls = []; raised = true }
made_of succeeds history (some calls) = execute succeeds history calls

unfoldable pub refresh_all :
    (List Call → Call → Bool) → (Text → Text) → Kind → List Call → List (Text × Json) → Run
unfolding execute calls_for
refresh_all succeeds staged kind history [] = record { calls = []; raised = false }
refresh_all succeeds staged kind history ((target, pin) ∷ items) =
    let r = made_of succeeds history (calls_for staged kind target pin) in
    followed_by r (refresh_all succeeds staged kind (history ++ r.calls) items)

-- The source graph has exactly one target.
abbrev pub is_refused : Kind → List (Text × Json) → Bool
is_refused kind [] = true
is_refused therock_source (item ∷ items) = if length items == 0 then false else true
is_refused kind (item ∷ items) = false

abbrev pub refresh_targets : (List Call → Call → Bool) → (Text → Text) → Kind → Option Json → Run
refresh_targets succeeds staged kind (some (object targets)) =
    if is_refused kind (items_of targets)
    then record { calls = []; raised = true }
    else refresh_all succeeds staged kind [] (sorted compare_item (items_of targets))
refresh_targets succeeds staged kind _ = record { calls = []; raised = true }

-- `sources` is the value of the kind's file.
unfoldable pub refresh : (List Call → Call → Bool) → (Text → Text) → Kind → Fields → Run
unfolding refresh_all
refresh succeeds staged kind sources =
    refresh_targets succeeds staged kind (get_field (key_of kind) sources)
