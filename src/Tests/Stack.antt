-- ===== src/Tests/Stack.antt =====
-- A refresh of two targets of which the second one fails.
use nix_strix_halo.Prelude.{◌≡◌, refl, Bool, true, false, some, List, [], ◌∷◌}
use mathlib.Core.List.{Perm}
use nix_strix_halo.Prelude.Order.{lex}
use nix_strix_halo.Prelude.Sort.{sorted, IsAscending}
use nix_strix_halo.Prelude.Text.{Text, codes}
use nix_strix_halo.Json.{Json, text, object, Fields, end, field, get_field}
use nix_strix_halo.Stack.{rocm, Call, run_script, refresh, items_of, compare_item}
use nix_strix_halo.Stack.Plan.{IsPrefix, plan, has_lacking, refresh-IsPlanned}

abbrev pin_of : Text → Json
pin_of version = object (field (codes "version") (text version) end)

abbrev targets : Fields
targets =
    field (codes "gfx120X") (pin_of (codes "7.2.1rc1"))
      (field (codes "gfx103X") (pin_of (codes "7.1.0")) end)

abbrev sources : Fields
sources = field (codes "linux") (object targets) end

-- Every command works until one has run.
abbrev first_only : List Call → Call → Bool
first_only [] call = true
first_only (c ∷ cs) call = false

abbrev printed : Text → Text
printed target = target

run_test : refresh first_only printed rocm sources ≡ record {
  calls =
      run_script
        (codes "update-rocm.py")
        (codes "--target" ∷ codes "gfx103X" ∷ codes "--series" ∷ codes "7.1" ∷ [])
      ∷ run_script
          (codes "update-rocm.py")
          (codes "--target" ∷ codes "gfx120X" ∷ codes "--series" ∷ codes "7.2" ∷ [])
      ∷ [];
  raised = true;
}
unfolding refresh get_field sorted lex
run_test = refl

found : get_field (codes "linux") sources ≡ some (object targets)
unfolding get_field
found = refl

refresh-IsPlanned_example :
    (items : List (Text × Json)) × IsAscending compare_item items
    × Perm items (items_of targets)
    × IsPrefix first_only []
        (plan printed rocm items)
        (has_lacking printed rocm items)
        (refresh first_only printed rocm sources)
refresh-IsPlanned_example = refresh-IsPlanned first_only printed rocm sources targets found refl
