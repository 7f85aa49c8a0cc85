-- ===== src/Tests/SourcePin.antt =====
-- A run of update-rocm-source.py with a revision that is given.
use nix_strix_halo.Prelude.{◌≡◌, refl, none, some, [], ◌∷◌}
use nix_strix_halo.Prelude.Text.{Text, codes}
use nix_strix_halo.Json.{text, array, object, Fields, fields, texts, get_field, put_field}
use nix_strix_halo.Version.{major_minor}
use nix_strix_halo.SourcePin.{Args, main, go, series_of, pinned_series, source_fetch_policy}
use nix_strix_halo.SourcePin.Pin.{main-other_targets}

abbrev pinned : Fields
pinned = fields (
    (codes "version", text (codes "10.0"))
    ∷ (codes "fetchArgs", array (texts (codes "--x" ∷ [])))
    ∷ [])

abbrev targets : Fields
targets = fields ((codes "gfx1151", object pinned) ∷ (codes "gfx1201", text (codes "kept")) ∷ [])

abbrev sources : Fields
sources = fields ((codes "targets", object targets) ∷ [])

abbrev args : Args
args = record {
  url = codes "u";
  series = none;
  ref = none;
  rev = some (codes "abc");
  target = codes "gfx1151";
  version = none;
  fetch_args = none;
  deep_nested_submodules = none;
}

abbrev no_remote : Text → Text → Text
no_remote url ref = []

abbrev after_run : Fields
after_run = fields (
    (
      codes "targets",
      object (
          fields (
            (
              codes "gfx1151",
              object (
                  fields (
                    (codes "url", text (codes "u"))
                    ∷ (codes "ref", text (codes "refs/heads/release/therock-10.0"))
                    ∷ (codes "rev", text (codes "abc"))
                    ∷ (codes "version", text (codes "10.0"))
                    ∷ (codes "fetchArgs", array (texts (codes "--x" ∷ [])))
                    ∷ (codes "deepNestedSubmodules", array (texts []))
                    ∷ (codes "updated", text (codes "now"))
                    ∷ [])),
            )
            ∷ (codes "gfx1201", text (codes "kept"))
            ∷ [])),
    )
    ∷ [])

ran : main no_remote (codes "now") args (some sources) ≡ go after_run
unfolding main series_of pinned_series major_minor source_fetch_policy get_field put_field
ran = refl

there : get_field (codes "targets") sources ≡ some (object targets)
unfolding get_field
there = refl

old_pin : get_field (codes "gfx1151") targets ≡ some (object pinned)
unfolding get_field
old_pin = refl

old_args : get_field (codes "fetchArgs") pinned ≡ some (array (texts (codes "--x" ∷ [])))
unfolding get_field
old_args = refl

main-other_targets_example :
    (new : Fields) × (get_field (codes "targets") after_run ≡ some (object new))
    × (get_field (codes "gfx1201") new ≡ get_field (codes "gfx1201") targets)
main-other_targets_example =
    main-other_targets no_remote (codes "now") args sources after_run targets ran there
      (codes "gfx1201") refl
