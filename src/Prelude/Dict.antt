-- ===== src/Prelude/Dict.antt =====
-- Python's `dict` with text keys. Its iteration follows the order of the first insertion.
use mathlib.Core.Path.{◌≡◌, refl}
use mathlib.Core.List.{List, [], ◌∷◌}
use mathlib.Core.Option.{Option, none, some}
use native.Mathlib.Omega.{arith}
use nix_strix_halo.Prelude.Tests.{if◌then◌else◌}
use nix_strix_halo.Prelude.Text.{Text, text_eq, text_eq_iff}

abbrev pub Dict {ℓ} : Type ℓ → Type ℓ
Dict V = List (Text × V)

module _ {ℓ} {V : Type ℓ} where
  -- d.get(k)
  unfoldable pub get : Text → Dict V → Option V
  get k [] = none
  get k ((j, v) ∷ d) = if text_eq j k then some v else get k d

  -- d[k] = v: a present key keeps its place
  unfoldable pub put : Text → V → Dict V → Dict V
  put k v [] = (k, v) ∷ []
  put k v ((j, w) ∷ d) = if text_eq j k then (j, v) ∷ d else (j, w) ∷ put k v d

  -- d.setdefault(k, v), for its effect
  unfoldable pub set_default : Text → V → Dict V → Dict V
  unfolding get put
  set_default k v d = elim (get k d) [ none ↦ put k v d | some w ↦ d ]

  abbrev pub keys : Dict V → List Text
  keys [] = []
  keys ((k, v) ∷ d) = k ∷ keys d

  abbrev pub values : Dict V → List V
  values [] = []
  values ((k, v) ∷ d) = v ∷ values d

  pub get-put :
      (k j : Text) (v : V) (d : Dict V)
      → get j (put k v d) ≡ (if text_eq k j then some v else get j d)
  unfolding get put
  get-put k j v [] = refl
  get-put k j v ((i, w) ∷ d) =
      ground (arith, text_eq_iff k j, text_eq_iff i k, text_eq_iff i j, get-put k j v d)

  pub get-set_default :
      (k j : Text) (v : V) (d : Dict V)
      → get j (set_default k v d)
        ≡ (elim (get j d) [ none ↦ if text_eq k j then some v else none | some w ↦ some w ])
  unfolding set_default
  get-set_default k j v d = ground (arith, text_eq_iff k j, get-put k j v d)
