-- ===== src/Prelude/Decimal.antt =====
-- str(n) of a number.
use nix_strix_halo.Prelude.Tests.{if◌then◌else◌, ltb}
use nix_strix_halo.Prelude.Text.{Text}
use Prim.Native.Nat.{ℕ, zero, suc, ◌+◌, ◌/◌, ◌%◌}
use mathlib.Core.List.{[], ◌∷◌, ◌++◌}

-- The digits of a number below 10 ^ fuel.
unfoldable pub digits_of : ℕ → ℕ → Text
digits_of zero n = []
digits_of (suc fuel) n =
    let rest = digits_of fuel (n / 10) in
    if ltb n 10 then (b'0' + n) ∷ [] else rest ++ (b'0' + n % 10) ∷ []

unfoldable pub show : ℕ → Text
unfolding digits_of
show n = digits_of (suc n) n
