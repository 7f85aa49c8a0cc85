-- ===== src/Prelude/Text/Splits.antt =====
-- The splitting methods of Python's `str` on texts put together from their parts: `split`, `rsplit`,
-- `rpartition`, `endswith` and the slice that drops a suffix.
use nix_strix_halo.Prelude.{
  ℕ, suc, ◌-◌, ◌≡◌, refl, ap, ◌∙◌, true, false, List, [], ◌∷◌, ◌++◌, arith, if◌then◌else◌, length,
  take, All,
}
use mathlib.Core.List.{reverse, reverse-append}
use nix_strix_halo.Prelude.Lists.{length-append}
use nix_strix_halo.Prelude.Text.{
  Text, has_char, split, join, starts_with-append, ends_with, rpartition, rsplit, drop_last,
}

-- A part without the separator is split off whole.
pub split-single : (sep : ℕ) (p : Text) → has_char sep p ≡ false → split sep p ≡ p ∷ []
split-single sep [] h = refl
split-single sep (c ∷ p) h = ground (arith, split-single sep p)

pub split-append :
    (sep : ℕ) (p t : Text) → has_char sep p ≡ false → split sep (p ++ sep ∷ t) ≡ p ∷ split sep t
split-append sep [] t h = ground arith
split-append sep (c ∷ p) t h = ground (arith, split-append sep p t)

-- s.split(sep) undoes sep.join(parts).
pub split-join :
    (sep : ℕ) (p : Text) (ps : List Text)
    → All (λ q. has_char sep q ≡ false) (p ∷ ps)
    → split sep (join (sep ∷ []) (p ∷ ps)) ≡ p ∷ ps
split-join sep p [] h = split-single sep p h.0
split-join sep p (q ∷ ps) h =
    split-append sep p (join (sep ∷ []) (q ∷ ps)) h.0 ∙ ap (λ r. p ∷ r) (split-join sep q ps h.1)

pub rpartition-none :
    (sep : ℕ) (t : Text)
    → has_char sep t ≡ false
    → rpartition sep t ≡ record { head = []; found = false; tail = t }
unfolding rpartition
rpartition-none sep [] h = refl
rpartition-none sep (c ∷ t) h = ground (arith, rpartition-none sep t)

pub rpartition-append :
    (sep : ℕ) (s t : Text)
    → has_char sep t ≡ false
    → rpartition sep (s ++ sep ∷ t) ≡ record { head = s; found = true; tail = t }
unfolding rpartition
rpartition-append sep [] t h = ground (arith, rpartition-none sep t)
rpartition-append sep (c ∷ s) t h = ground (arith, rpartition-append sep s t)

take-append : (s e : Text) → take (length s) (s ++ e) ≡ s
take-append [] e = refl
take-append (c ∷ s) e = ap (λ r. c ∷ r) (take-append s e)

pub drop_last-append : (s e : Text) → drop_last (length e) (s ++ e) ≡ s
unfolding drop_last
drop_last-append s e =
    let n : length (s ++ e) - length e ≡ length s = omega (arith, length-append s e) in
    rw n (take-append s e)

pub ends_with-append : (e s : Text) → ends_with e (s ++ e) ≡ true
unfolding ends_with
ends_with-append e s = rw reverse-append (starts_with-append (reverse e) (reverse s))

pub rsplit-append :
    (sep n : ℕ) (s t : Text)
    → has_char sep t ≡ false
    → rsplit sep (suc n) (s ++ sep ∷ t) ≡ rsplit sep n s ++ t ∷ []
unfolding rsplit
rsplit-append sep n s t h = rw (rpartition-append sep s t h)

pub rsplit-zero : (sep : ℕ) (s : Text) → rsplit sep 0 s ≡ s ∷ []
unfolding rsplit
rsplit-zero sep s = refl

pub has_char-append :
    (c : ℕ) (s t : Text) → has_char c (s ++ t) ≡ (if has_char c s then true else has_char c t)
has_char-append c [] t = refl
has_char-append c (d ∷ s) t = ground (arith, has_char-append c s t)
