-- ===== src/Prelude/Text.antt =====
-- Python's `str` as the list of its code points, with the methods that the scripts use.
-- `isdigit`, `lower`, `\d` and `[A-Za-z]` are the ASCII ones: the texts are file names, versions,
-- git refs and paths.
use Prim.Native.Nat.{ℕ, zero, suc, ◌+◌, ◌-◌, ◌*◌}
use Prim.Native.Char.{code}
use Prim.Native.String.{String}
use mathlib.Core.Path.{◌≡◌, refl, ap, ◌∙◌}
use mathlib.Core.Logic.{◌↔◌}
use mathlib.Core.Bool.{Bool, true, false, ◌&&◌, ◌||◌, not}
use mathlib.Core.List.{List, [], ◌∷◌, ◌++◌, reverse, reverse-append}
use native.Mathlib.Omega.{arith}
use nix_strix_halo.Prelude.Tests.{if◌then◌else◌, leb, ◌==◌}
use nix_strix_halo.Prelude.Lists.{length, length-append, take, drop, All, all}
pub mod Splits
pub mod Runs

abbrev pub Text : Type 0
Text = List ℕ

-- The code points of a literal.
abbrev pub codes : String → Text
codes String.[] = []
codes (String.◌∷◌ c s) = code c ∷ codes s

abbrev pub text_eq : Text → Text → Bool
text_eq [] [] = true
text_eq [] (d ∷ t) = false
text_eq (c ∷ s) [] = false
text_eq (c ∷ s) (d ∷ t) = if c == d then text_eq s t else false

pub text_eq_iff : (s t : Text) → (text_eq s t ≡ true) ↔ (s ≡ t)
text_eq_iff [] [] = (λ h. refl, λ h. refl)
text_eq_iff [] (d ∷ t) = (λ h. cc, λ h. cc)
text_eq_iff (c ∷ s) [] = (λ h. cc, λ h. cc)
text_eq_iff (c ∷ s) (d ∷ t) =
    let (to, from) = text_eq_iff s t in (λ h. ground arith, λ h. ground arith)

pub text_eq_refl : (s : Text) → text_eq s s ≡ true
text_eq_refl s = (text_eq_iff s s).1 refl

-- s.startswith(p)
abbrev pub starts_with : Text → Text → Bool
starts_with [] s = true
starts_with (c ∷ p) [] = false
starts_with (c ∷ p) (d ∷ s) = if c == d then starts_with p s else false

pub starts_with-append : (p s : Text) → starts_with p (p ++ s) ≡ true
starts_with-append [] s = refl
starts_with-append (c ∷ p) s = ground (arith, starts_with-append p s)

pub starts_with-split : (p s : Text) → starts_with p s ≡ true → s ≡ p ++ drop (length p) s
starts_with-split [] s h = refl
starts_with-split (c ∷ p) [] h = cc
starts_with-split (c ∷ p) (d ∷ s) h = ground (arith, starts_with-split p s)

-- s.endswith(p)
unfoldable pub ends_with : Text → Text → Bool
ends_with p s = starts_with (reverse p) (reverse s)

abbrev pub is_digit : ℕ → Bool
is_digit c = leb b'0' c && leb c b'9'

abbrev pub is_upper : ℕ → Bool
is_upper c = leb b'A' c && leb c b'Z'

abbrev pub is_lower : ℕ → Bool
is_lower c = leb b'a' c && leb c b'z'

abbrev pub is_alpha : ℕ → Bool
is_alpha c = is_upper c || is_lower c

-- s.lower()
abbrev pub lower_char : ℕ → ℕ
lower_char c = if is_upper c then c + 32 else c

abbrev pub lower : Text → Text
lower [] = []
lower (c ∷ s) = lower_char c ∷ lower s

-- s.replace(a, b) at single characters
abbrev pub replace : ℕ → ℕ → Text → Text
replace a b [] = []
replace a b (c ∷ s) = (if c == a then b else c) ∷ replace a b s

-- str.isspace on ASCII, with the separators that Python counts in
abbrev pub is_space : ℕ → Bool
is_space c = (leb 9 c && leb c 13) || (leb 28 c && leb c 32)

abbrev pub take_while : (ℕ → Bool) → Text → Text
take_while p [] = []
take_while p (c ∷ s) = if p c then c ∷ take_while p s else []

abbrev pub drop_while : (ℕ → Bool) → Text → Text
drop_while p [] = []
drop_while p (c ∷ s) = if p c then drop_while p s else c ∷ s

pub take_while-append-drop_while : (p : ℕ → Bool) (s : Text) → take_while p s ++ drop_while p s ≡ s
take_while-append-drop_while p [] = refl
take_while-append-drop_while p (c ∷ s) = ground (arith, take_while-append-drop_while p s)

-- s.strip() and s.strip(chars)
abbrev pub strip_by : (ℕ → Bool) → Text → Text
strip_by p s = reverse (drop_while p (reverse (drop_while p s)))

abbrev pub strip : Text → Text
strip = strip_by is_space

-- c in s
abbrev pub has_char : ℕ → Text → Bool
has_char c [] = false
has_char c (d ∷ s) = if d == c then true else has_char c s

-- s.split(sep), at a single character: always at least one part
abbrev pub prepend : ℕ → List Text → List Text
prepend c [] = (c ∷ []) ∷ []
prepend c (w ∷ ws) = (c ∷ w) ∷ ws

abbrev pub split : ℕ → Text → List Text
split sep [] = [] ∷ []
split sep (c ∷ s) = let rest = split sep s in if c == sep then [] ∷ rest else prepend c rest

-- sep.join(parts)
abbrev pub join : Text → List Text → Text
join sep [] = []
join sep (w ∷ []) = w
join sep (w ∷ v ∷ ws) = w ++ (sep ++ join sep (v ∷ ws))

-- s.split(sep, 1)[0], and s.partition(sep)
abbrev pub before : ℕ → Text → Text
before sep s = take_while (λ c. not (c == sep)) s

pub record Partition : Type 0 where
  pub head : Text
  pub found : Bool
  pub tail : Text

abbrev pub partition : ℕ → Text → Partition
partition sep [] = record { head = []; found = false; tail = [] }
partition sep (c ∷ s) =
    let rest = partition sep s in
    if c == sep
    then record { head = []; found = true; tail = s }
    else record { head = c ∷ rest.head; found = rest.found; tail = rest.tail }

-- int(s) of a run of digits
abbrev pub int_from : ℕ → Text → ℕ
int_from n [] = n
int_from n (c ∷ s) = int_from (n * 10 + (c - b'0')) s

abbrev pub int : Text → ℕ
int = int_from 0

-- s.rpartition(sep): the last separator splits.
unfoldable pub rpartition : ℕ → Text → Partition
rpartition sep [] = record { head = []; found = false; tail = [] }
rpartition sep (c ∷ s) =
    let rest = rpartition sep s in
    if rest.found
    then record { head = c ∷ rest.head; found = true; tail = rest.tail }
    else if c == sep
    then record { head = []; found = true; tail = s }
    else record { head = []; found = false; tail = c ∷ s }

-- s.rsplit(sep, n)
unfoldable pub rsplit : ℕ → ℕ → Text → List Text
rsplit sep zero s = s ∷ []
rsplit sep (suc n) s =
    let parts = rpartition sep s in
    let rest = rsplit sep n parts.head in if parts.found then rest ++ parts.tail ∷ [] else s ∷ []

-- s[:-n], for n > 0
unfoldable pub drop_last : ℕ → Text → Text
drop_last n s = take (length s - n) s
