-- ===== src/Tarball/Series.antt =====
-- The test of a series in update-rocm.py and the one in update-python-wheels.py agree.
use mathlib.Core.List.{append_assoc, append-nil}
use nix_strix_halo.Prelude.{
  ℕ, ◌≡◌, refl, sym, ap, ◌∙◌, ◌&&◌, not, Bool, true, false, List, [], ◌∷◌, ◌++◌, arith, all, ◌==◌,
  ==_iff, Bool-cases, inl, inr, if◌then◌else◌,
}
use nix_strix_halo.Prelude.Text.{Text, is_digit, text_eq}
use nix_strix_halo.Version.{is_digits, next_is, in_rocm_series}
use nix_strix_halo.Version.Parse.{IsRelease, IsSuffix, render, render-next, digits-all}
use nix_strix_halo.Version.Series.{prefix_test, prefix_test_cons, in_rocm_series-components}
use nix_strix_halo.Tarball.{in_series}

in_series-cons :
    (d c : ℕ) (r u : Text) → in_series (d ∷ r) (c ∷ u) ≡ (if d == c then in_series r u else false)
unfolding in_series
in_series-cons d c r u = ground arith

in_series-cons_nil : (d : ℕ) (r : Text) → in_series (d ∷ r) [] ≡ false
unfolding in_series
in_series-cons_nil d r = refl

in_series-nil : (u : Text) → in_series [] u ≡ not (next_is is_digit u)
unfolding in_series
in_series-nil u = refl

-- A digit does not begin what follows the digits.
digit-mismatch :
    (d : ℕ) (r u : Text)
    → is_digit d ≡ true
    → next_is is_digit u ≡ false
    → in_series (d ∷ r) u ≡ false
digit-mismatch d r [] h k = in_series-cons_nil d r
digit-mismatch d r (c ∷ u) h k = ground (arith, in_series-cons d c r u)

-- One component against the last one of the series.
last_component :
    (p q u : Text)
    → all is_digit p ≡ true
    → all is_digit q ≡ true
    → next_is is_digit u ≡ false
    → in_series q (p ++ u) ≡ text_eq p q
last_component [] [] u hp hq k = ground (arith, in_series-nil u)
last_component (c ∷ p) [] u hp hq k = ground (arith, in_series-nil (c ∷ p ++ u))
last_component [] (d ∷ q) u hp hq k = digit-mismatch d q u (ground arith) k
last_component (c ∷ p) (d ∷ q) u hp hq k =
    ground (arith, in_series-cons d c q (p ++ u), last_component p q u)

-- One component against one that more follow.
inner_component :
    (p q r u : Text)
    → all is_digit p ≡ true
    → all is_digit q ≡ true
    → next_is is_digit u ≡ false
    → in_series (q ++ b'.' ∷ r) (p ++ u) ≡ (text_eq p q && in_series (b'.' ∷ r) u)
inner_component [] [] r u hp hq k = refl
inner_component (c ∷ p) [] r u hp hq k = ground (arith, in_series-cons b'.' c r (p ++ u))
inner_component [] (d ∷ q) r u hp hq k = digit-mismatch d (q ++ b'.' ∷ r) u (ground arith) k
inner_component (c ∷ p) (d ∷ q) r u hp hq k =
    ground (arith, in_series-cons d c (q ++ b'.' ∷ r) (p ++ u), inner_component p q r u)

-- Behind the last component of the version there is no further one.
no_more :
    (q : Text) (qs : List Text) (s : Text)
    → is_digits q ≡ true
    → IsSuffix s
    → in_series (b'.' ∷ render (q ∷ qs)) s ≡ false
no_more q qs [] h k = in_series-cons_nil b'.' (render (q ∷ qs))
no_more q qs (c ∷ s) h k = elim (Bool-cases (b'.' == c)) [
  | inr e ↦ in_series-cons b'.' c (render (q ∷ qs)) s ∙ rw e refl
  | inl e ↦
      let dot : c ≡ b'.' = sym ((==_iff b'.' c).0 e) in
      let quiet : next_is is_digit s ≡ false = k.no_component s (rw dot refl) in
      in_series-cons b'.' c (render (q ∷ qs)) s
      ∙ rw e (begins (render (q ∷ qs)) (digit_first q qs h) quiet)
]
  where
    digit_first :
        (q : Text) (qs : List Text) → is_digits q ≡ true → next_is is_digit (render (q ∷ qs)) ≡ true
    digit_first q qs h =
        ap (next_is is_digit) (sym (append-nil (render (q ∷ qs)))) ∙ render-next q qs [] h

    begins :
        (r : Text) → next_is is_digit r ≡ true → next_is is_digit s ≡ false → in_series r s ≡ false
    begins [] a b = cc
    begins (d ∷ r) a b = digit-mismatch d r s (ground arith) b

prefix_test-nil : (ps : List Text) → prefix_test ps [] ≡ true
prefix_test-nil ps = ground arith

prefix_test-none : (r : Text) (qs : List Text) → prefix_test [] (r ∷ qs) ≡ false
prefix_test-none r qs = ground arith

&&-unit : (b : Bool) → (b && true) ≡ b
&&-unit true = refl
&&-unit false = refl

-- The text behind the first component.
behind : List Text → Text → Text
behind [] s = s
behind (p ∷ ps) s = b'.' ∷ (render (p ∷ ps) ++ s)

render-behind : (p : Text) (ps : List Text) (s : Text) → render (p ∷ ps) ++ s ≡ p ++ behind ps s
unfolding behind
render-behind p [] s = refl
render-behind p (q ∷ ps) s = append_assoc p (b'.' ∷ render (q ∷ ps)) s

behind-no_digit : (ps : List Text) (s : Text) → IsSuffix s → next_is is_digit (behind ps s) ≡ false
unfolding behind
behind-no_digit [] s k = k.no_digit
behind-no_digit (p ∷ ps) s k = refl

first_component :
    (p q r : Text) (ps qs : List Text) (s : Text)
    → IsRelease (p ∷ ps)
    → IsRelease (q ∷ r ∷ qs)
    → IsSuffix s
    → in_series (render (q ∷ r ∷ qs)) (render (p ∷ ps) ++ s)
      ≡ (text_eq p q && in_series (b'.' ∷ render (r ∷ qs)) (behind ps s))
first_component p q r ps qs s hp hq k =
    ap (in_series (q ++ b'.' ∷ render (r ∷ qs))) (render-behind p ps s)
    ∙ inner_component p q (render (r ∷ qs)) (behind ps s) (digits-all p hp.0) (digits-all q hq.0)
        (behind-no_digit ps s k)

in_series-components :
    (p q : Text) (ps qs : List Text) (s : Text)
    → IsRelease (p ∷ ps)
    → IsRelease (q ∷ qs)
    → IsSuffix s
    → in_series (render (q ∷ qs)) (render (p ∷ ps) ++ s) ≡ prefix_test (p ∷ ps) (q ∷ qs)
unfolding behind
in_series-components p q ps [] s hp hq k =
    ap (in_series q) (render-behind p ps s)
    ∙ last_component p q (behind ps s) (digits-all p hp.0) (digits-all q hq.0)
        (behind-no_digit ps s k)
    ∙ sym (
        prefix_test_cons p q ps []
        ∙ ap (λ b. text_eq p q && b) (prefix_test-nil ps)
        ∙ &&-unit (text_eq p q))
in_series-components p q [] (r ∷ qs) s hp hq k =
    first_component p q r [] qs s hp hq k
    ∙ ap (λ b. text_eq p q && b) (no_more r qs s hq.1.0 k ∙ sym (prefix_test-none r qs))
    ∙ sym (prefix_test_cons p q [] (r ∷ qs))
in_series-components p q (t ∷ ps) (r ∷ qs) s hp hq k =
    first_component p q r (t ∷ ps) qs s hp hq k
    ∙ ap (λ b. text_eq p q && b)
        (in_series-cons b'.' b'.' (render (r ∷ qs)) (render (t ∷ ps) ++ s)
          ∙ in_series-components t r ps qs s hp.1 hq.1 k)
    ∙ sym (prefix_test_cons p q (t ∷ ps) (r ∷ qs))

-- For a version that is a release with a suffix that does not go on with it, and a series that is a
-- release, the test of the series in update-rocm.py and the one in update-python-wheels.py agree.
pub in_series-in_rocm_series :
    (p q : Text) (ps qs : List Text) (s : Text)
    → IsRelease (p ∷ ps)
    → IsRelease (q ∷ qs)
    → IsSuffix s
    → in_series (render (q ∷ qs)) (render (p ∷ ps) ++ s)
      ≡ in_rocm_series (render (p ∷ ps) ++ s) (render (q ∷ qs))
in_series-in_rocm_series p q ps qs s hp hq k =
    in_series-components p q ps qs s hp hq k ∙ sym (in_rocm_series-components p q ps qs s hp hq k)
