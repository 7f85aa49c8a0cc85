-- ===== src/Version/Parse.antt =====
-- How the release pattern reads a text that is put together from its components.
use mathlib.Core.List.{append-nil, append_assoc}
use nix_strix_halo.Prelude.{
  ◌≡◌, refl, ap, ◌∙◌, true, false, some, List, [], ◌∷◌, ◌++◌, arith, All, all,
}
use nix_strix_halo.Prelude.Text.{Text, is_digit, split, join, has_char}
use nix_strix_halo.Prelude.Text.Splits.{split-join}
use nix_strix_halo.Version.{next_is, extend, release_tail, match_release, is_digits}

-- Components of a release: at least one, each of digits.
abbrev pub IsRelease : List Text → Type 0
IsRelease [] = ⊥
IsRelease (p ∷ ps) = All (λ q. is_digits q ≡ true) (p ∷ ps)

-- What may follow a release so that the release ends there.
pub record IsSuffix (s : Text) : Type 0 where
  pub no_digit : next_is is_digit s ≡ false
  pub no_component : (t : Text) → s ≡ b'.' ∷ t → next_is is_digit t ≡ false
  pub one_line : has_char 10 s ≡ false

-- The text of a release.
abbrev pub render : List Text → Text
render ps = join (b'.' ∷ []) ps

release_tail-digits :
    (p s : Text)
    → all is_digit p ≡ true
    → release_tail (p ++ s)
      ≡ record { matched = p ++ (release_tail s).matched; rest = (release_tail s).rest }
unfolding release_tail
release_tail-digits [] s h = refl
release_tail-digits (c ∷ p) s h = ground (arith, release_tail-digits p s)

release_tail-dot :
    (t : Text) → next_is is_digit t ≡ true → release_tail (b'.' ∷ t) ≡ extend b'.' (release_tail t)
unfolding release_tail
release_tail-dot t h = ground arith

release_tail-suffix : (s : Text) → IsSuffix s → release_tail s ≡ record { matched = []; rest = s }
unfolding release_tail
release_tail-suffix [] h = refl
release_tail-suffix (c ∷ s) h = ground (arith, h.no_digit, h.no_component s)

digits-next : (p s : Text) → is_digits p ≡ true → next_is is_digit (p ++ s) ≡ true
digits-next [] s h = cc
digits-next (c ∷ p) s h = ground arith

pub digits-all : (p : Text) → is_digits p ≡ true → all is_digit p ≡ true
digits-all [] h = cc
digits-all (c ∷ p) h = ground arith

pub render-next :
    (p : Text) (ps : List Text) (s : Text)
    → is_digits p ≡ true
    → next_is is_digit (render (p ∷ ps) ++ s) ≡ true
render-next p [] s h = digits-next p s h
render-next p (q ∷ ps) s h = rw append_assoc (digits-next p _ h)

release_tail-render :
    (p : Text) (ps : List Text) (s : Text)
    → All (λ q. is_digits q ≡ true) (p ∷ ps)
    → IsSuffix s
    → release_tail (render (p ∷ ps) ++ s) ≡ record { matched = render (p ∷ ps); rest = s }
release_tail-render p [] s h k =
    rw (release_tail-digits p s (digits-all p h.0), release_tail-suffix s k, append-nil)
release_tail-render p (q ∷ ps) s h k =
    let t : Text = render (q ∷ ps) ++ s in
    ap release_tail (append_assoc p (b'.' ∷ render (q ∷ ps)) s)
    ∙ cc (
      release_tail-digits p (b'.' ∷ t) (digits-all p h.0),
      release_tail-dot t (render-next q ps s h.1.0),
      release_tail-render q ps s h.1 k,
    )

-- The pattern takes the whole release and leaves the suffix.
pub match_release-render :
    (p : Text) (ps : List Text) (s : Text)
    → IsRelease (p ∷ ps)
    → IsSuffix s
    → match_release (render (p ∷ ps) ++ s) ≡ some (record { matched = render (p ∷ ps); rest = s })
unfolding match_release
match_release-render p ps s h k =
    ground (arith, release_tail-render p ps s h k, render-next p ps s h.0, k.one_line)

digits-no_dot : (p : Text) → all is_digit p ≡ true → has_char b'.' p ≡ false
digits-no_dot [] h = refl
digits-no_dot (c ∷ p) h = ground (arith, digits-no_dot p)

pub split-render :
    (p : Text) (ps : List Text) → IsRelease (p ∷ ps) → split b'.' (render (p ∷ ps)) ≡ p ∷ ps
split-render p ps h = split-join b'.' p ps (no_dots (p ∷ ps) h)
  where
    no_dots :
        (qs : List Text) → All (λ q. is_digits q ≡ true) qs → All (λ q. has_char b'.' q ≡ false) qs
    no_dots [] h = tt
    no_dots (q ∷ qs) h = (digits-no_dot q (digits-all q h.0), no_dots qs h.1)
