-- ===== src/Tree/Flake/Again.antt =====
-- A second run of update-source-tree.py leaves the text of flake.nix as it is.
use nix_strix_halo.Prelude.{
  ℕ, ◌+◌, ◌≡◌, refl, sym, ap, ◌∙◌, Bool, true, not, List, [], ◌∷◌, ◌++◌, arith, inl, inr, ltb, ◌-◌,
  ◌/◌, ◌%◌, all, All, Bool-cases,
}
use mathlib.Core.List.{append_assoc}
use nix_strix_halo.Prelude.Text.{Text, codes, join, prepend}
use nix_strix_halo.Tree.Git.{Outcome, stops, yields, splitlines, is_break}
use nix_strix_halo.Tree.Names.{
  Parsed, nix_string, input_url, escape, escape_char, unicode_escape, unit_escape, hex_digit,
}
use nix_strix_halo.Tree.Flake.{
  SourceEntry, begin_inputs, end_inputs, all_entry_lines, input_lines, update_lines, text_of,
  written, update_flake_inputs,
}
use nix_strix_halo.Tree.Flake.Block.{update_lines-IsMarked, update_lines-marked, update_lines-again}

abbrev pub plain : ℕ → Bool
plain c = not (is_break c)

-- A text of one line.
abbrev pub IsLine : Text → Type 0
IsLine s = all plain s ≡ true

all-append : (p : ℕ → Bool) (s t : Text) → all p s ≡ true → all p t ≡ true → all p (s ++ t) ≡ true
all-append p [] t h k = k
all-append p (c ∷ s) t h k = ground (arith, all-append p s t)

splitlines-line : (l s : Text) → IsLine l → splitlines (l ++ 10 ∷ s) ≡ l ∷ splitlines s
unfolding splitlines
splitlines-line [] s h = refl
splitlines-line (c ∷ l) s h = ground (arith, splitlines-line l s)

splitlines-text_of :
    (l : Text) (ls : List Text) → All IsLine (l ∷ ls) → splitlines (text_of (l ∷ ls)) ≡ l ∷ ls
unfolding splitlines
splitlines-text_of l [] h = splitlines-line l [] h.0
splitlines-text_of l (m ∷ ls) h =
    ap splitlines (append_assoc l (10 ∷ join (10 ∷ []) (m ∷ ls)) (10 ∷ []))
    ∙ splitlines-line l (text_of (m ∷ ls)) h.0
    ∙ ap (λ rest. l ∷ rest) (splitlines-text_of m ls h.1)

prepend-IsLine :
    (c : ℕ) (ls : List Text) → plain c ≡ true → All IsLine ls → All IsLine (prepend c ls)
prepend-IsLine c [] h k = (ground arith, tt)
prepend-IsLine c (l ∷ ls) h k = (ground (arith, k.0), k.1)

splitlines-IsLine : (s : Text) → All IsLine (splitlines s)
unfolding splitlines
splitlines-IsLine [] = tt
splitlines-IsLine (c ∷ s) = elim (Bool-cases (is_break c)) [
  | inl e ↦ rw e (refl, splitlines-IsLine s)
  | inr e ↦ rw e (prepend-IsLine c (splitlines s) (rw e) (splitlines-IsLine s))
]

hex_digit-plain : (n : ℕ) → plain (hex_digit n) ≡ true
unfolding hex_digit
hex_digit-plain n = ground arith

unit_escape-IsLine : (n : ℕ) → IsLine (unit_escape n)
unfolding unit_escape
unit_escape-IsLine n = rw (
  hex_digit-plain (n / 4096 % 16),
  hex_digit-plain (n / 256 % 16),
  hex_digit-plain (n / 16 % 16),
  hex_digit-plain (n % 16),
)

unicode_escape-IsLine : (c : ℕ) → IsLine (unicode_escape c)
unfolding unicode_escape
unicode_escape-IsLine c = elim (Bool-cases (ltb c 0x10000)) [
  | inl e ↦ rw e (unit_escape-IsLine c)
  | inr e ↦ rw e (
      all-append plain (unit_escape (0xD800 + (c - 0x10000) / 0x400))
        (unit_escape (0xDC00 + (c - 0x10000) % 0x400)) (unit_escape-IsLine _)
        (unit_escape-IsLine _))
]

escape_char-IsLine : (c : ℕ) → IsLine (escape_char c)
unfolding escape_char
escape_char-IsLine c = ground (arith, unicode_escape-IsLine c)

escape-IsLine : (s : Text) → IsLine (escape s)
unfolding escape
escape-IsLine [] = refl
escape-IsLine (c ∷ s) =
    all-append plain (escape_char c) (escape s) (escape_char-IsLine c) (escape-IsLine s)

nix_string-IsLine : (s : Text) → IsLine (nix_string s)
unfolding nix_string
nix_string-IsLine s = all-append plain (escape s) (b'"' ∷ []) (escape-IsLine s) refl

All-append : (ls ms : List Text) → All IsLine ls → All IsLine ms → All IsLine (ls ++ ms)
All-append [] ms h k = k
All-append (l ∷ ls) ms h k = (h.0, All-append ls ms h.1 k)

All-parts : (ls ms : List Text) → All IsLine (ls ++ ms) → All IsLine ls × All IsLine ms
All-parts [] ms h = (tt, h)
All-parts (l ∷ ls) ms h = let (front, back) = All-parts ls ms h.1 in ((h.0, front), back)

-- Lines that are not none are read back from their text.
read_back :
    (pre : List Text) (x : Text) (post lines : List Text)
    → lines ≡ pre ++ x ∷ post
    → All IsLine lines
    → splitlines (text_of lines) ≡ lines
read_back [] x post lines e h = rw e (splitlines-text_of x post (rw e at h))
read_back (l ∷ pre) x post lines e h = rw e (splitlines-text_of l (pre ++ x ∷ post) (rw e at h))

module _ (urlparse : Text → Parsed) where
  quoted-IsLine : (p s e : Text) → IsLine p → IsLine e → IsLine (p ++ (nix_string s ++ e))
  quoted-IsLine p s e h k =
      all-append plain p (nix_string s ++ e) h
        (all-append plain (nix_string s) e (nix_string-IsLine s) k)

  all_entry_lines-IsLine :
      (entries : List SourceEntry) → All IsLine (all_entry_lines urlparse entries)
  unfolding all_entry_lines
  all_entry_lines-IsLine [] = tt
  all_entry_lines-IsLine (entry ∷ entries) = (
    quoted-IsLine (codes "    ") entry.input_name (codes " = {") refl refl,
    (
      quoted-IsLine (codes "      url = ") (input_url urlparse entry.url entry.rev) (codes ";") refl
          refl,
      (refl, (refl, (refl, all_entry_lines-IsLine entries))),
    ),
  )

module _ (urlparse : Text → Parsed) (root : SourceEntry) (submodules : List SourceEntry) where
  input_lines-IsLine : All IsLine (input_lines urlparse root submodules)
  unfolding input_lines
  input_lines-IsLine = (
    refl,
    (
      refl,
      All-append _ (end_inputs ∷ []) (all_entry_lines-IsLine urlparse (root ∷ submodules))
          (refl, tt),
    ),
  )

  update_lines-IsLine :
      (lines out : List Text)
      → update_lines urlparse root submodules lines ≡ yields out
      → All IsLine lines
      → All IsLine out
  update_lines-IsLine lines out h k =
      let m = update_lines-IsMarked urlparse root submodules lines out h in
      let made : m.pre ++ (input_lines urlparse root submodules ++ m.post) ≡ out =
        cc (h, update_lines-marked urlparse root submodules lines m) in
      let (front, back) =
        All-parts m.pre (begin_inputs ∷ (m.mid ++ end_inputs ∷ m.post)) (rw m.parts at k) in
      let (inner, rest) = All-parts m.mid (end_inputs ∷ m.post) back.1 in
      rw (← made) (All-append m.pre _ front (All-append _ m.post input_lines-IsLine rest.1))

  written-yields :
      (o : Outcome (List Text)) (after : Text)
      → written urlparse o ≡ yields after
      → (lines : List Text) × (o ≡ yields lines) × (text_of lines ≡ after)
  written-yields (stops failure) after h = cc
  written-yields (yields lines) after h = (lines, refl, cc)

  -- Where update_flake_inputs writes flake.nix, a second call with the same inputs leaves the text
  -- as the first one wrote it.
  pub update_flake_inputs-again :
      (content after : Text)
      → update_flake_inputs urlparse root submodules content ≡ yields after
      → update_flake_inputs urlparse root submodules after ≡ yields after
  unfolding update_flake_inputs
  update_flake_inputs-again content after h =
      let (out, made, same) =
        written-yields (update_lines urlparse root submodules (splitlines content)) after h in
      let again = update_lines-again urlparse root submodules (splitlines content) out made in
      let lines = update_lines-IsLine (splitlines content) out made (splitlines-IsLine content) in
      let m = update_lines-IsMarked urlparse root submodules out out again in
      let read : splitlines after ≡ out =
        ap splitlines (sym same)
        ∙ read_back m.pre begin_inputs (m.mid ++ end_inputs ∷ m.post) out m.parts lines in
      rw (read, again, same)
