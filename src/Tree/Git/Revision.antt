-- ===== src/Tree/Git/Revision.antt =====
-- Which revision `git_rev` takes from the output of `git ls-remote`.
use nix_strix_halo.Prelude.{
  ◌≡◌, ◌≢◌, refl, ◌⊎◌, inl, inr, some, List, [], ◌∷◌, In, All, keep, Bool-cases, Option-cases,
}
use nix_strix_halo.Prelude.Text.{Text, text_eq, text_eq_iff, strip}
use nix_strix_halo.Tree.Git.{
  yields, Lookup, found, absent, malformed, pair_of, words, find_ref, peeled, has_text,
  rev_or_error, rev_of, rev_among, git_rev, splitlines,
}

-- The line gives this revision for this ref.
abbrev pub Reads : Text → Text → Text → Type 0
Reads line rev ref = pair_of (words line) ≡ some (rev, ref)

-- The line is about another ref.
abbrev pub IsOther : Text → Text → Type 0
IsOther ref line = (rev : Text) × (other : Text) × Reads line rev other × (other ≢ ref)

-- Some line gives this revision for this ref.
abbrev pub IsGiven : List Text → Text → Text → Type 0
IsGiven lines rev ref = (line : Text) × In line lines × Reads line rev ref

find_ref-IsGiven :
    (ref : Text) (lines : List Text) (rev : Text)
    → find_ref ref lines ≡ found rev
    → IsGiven lines rev ref
unfolding find_ref
find_ref-IsGiven ref [] rev h = cc
find_ref-IsGiven ref (line ∷ lines) rev h = elim (Option-cases (pair_of (words line))) [
  | inl e ↦ cc (rw (e, find_ref) at h)
  | inr ((r, other), e) ↦ elim (Bool-cases (text_eq other ref)) [
    | inl t ↦
        let same : other ≡ ref = (text_eq_iff other ref).0 t in
        let this : found r ≡ found rev = rw (e, find_ref, t) at h in (line, inl refl, cc)
    | inr t ↦
        let (l, m, reads) = find_ref-IsGiven ref lines rev (rw (e, find_ref, t) at h) in
        (l, inr m, reads)
  ]
]

find_ref-IsOther :
    (ref : Text) (lines : List Text) → find_ref ref lines ≡ absent → All (IsOther ref) lines
unfolding find_ref
find_ref-IsOther ref [] h = tt
find_ref-IsOther ref (line ∷ lines) h = elim (Option-cases (pair_of (words line))) [
  | inl e ↦ cc (rw (e, find_ref) at h)
  | inr ((r, other), e) ↦ elim (Bool-cases (text_eq other ref)) [
    | inl t ↦ cc (rw (e, find_ref, t) at h)
    | inr t ↦ (
      (r, other, e, λ q. cc (t, (text_eq_iff other ref).1 q)),
      find_ref-IsOther ref lines (rw (e, find_ref, t) at h),
    )
  ]
]

rev_or_error-yields :
    (url ref : Text) (o : Lookup) (rev : Text) → rev_or_error url ref o ≡ yields rev → o ≡ found rev
rev_or_error-yields url ref (found r) rev h = cc
rev_or_error-yields url ref absent rev h = cc
rev_or_error-yields url ref malformed rev h = cc

-- The lines that `git_rev` looks at.
abbrev pub ref_lines : Text → List Text
ref_lines output = keep (λ l. has_text (strip l)) (splitlines output)

rev_of-IsGiven :
    (url ref : Text) (lines : List Text) (o : Lookup) (rev : Text)
    → find_ref (peeled ref) lines ≡ o
    → rev_of url ref lines o ≡ yields rev
    → IsGiven lines rev (peeled ref) ⊎ (All (IsOther (peeled ref)) lines × IsGiven lines rev ref)
rev_of-IsGiven url ref lines (found r) rev e h = inl (find_ref-IsGiven (peeled ref) lines rev (cc))
rev_of-IsGiven url ref lines absent rev e h = inr (
  find_ref-IsOther (peeled ref) lines e,
  find_ref-IsGiven ref lines rev (rev_or_error-yields url ref (find_ref ref lines) rev h),
)
rev_of-IsGiven url ref lines malformed rev e h = cc

rev_among-IsGiven :
    (url ref : Text) (lines : List Text) (rev : Text)
    → rev_among url ref lines ≡ yields rev
    → IsGiven lines rev (peeled ref) ⊎ (All (IsOther (peeled ref)) lines × IsGiven lines rev ref)
rev_among-IsGiven url ref [] rev h = cc
rev_among-IsGiven url ref (line ∷ lines) rev h =
    rev_of-IsGiven url ref (line ∷ lines) (find_ref (peeled ref) (line ∷ lines)) rev refl h

-- The revision that git_rev returns is given by some line for the peeled ref, or, where every line
-- is about another ref than the peeled one, by some line for the ref itself.
pub git_rev-IsGiven :
    (output url ref rev : Text)
    → git_rev output url ref ≡ yields rev
    → IsGiven (ref_lines output) rev (peeled ref)
      ⊎ (All (IsOther (peeled ref)) (ref_lines output) × IsGiven (ref_lines output) rev ref)
unfolding git_rev
git_rev-IsGiven output url ref rev h = rev_among-IsGiven url ref (ref_lines output) rev h
