-- ===== src/Wheels/Filename/RoundTrip.antt =====
-- The file name of a wheel is read back into the fields that it was built from.
use nix_strix_halo.Prelude.{
  ◌≡◌, refl, ap, ◌∙◌, true, false, some, List, [], ◌∷◌, ◌++◌, arith, all, Bool-cases, inl, inr,
  ◌==◌,
}
use mathlib.Core.List.{append_assoc}
use nix_strix_halo.Prelude.Text.{
  Text, codes, text_eq_iff, has_char, ends_with, rsplit, is_digit, starts_with, split, prepend,
}
use nix_strix_halo.Prelude.Text.Splits.{
  has_char-append, ends_with-append, split-single, rsplit-append, rsplit-zero, drop_last-append,
}
use nix_strix_halo.Prelude.Text.Runs.{
  take_while-run, drop_while-run, take_while-all, drop_while-all,
}
use nix_strix_halo.Version.{is_digits}
use nix_strix_halo.Wheels.{wheel, normalize_project}
use nix_strix_halo.Wheels.Filename.{
  Urls, file_name, last_kept, is_kept, file_parts, parse_distribution, rocm_version_of, search_rocm,
  not_sign, is_nil, numeric_version,
}

-- s + "-" + t
abbrev pub dash : Text → Text → Text
dash s t = s ++ b'-' ∷ t

-- {name}-{version}-{python tag}-{abi tag}-{platform tag}
abbrev pub stem : Text → Text → Text → Text → Text → Text
stem name version py abi plat = dash (dash (dash (dash name version) py) abi) plat

-- A field holds no dash and no slash.
pub record IsField (t : Text) : Type 0 where
  pub no_dash : has_char b'-' t ≡ false
  pub no_slash : has_char b'/' t ≡ false

no_slash-append :
    (s t : Text)
    → has_char b'/' s ≡ false
    → has_char b'/' t ≡ false
    → has_char b'/' (s ++ t) ≡ false
no_slash-append s t h k = ground (arith, has_char-append b'/' s t)

no_slash-dash :
    (s t : Text)
    → has_char b'/' s ≡ false
    → has_char b'/' t ≡ false
    → has_char b'/' (dash s t) ≡ false
no_slash-dash s t h k = ground (arith, has_char-append b'/' s (b'-' ∷ t))

kept-some : (t : Text) → is_kept t ≡ true → is_nil t ≡ false
kept-some [] h = cc
kept-some (c ∷ t) h = refl

later-last_kept :
    (q : Text) (qs : List Text) {t : Text}
    → last_kept qs ≡ t
    → is_nil t ≡ false
    → last_kept (q ∷ qs) ≡ t
later-last_kept q qs e h =
    let some_left : is_nil (last_kept qs) ≡ false = ap is_nil e ∙ h in rw some_left e

-- Behind the last slash stands the last component.
last_component :
    (dir t : Text)
    → has_char b'/' t ≡ false
    → is_kept t ≡ true
    → (q : Text) × (qs : List Text) × (split b'/' (dir ++ b'/' ∷ t) ≡ q ∷ qs) × (last_kept qs ≡ t)
last_component [] t h k = ([], t ∷ [], ap (λ ps. [] ∷ ps) (split-single b'/' t h), rw k refl)
last_component (c ∷ dir) t h k =
    let (q, qs, e, last) = last_component dir t h k in
    elim (Bool-cases (c == b'/')) [
      | inl slash ↦
          ([], q ∷ qs, rw slash (ap (λ ps. [] ∷ ps) e), later-last_kept q qs last (kept-some t k))
      | inr other ↦ (c ∷ q, qs, rw other (ap (prepend c) e), last)
    ]

module _ (dir name version py abi plat : Text) (name_ok : has_char b'/' name ≡ false)
    (version_ok : IsField version) (py_ok : IsField py) (abi_ok : IsField abi)
    (plat_ok : IsField plat) where
  abbrev whl : Text
  whl = stem name version py abi plat ++ codes ".whl"

  rsplit-stem :
      rsplit b'-' 4 (stem name version py abi plat) ≡ name ∷ version ∷ py ∷ abi ∷ plat ∷ []
  rsplit-stem = rw (
    rsplit-append b'-' 3 _ plat plat_ok.no_dash,
    rsplit-append b'-' 2 _ abi abi_ok.no_dash,
    rsplit-append b'-' 1 _ py py_ok.no_dash,
    rsplit-append b'-' 0 name version version_ok.no_dash,
    rsplit-zero,
  )

  whl-no_slash : has_char b'/' whl ≡ false
  whl-no_slash =
      let two = dash name version in
      let three = dash two py in
      let four = dash three abi in
      let h2 = no_slash-dash name version name_ok version_ok.no_slash in
      let h3 = no_slash-dash two py h2 py_ok.no_slash in
      let h4 = no_slash-dash three abi h3 abi_ok.no_slash in
      let h5 = no_slash-dash four plat h4 plat_ok.no_slash in
      no_slash-append (dash four plat) (codes ".whl") h5 refl

  -- Its last four characters tell it from an empty component and from a dot.
  whl-is_kept : (s : Text) → is_kept (s ++ codes ".whl") ≡ true
  whl-is_kept [] = refl
  whl-is_kept (c ∷ []) = ground arith
  whl-is_kept (c ∷ d ∷ s) = ground arith

  file_name-whl : file_name (dir ++ b'/' ∷ whl) ≡ whl
  unfolding file_name
  file_name-whl =
      let (q, qs, e, last) =
        last_component dir whl whl-no_slash (whl-is_kept (stem name version py abi plat)) in
      ap last_kept e
      ∙ later-last_kept q qs last (kept-some whl (whl-is_kept (stem name version py abi plat)))

  ends_with-whl : ends_with (codes ".whl") (dir ++ b'/' ∷ whl) ≡ true
  ends_with-whl =
      rw (← append_assoc dir (b'/' ∷ stem name version py abi plat) (codes ".whl"))
        (ends_with-append (codes ".whl") (dir ++ b'/' ∷ stem name version py abi plat))

  file_parts-whl :
      file_parts (dir ++ b'/' ∷ whl)
      ≡ some (record {
        raw_name = name;
        package_version = version;
        python_tag = py;
        abi_tag = abi;
        platform_tag = plat;
        kind = wheel;
      })
  unfolding file_parts
  file_parts-whl = rw (
    file_name-whl,
    ends_with-whl,
    drop_last-append (stem name version py abi plat) (codes ".whl"),
    rsplit-stem,
  )

  -- A file name that is put together from a name without a slash and from a version and tags
  -- without a dash or a slash, behind any directory, is read back into these fields, provided that
  -- the name is the project's up to case and underscores.
  pub parse_distribution-whl :
      (urls : Urls) (project href index_url : Text)
      → urls.unquote (urls.path href) ≡ dir ++ b'/' ∷ whl
      → normalize_project name ≡ normalize_project project
      → parse_distribution urls project href index_url
        ≡ some (record {
          project = project;
          filename = stem name version py abi plat ++ codes ".whl";
          url = urls.join index_url href;
          package_version = version;
          rocm_version = rocm_version_of project version;
          python_tag = py;
          abi_tag = abi;
          platform_tag = plat;
          kind = wheel;
        })
  unfolding parse_distribution
  parse_distribution-whl urls project href index_url located same = rw (
    located,
    file_parts-whl,
    located,
    file_name-whl,
    (text_eq_iff (normalize_project name) (normalize_project project)).1 same,
    parse_distribution,
  )

-- What the pattern `\d+\.[^-+]+` matches as a whole.
pub record IsNumeric (digits rest : Text) : Type 0 where
  pub numbered : is_digits digits ≡ true
  pub nonempty : is_nil rest ≡ false
  pub unsigned : all not_sign rest ≡ true

digits-run : (p : Text) → is_digits p ≡ true → (all is_digit p ≡ true) × (is_nil p ≡ false)
digits-run [] h = cc
digits-run (c ∷ p) h = ground arith

numeric_version-whole :
    (digits rest : Text)
    → IsNumeric digits rest
    → numeric_version (digits ++ b'.' ∷ rest) ≡ some (digits ++ b'.' ∷ rest, [])
unfolding numeric_version
numeric_version-whole digits rest h =
    let (run, some_digit) = digits-run digits h.numbered in
    rw (
      drop_while-run is_digit digits b'.' rest run refl,
      take_while-run is_digit digits b'.' rest run refl,
      take_while-all not_sign rest h.unsigned,
      drop_while-all not_sign rest h.unsigned,
      some_digit,
      h.nonempty,
      numeric_version,
    )

no_rocm :
    (public t : Text)
    → has_char b'r' public ≡ false
    → starts_with (codes "rocm") (public ++ (codes "+rocm" ++ t)) ≡ false
no_rocm [] t h = refl
no_rocm (c ∷ public) t h = ground arith

-- The local part `+rocm…` of a version gives its ROCm version.
pub search_rocm-local :
    (public digits rest : Text)
    → has_char b'r' public ≡ false
    → IsNumeric digits rest
    → search_rocm (public ++ (codes "+rocm" ++ (digits ++ b'.' ∷ rest)))
      ≡ some (digits ++ b'.' ∷ rest)
unfolding search_rocm
search_rocm-local [] digits rest h k = ground (arith, numeric_version-whole digits rest k)
search_rocm-local (c ∷ public) digits rest h k = ground (
  arith,
  search_rocm-local public digits rest (ground arith) k,
  no_rocm public (digits ++ b'.' ∷ rest) (ground arith),
)
