-- ===== src/Wheels/Filename.antt =====
-- `parse_distribution` and `list_distributions` of update-python-wheels.py.
pub mod RoundTrip
use nix_strix_halo.Prelude.{
  ℕ, zero, suc, ◌+◌, ◌-◌, Bool, true, false, ◌&&◌, ◌||◌, not, Option, none, some, List, [], ◌∷◌,
  ◌++◌, if◌then◌else◌, ◌==◌, length, drop,
}
use nix_strix_halo.Prelude.Text.{
  Text, codes, text_eq, starts_with, ends_with, is_digit, take_while, drop_while, has_char, split,
  rpartition, rsplit, drop_last, Partition,
}
use nix_strix_halo.Wheels.{Distribution, Kind, wheel, sdist, normalize_project}

-- The functions of `urllib.parse` that the script calls: `urlsplit(href).path`, `unquote` and
-- `urljoin`.
pub record Urls : Type 0 where
  pub path : Text → Text
  pub unquote : Text → Text
  pub join : Text → Text → Text

abbrev pub is_nil : Text → Bool
is_nil [] = true
is_nil (c ∷ s) = false

-- A component that a path keeps: empty ones and single dots are dropped.
abbrev pub is_kept : Text → Bool
is_kept part = not (is_nil part) && not (text_eq part (codes "."))

abbrev pub last_kept : List Text → Text
last_kept [] = []
last_kept (part ∷ parts) =
    let later = last_kept parts in if is_nil later then if is_kept part then part else [] else later

-- Path(path).name: the last component, also before a trailing slash.
unfoldable pub file_name : Text → Text
file_name path = last_kept (split b'/' path)

abbrev pub not_sign : ℕ → Bool
not_sign c = not (c == b'-') && not (c == b'+')

-- (\d+\.[^-+]+), greedily from the start: what is matched and what follows.
unfoldable pub numeric_version : Text → Option (Text × Text)
numeric_version s =
    let digits = take_while is_digit s in
    elim (drop_while is_digit s) [
      | [] ↦ none
      | c ∷ u ↦
          let v = take_while not_sign u in
          if is_nil digits || (not (c == b'.') || is_nil v)
          then none
          else some (digits ++ b'.' ∷ v, drop_while not_sign u)
    ]

abbrev fst_of : Option (Text × Text) → Option Text
fst_of none = none
fst_of (some (v, rest)) = some v

-- re.search(r"(?:\+|\.|-)rocm(\d+\.[^-+]+)", version): the leftmost match.
unfoldable pub search_rocm : Text → Option Text
search_rocm [] = none
search_rocm (c ∷ s) =
    let later = search_rocm s in
    let here =
      if (c == b'+' || (c == b'.' || c == b'-')) && starts_with (codes "rocm") s
      then fst_of (numeric_version (drop 4 s))
      else none in
    elim here [ none ↦ later | some v ↦ some v ]

-- re.search(r"^(\d+\.[^-+]+)$", version)
unfoldable pub plain_rocm : Text → Option Text
plain_rocm s = elim (numeric_version s) [
  | none ↦ none
  | some (v, rest) ↦ if is_nil rest then some v else none
]

unfoldable pub rocm_version_of : Text → Text → Option Text
rocm_version_of project package_version = elim (search_rocm package_version) [
  | some v ↦ some v
  | none ↦
      if starts_with (codes "rocm-sdk") project || text_eq project (codes "rocm")
      then plain_rocm package_version
      else none
]

-- The fields of a file name before the ROCm version is looked for.
pub record Parts : Type 0 where
  pub raw_name : Text
  pub package_version : Text
  pub python_tag : Text
  pub abi_tag : Text
  pub platform_tag : Text
  pub kind : Kind

-- `len(parts) != 5` gives none.
abbrev pub wheel_of : List Text → Option Parts
wheel_of (n ∷ v ∷ py ∷ abi ∷ plat ∷ []) = some (record {
  raw_name = n;
  package_version = v;
  python_tag = py;
  abi_tag = abi;
  platform_tag = plat;
  kind = wheel;
})
wheel_of _ = none

abbrev pub sdist_of : Partition → Option Parts
sdist_of p =
    if p.found
    then some (record {
      raw_name = p.head;
      package_version = p.tail;
      python_tag = codes "source";
      abi_tag = codes "source";
      platform_tag = codes "source";
      kind = sdist;
    })
    else none

unfoldable pub file_parts : Text → Option Parts
file_parts unquoted_path =
    let filename = file_name unquoted_path in
    if ends_with (codes ".whl") unquoted_path
    then wheel_of (rsplit b'-' 4 (drop_last 4 filename))
    else if ends_with (codes ".tar.gz") unquoted_path
    then sdist_of (rpartition b'-' (drop_last 7 filename))
    else none

-- re.findall(r'href="([^"]+)"', text): `skip` characters belong to the last match.
unfoldable pub hrefs : ℕ → Text → List Text
hrefs skip [] = []
hrefs (suc skip) (c ∷ s) = hrefs skip s
hrefs zero (c ∷ s) =
    let value = take_while (λ d. not (d == b'"')) (drop 6 (c ∷ s)) in
    let matches =
      starts_with (codes "href=\"") (c ∷ s)
      && (not (is_nil value) && has_char b'"' (drop 6 (c ∷ s))) in
    let rest = hrefs (if matches then 6 + length value else 0) s in
    if matches then value ∷ rest else rest

module _ (urls : Urls) where
  unfoldable pub parse_distribution : Text → Text → Text → Option Distribution
  parse_distribution project href index_url =
      let unquoted_path = urls.unquote (urls.path href) in
      elim (file_parts unquoted_path) [
        | none ↦ none
        | some parts ↦
            if not (text_eq (normalize_project parts.raw_name) (normalize_project project))
            then none
            else some (record {
              project = project;
              filename = file_name unquoted_path;
              url = urls.join index_url href;
              package_version = parts.package_version;
              rocm_version = rocm_version_of project parts.package_version;
              python_tag = parts.python_tag;
              abi_tag = parts.abi_tag;
              platform_tag = parts.platform_tag;
              kind = parts.kind;
            })
      ]

  abbrev parse_all : Text → Text → List Text → List Distribution
  parse_all project index_url [] = []
  parse_all project index_url (href ∷ rest) = elim (parse_distribution project href index_url) [
    | none ↦ parse_all project index_url rest
    | some dist ↦ dist ∷ parse_all project index_url rest
  ]

  -- `index_url` and `text` are the page's address and what `fetch_index` returned for it.
  unfoldable pub list_distributions : Text → Text → Text → List Distribution
  list_distributions project index_url text = parse_all project index_url (hrefs 0 text)
