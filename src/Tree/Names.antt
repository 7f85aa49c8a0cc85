-- ===== src/Tree/Names.antt =====
-- `nix_string`, `input_name` and `input_url` of update-source-tree.py.
use nix_strix_halo.Prelude.{
  ℕ, ◌+◌, ◌-◌, ◌/◌, ◌%◌, Bool, true, false, ◌&&◌, ◌||◌, List, [], ◌∷◌, ◌++◌, if◌then◌else◌, ltb,
  leb, ◌==◌, take, length,
}
use mathlib.Core.List.{reverse}
use nix_strix_halo.Prelude.Text.{
  Text, codes, text_eq, is_digit, is_alpha, lower, replace, split, strip_by, ends_with, drop_last,
  drop_while,
}

-- The ASCII escapes of `json.dumps`.
unfoldable pub hex_digit : ℕ → ℕ
hex_digit n = if ltb n 10 then n + b'0' else n + 87

unfoldable pub unit_escape : ℕ → Text
unit_escape n =
    b'\\'
    ∷ b'u'
    ∷ hex_digit (n / 4096 % 16)
    ∷ hex_digit (n / 256 % 16)
    ∷ hex_digit (n / 16 % 16)
    ∷ hex_digit (n % 16)
    ∷ []

-- A code point beyond the first plane is written as two surrogates.
unfoldable pub unicode_escape : ℕ → Text
unicode_escape c =
    if ltb c 0x10000
    then unit_escape c
    else unit_escape (0xD800 + (c - 0x10000) / 0x400)
      ++ unit_escape (0xDC00 + (c - 0x10000) % 0x400)

unfoldable pub escape_char : ℕ → Text
escape_char c =
    if c == b'"'
    then b'\\' ∷ b'"' ∷ []
    else if c == b'\\'
    then b'\\' ∷ b'\\' ∷ []
    else if c == 10
    then b'\\' ∷ b'n' ∷ []
    else if c == 13
    then b'\\' ∷ b'r' ∷ []
    else if c == 9
    then b'\\' ∷ b't' ∷ []
    else if c == 8
    then b'\\' ∷ b'b' ∷ []
    else if c == 12
    then b'\\' ∷ b'f' ∷ []
    else if leb 32 c && leb c 126
    then c ∷ []
    else unicode_escape c

unfoldable pub escape : Text → Text
escape [] = []
escape (c ∷ s) = escape_char c ++ escape s

unfoldable pub nix_string : Text → Text
nix_string value = b'"' ∷ (escape value ++ b'"' ∷ [])

abbrev pub is_word_char : ℕ → Bool
is_word_char c = is_digit c || is_alpha c

-- re.sub(r"[^A-Za-z0-9]+", "-", path): `within` says that the character before is replaced too.
unfoldable pub slug_from : Bool → Text → Text
slug_from within [] = []
slug_from within (c ∷ s) =
    let kept = slug_from false s in
    let skipped = slug_from true s in
    if is_word_char c then c ∷ kept else if within then skipped else b'-' ∷ skipped

abbrev pub is_dash : ℕ → Bool
is_dash c = c == b'-'

-- s.rstrip("-")
abbrev pub rstrip_dash : Text → Text
rstrip_dash s = reverse (drop_while is_dash (reverse s))

abbrev pub shorten : Text → Text
shorten slug = if ltb 64 (length slug) then rstrip_dash (take 64 slug) else slug

-- `sha1` is hashlib.sha1(path.encode()).hexdigest().
unfoldable pub input_name : (Text → Text) → Text → Text → Text → Text
input_name sha1 series target [] =
    codes "therock-src-" ++ (replace b'.' b'-' series ++ (b'-' ∷ (target ++ codes "-root")))
input_name sha1 series target (c ∷ path) =
    let slug = lower (strip_by is_dash (slug_from false (c ∷ path))) in
    codes "therock-src-"
    ++ (replace b'.' b'-' series
        ++ (b'-' ∷ (target ++ (b'-' ∷ (shorten slug ++ (b'-' ∷ take 8 (sha1 (c ∷ path))))))))

-- urlparse(url), as far as the script looks into it
pub record Parsed : Type 0 where
  pub scheme : Text
  pub netloc : Text
  pub path : Text

abbrev pub is_slash : ℕ → Bool
is_slash c = c == b'/'

abbrev pub without_git : Text → Text
without_git path = if ends_with (codes ".git") path then drop_last 4 path else path

abbrev pub plain_url : Text → Text → Text
plain_url url rev = codes "git+" ++ (url ++ (codes "?rev=" ++ (rev ++ codes "&shallow=1")))

abbrev pub github_url : Text → Text → List Text → Text
github_url url rev (owner ∷ repo ∷ []) =
    codes "github:" ++ (owner ++ (b'/' ∷ (repo ++ (b'/' ∷ rev))))
github_url url rev _ = plain_url url rev

unfoldable pub input_url : (Text → Parsed) → Text → Text → Text
input_url urlparse url rev =
    let parsed = urlparse url in
    if (text_eq parsed.scheme (codes "http") || text_eq parsed.scheme (codes "https"))
      && text_eq parsed.netloc (codes "github.com")
    then github_url url rev (split b'/' (without_git (strip_by is_slash parsed.path)))
    else plain_url url rev
