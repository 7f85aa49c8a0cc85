-- ===== src/Tests/ThirdParty.antt =====
-- A CMake file with one archive, and the hash of a source with a new revision.
use nix_strix_halo.Prelude.{◌≡◌, refl, true, none, some, [], ◌∷◌, ◌++◌, All}
use nix_strix_halo.Prelude.Text.{Text, codes, rpartition}
use nix_strix_halo.Prelude.Dict.{Dict, get, put}
use nix_strix_halo.Wheels.Filename.{file_name}
use nix_strix_halo.Tree.Git.{splitlines}
use nix_strix_halo.ThirdParty.{
  World, scan_archives, scan_lines, scan_line, cmake_vars, vars_from, set_at, quoted_at, expand,
  substitute, url_of, hash_of, sri,
}
use nix_strix_halo.ThirdParty.Archives.{IsPinned, scan_archives-IsPinned}
use nix_strix_halo.ThirdParty.Reuse.{Source, source_hash}

abbrev world : World
world = record {
  base64_of_hex = λ digest. some (codes "b64");
  ls_remote = λ url ref. [];
  prefetch_git = λ url rev. some (codes "sha256-new");
  prefetch_unpacked = λ url. none;
}

abbrev cmake : Text
cmake =
    codes "set(V \"1.2\")"
    ++ 10 ∷ (codes "  URL \"https://x.org/a-${V}.tar.gz\"" ++ 10 ∷ codes "  URL_HASH SHA256=ab12")

scan_archives_test :
    scan_archives world (cmake ∷ []) []
    ≡ some (
        (
          codes "a-1.2.tar.gz",
          record { url = codes "https://x.org/a-1.2.tar.gz"; hash = codes "sha256-b64" },
        )
        ∷ [])
unfolding scan_archives scan_lines splitlines scan_line url_of hash_of expand substitute sri put
    file_name get rpartition cmake_vars vars_from set_at quoted_at
scan_archives_test = refl

scan_archives-IsPinned_example : All IsPinned (
    (
      codes "a-1.2.tar.gz",
      record { url = codes "https://x.org/a-1.2.tar.gz"; hash = codes "sha256-b64" },
    )
    ∷ [])
scan_archives-IsPinned_example =
    scan_archives-IsPinned world (cmake ∷ []) []
      ((
        codes "a-1.2.tar.gz",
        record { url = codes "https://x.org/a-1.2.tar.gz"; hash = codes "sha256-b64" },
      )
        ∷ [])
      scan_archives_test tt

-- A trailing slash and single dots are no part of a file name.
file_name_test :
    (file_name (codes "https://x.org/a.zip/") ≡ codes "a.zip")
    × (file_name (codes "https://x.org/a.zip/./") ≡ codes "a.zip")
unfolding file_name
file_name_test = (refl, refl)

abbrev source : Source
source = record { url = codes "u"; rev = codes "new" }

abbrev previous : Dict Text
previous =
    (codes "url", codes "u") ∷ (codes "rev", codes "old") ∷ (codes "hash", codes "sha256-old") ∷ []

-- A new revision gets a hash of its own, and the same one keeps the old hash.
source_hash_test :
    (source_hash world source previous true ≡ some (codes "sha256-new"))
    × (source_hash world (record source { rev = codes "old" }) previous true
        ≡ some (codes "sha256-old"))
unfolding source_hash get
source_hash_test = (refl, refl)
