-- ===== src/ThirdParty/Archives.antt =====
-- What scan_archives of update-rocm-third-party.py records.
use mathlib.Core.Option.{some-injective}
use nix_strix_halo.Prelude.{
  ◌≡◌, ◌⊎◌, refl, sym, subst, ap, ◌∙◌, Bool, true, false, ◌&&◌, ◌||◌, not, Option, none, some, List,
  [], ◌∷◌, ◌++◌, All, if◌then◌else◌, Bool-cases, Option-cases, inl, inr, take, drop, length,
}
use nix_strix_halo.Prelude.Text.{
  Text, codes, text_eq, text_eq_iff, starts_with, starts_with-split, starts_with-append, lower,
  strip, take_while, drop_while, is_space,
}
use nix_strix_halo.Prelude.Dict.{Dict, put}
use nix_strix_halo.Wheels.Filename.{file_name, is_nil}
use nix_strix_halo.Tree.Git.{splitlines}
use nix_strix_halo.ThirdParty.{
  World, Archive, sri, Scan, add_archive, take_hash, scan_line, scan_lines, scan_archives,
  digest_in, is_hex, hash_of, url_of, cmake_vars,
}

-- The archive has a name, an address and a hash that belong together.
pub record IsPinned (entry : Text × Archive) : Type 0 where
  pub named : entry.0 ≡ file_name entry.1.url
  pub secure : starts_with (codes "https://") entry.1.url ≡ true
  pub hashed :
      (starts_with (codes "sha256-") entry.1.hash ≡ true)
      ⊎ (starts_with (codes "sha512-") entry.1.hash ≡ true)

put-All :
    (P : Text × Archive → Type 0) (k : Text) (v : Archive) (d : Dict Archive)
    → P (k, v)
    → All P d
    → All P (put k v d)
unfolding put
put-All P k v [] p h = (p, tt)
put-All P k v ((j, w) ∷ d) p (hj, h) = elim (Bool-cases (text_eq j k)) [
  | inl e ↦ let same : j ≡ k = (text_eq_iff j k).0 e in rw e (subst (λ i. P (i, v)) (sym same) p, h)
  | inr e ↦ rw e (hj, put-All P k v d p h)
]

-- The names of the two algorithms.
abbrev IsAlgorithm : Text → Type 0
IsAlgorithm algo = (algo ≡ codes "sha256") ⊎ (algo ≡ codes "sha512")

lower_of_prefix :
    (name : Text) (s : Text)
    → length name ≡ 6
    → starts_with (name ++ codes "=") s ≡ true
    → take 6 s ≡ take 6 ((name ++ codes "=") ++ drop (length (name ++ codes "=")) s)
lower_of_prefix name s n h = ap (take 6) (starts_with-split (name ++ codes "=") s h)

guarded : {A : Type 0} {x y : A} (b : Bool) → (if b then some x else none) ≡ some y → x ≡ y
guarded true h = cc
guarded false h = cc

digest_in-IsAlgorithm :
    (s algo digest : Text) → digest_in s ≡ some (algo, digest) → IsAlgorithm algo
digest_in-IsAlgorithm s algo digest h = elim (Bool-cases (starts_with (codes "SHA256=") s)) [
  | inl e ↦ let six = lower_of_prefix (codes "SHA256") s refl e in inl (sym named ∙ ap lower six)
  | inr e ↦ elim (Bool-cases (starts_with (codes "SHA512=") s)) [
    | inl f ↦ let six = lower_of_prefix (codes "SHA512") s refl f in inr (sym named ∙ ap lower six)
    | inr f ↦ let q = rw (e, f) at h in cc
  ]
]
  where
    named : lower (take 6 s) ≡ algo
    named =
        ap (λ p. p.0)
          (guarded
            ((starts_with (codes "SHA256=") s || starts_with (codes "SHA512=") s)
              && not (is_nil (take_while is_hex (drop 7 s))))
            h)

hash_of-IsAlgorithm :
    (line algo digest : Text) → hash_of line ≡ some (algo, digest) → IsAlgorithm algo
unfolding hash_of
hash_of-IsAlgorithm line algo digest h =
    let value = drop_while is_space (drop 8 line) in
    digest_in-IsAlgorithm (if starts_with (codes "\"") value then drop 1 value else value) algo
      digest
      (within
        (starts_with (codes "URL_HASH") line && not (is_nil (take_while is_space (drop 8 line)))) h)
  where
    within :
        {o : Option (Text × Text)} (b : Bool)
        → (if b then o else none) ≡ some (algo, digest)
        → o ≡ some (algo, digest)
    within true h = h
    within false h = cc

module _ (world : World) where
  IsScanned : Scan world → Type 0
  IsScanned scan = All IsPinned scan.archives

  sri-prefix :
      (algo digest hash : Text)
      → IsAlgorithm algo
      → sri world algo digest ≡ some hash
      → (starts_with (codes "sha256-") hash ≡ true) ⊎ (starts_with (codes "sha512-") hash ≡ true)
  unfolding sri
  sri-prefix algo digest hash a h = elim (Option-cases (world.base64_of_hex digest)) [
    | inl none_left ↦ let q = rw (none_left, sri) at h in cc
    | inr (d, e) ↦
        let made : lower algo ++ b'-' ∷ d ≡ hash = let q = rw (e, sri) at h in cc in
        elim a [
          | inl k ↦ inl (
              subst (λ t. starts_with (codes "sha256-") t ≡ true)
                (ap (λ t. lower t ++ b'-' ∷ d) (sym k) ∙ made)
                (starts_with-append (codes "sha256-") d))
          | inr k ↦ inr (
              subst (λ t. starts_with (codes "sha512-") t ≡ true)
                (ap (λ t. lower t ++ b'-' ∷ d) (sym k) ∙ made)
                (starts_with-append (codes "sha512-") d))
        ]
  ]

  add_archive-IsScanned :
      (url : Text) (hash : Option Text) (scan next : Scan world)
      → starts_with (codes "https://") url ≡ true
      → ((t : Text)
          → hash ≡ some t
          → (starts_with (codes "sha256-") t ≡ true) ⊎ (starts_with (codes "sha512-") t ≡ true))
      → add_archive world url hash scan ≡ some next
      → IsScanned scan
      → IsScanned next
  unfolding IsScanned
  add_archive-IsScanned url none scan next secure hashed h ok = cc
  add_archive-IsScanned url (some t) scan next secure hashed h ok =
      let entry : IsPinned (file_name url, record { url = url; hash = t }) = record {
        named = refl;
        secure = secure;
        hashed = hashed t refl;
      } in
      subst (λ n. All IsPinned n.archives) (some-injective _ _ h)
        (put-All IsPinned (file_name url) (record { url = url; hash = t }) scan.archives entry ok)

  take_hash-IsScanned :
      (o : Option (Text × Text)) (u : Option Text) (scan next : Scan world)
      → ((algo digest : Text) → o ≡ some (algo, digest) → IsAlgorithm algo)
      → take_hash world o u scan ≡ some next
      → IsScanned scan
      → IsScanned next
  unfolding IsScanned
  take_hash-IsScanned none u scan next a h ok = subst IsScanned (some-injective _ _ h) ok
  take_hash-IsScanned (some (algo, digest)) none scan next a h ok =
      subst IsScanned (some-injective _ _ h) ok
  take_hash-IsScanned (some (algo, digest)) (some url) scan next a h ok =
      elim (Bool-cases (starts_with (codes "https://") url)) [
        | inl e ↦
            add_archive-IsScanned url (sri world algo digest) scan next e
              (λ t k. sri-prefix algo digest t (a algo digest refl) k) (rw e at h) ok
        | inr e ↦ subst IsScanned (some-injective _ _ (rw e at h)) ok
      ]

  scan_line-IsScanned :
      (vars : Dict Text) (line : Text) (scan next : Scan world)
      → scan_line world vars line scan ≡ some next
      → IsScanned scan
      → IsScanned next
  unfolding scan_line IsScanned
  scan_line-IsScanned vars line scan next h ok =
      elim (Bool-cases (is_nil line || starts_with (codes "#") line)) [
        | inl e ↦ subst IsScanned (some-injective _ _ (rw (e, scan_line) at h)) ok
        | inr e ↦ elim (Option-cases (url_of line)) [
          | inr (url, f) ↦
              subst (λ n. All IsPinned n.archives) (some-injective _ _ (rw (e, f, scan_line) at h))
                ok
          | inl f ↦
              take_hash-IsScanned (hash_of line) scan.pending_url scan next
                (hash_of-IsAlgorithm line) (rw (e, f, scan_line) at h) ok
        ]
      ]

  scan_lines-IsScanned :
      (vars : Dict Text) (lines : List Text) (scan next : Scan world)
      → scan_lines world vars lines scan ≡ some next
      → IsScanned scan
      → IsScanned next
  unfolding scan_lines
  scan_lines-IsScanned vars [] scan next h ok = subst IsScanned (some-injective _ _ h) ok
  scan_lines-IsScanned vars (line ∷ lines) scan next h ok =
      elim (Option-cases (scan_line world vars (strip line) scan)) [
        | inl e ↦ let q = rw (e, scan_lines) at h in cc
        | inr (middle, e) ↦
            scan_lines-IsScanned vars lines middle next (rw (e, scan_lines) at h)
              (scan_line-IsScanned vars (strip line) scan middle e ok)
      ]

  -- If every archive of the dictionary so far has an address under https, the file name of that
  -- address as its key and a hash of SHA-256 or SHA-512, then so has every archive that
  -- scan_archives returns.
  pub scan_archives-IsPinned :
      (contents : List Text) (before archives : Dict Archive)
      → scan_archives world contents before ≡ some archives
      → All IsPinned before
      → All IsPinned archives
  unfolding scan_archives IsScanned
  scan_archives-IsPinned [] before archives h ok = subst (All IsPinned) (some-injective _ _ h) ok
  scan_archives-IsPinned (content ∷ contents) before archives h ok =
      elim (Option-cases (
        scan_lines world (cmake_vars content) (splitlines content)
          (record { pending_url = none; archives = before }))) [
            | inl e ↦ let q = rw (e, scan_archives) at h in cc
            | inr (scan, e) ↦
                scan_archives-IsPinned contents scan.archives archives (rw (e, scan_archives) at h)
                  (scan_lines-IsScanned (cmake_vars content) (splitlines content)
                    (record { pending_url = none; archives = before }) scan e ok)
          ]
