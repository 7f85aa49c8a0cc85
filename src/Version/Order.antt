-- ===== src/Version/Order.antt =====
-- The comparison by `version_key` is a total preorder.
use nix_strix_halo.Prelude.{Ordering, ◌≡◌, refl}
use nix_strix_halo.Prelude.Order.{
  IsOrder, flip, compare-IsOrder, lex-IsOrder, by_key-IsOrder, pair-IsOrder,
}
use nix_strix_halo.Version.{
  Part, word, number, version_key, compare_part, compare_key, compare_version,
}

compare_part-IsOrder : IsOrder compare_part
unfolding compare_part
compare_part-IsOrder = record { reverse = reverse; tie = tie; lt_trans = lt_trans }
  where
    reverse : (a b : Part) → compare_part b a ≡ flip (compare_part a b)
    reverse (word s) (word t) = (lex-IsOrder compare-IsOrder).reverse s t
    reverse (word s) (number n) = refl
    reverse (number m) (word t) = refl
    reverse (number m) (number n) = compare-IsOrder.reverse m n

    tie : (a b c : Part) → compare_part a b ≡ Ordering.eq → compare_part a c ≡ compare_part b c
    tie (word s) (word t) (word u) h = (lex-IsOrder compare-IsOrder).tie s t u h
    tie (word s) (word t) (number n) h = refl
    tie (word s) (number n) c h = cc
    tie (number m) (word t) c h = cc
    tie (number m) (number n) (word t) h = refl
    tie (number m) (number n) (number k) h = compare-IsOrder.tie m n k h

    lt_trans :
        (a b c : Part)
        → compare_part a b ≡ Ordering.lt
        → compare_part b c ≡ Ordering.lt
        → compare_part a c ≡ Ordering.lt
    lt_trans (word s) (word t) (word u) h k = (lex-IsOrder compare-IsOrder).lt_trans s t u h k
    lt_trans (word s) b (number n) h k = refl
    lt_trans (word s) (number n) (word u) h k = cc
    lt_trans (number m) (word t) c h k = cc
    lt_trans (number m) (number n) (word t) h k = cc
    lt_trans (number m) (number n) (number l) h k = compare-IsOrder.lt_trans m n l h k

compare_key-IsOrder : IsOrder compare_key
unfolding compare_key
compare_key-IsOrder = pair-IsOrder (by_key-IsOrder (lex-IsOrder compare-IsOrder) (λ k. k.release)) (
    pair-IsOrder (by_key-IsOrder compare-IsOrder (λ k. k.final))
      (by_key-IsOrder (lex-IsOrder compare_part-IsOrder) (λ k. k.suffix)))

-- The order by version_key is a total preorder: comparing the other way round gives the flipped
-- result, and the order is transitive.
pub compare_version-IsOrder : IsOrder compare_version
unfolding compare_version
compare_version-IsOrder = by_key-IsOrder compare_key-IsOrder version_key
