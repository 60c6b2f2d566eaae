-- ===== src/Vary/Normalize/Order.antt =====
-- Values that list the same elements in another order.
use mathlib.Core.List.{Perm, foldr, is_set}
use mathlib.Core.List.Perm
use native.Mathlib.Nat.{ℕ_set}
use httpcache.Base.{
  ◌≡◌, refl, sym, ap, ◌∙◌, ◌↔◌, true, false, List, [], ◌∷◌, arith, All, Bool-cases, inl, inr,
}
use httpcache.Bytes.{Bytes, codes}
use httpcache.Text.{join}
use httpcache.Text.Csv.{trimmed_csv}
use httpcache.Text.Csv.Parts.{IsPart, trimmed_csv-join}
use httpcache.Vary.{str_lt}
use httpcache.Vary.Normalize.{insert, sort, normalize_order_insensitive}

str_lt_asymmetric : (s t : Bytes) → str_lt s t ≡ true → str_lt t s ≡ false
unfolding str_lt
str_lt_asymmetric s [] h = ground arith
str_lt_asymmetric [] (d ∷ t) h = refl
str_lt_asymmetric (c ∷ s) (d ∷ t) h = ground (arith, str_lt_asymmetric s t)

str_lt_total : (s t : Bytes) → str_lt s t ≡ false → str_lt t s ≡ false → s ≡ t
unfolding str_lt
str_lt_total [] [] h k = refl
str_lt_total (c ∷ s) [] h k = ground arith
str_lt_total [] (d ∷ t) h k = ground arith
str_lt_total (c ∷ s) (d ∷ t) h k = ground (arith, str_lt_total s t)

str_lt_trans : (s t u : Bytes) → str_lt s t ≡ true → str_lt t u ≡ true → str_lt s u ≡ true
unfolding str_lt
str_lt_trans s t [] h k = ground arith
str_lt_trans s [] (e ∷ u) h k = ground arith
str_lt_trans [] (d ∷ t) (e ∷ u) h k = refl
str_lt_trans (c ∷ s) (d ∷ t) (e ∷ u) h k = ground (arith, str_lt_trans s t u)

insert_comm : (s t : Bytes) (l : List Bytes) → insert s (insert t l) ≡ insert t (insert s l)
unfolding insert
insert_comm s t [] = ground (arith, str_lt_asymmetric s t, str_lt_total s t)
insert_comm s t (r ∷ l) = ground (
  arith,
  insert_comm s t l,
  str_lt_asymmetric s t,
  str_lt_total s t,
  str_lt_trans s t r,
  str_lt_trans t s r,
  str_lt_trans r s t,
  str_lt_trans r t s,
  str_lt_trans s r t,
  str_lt_trans t r s,
  str_lt_total r s,
  str_lt_total r t,
)

sort-foldr : (l : List Bytes) → sort l ≡ foldr insert [] l
unfolding sort
sort-foldr [] = refl
sort-foldr (s ∷ l) = ap (insert s) (sort-foldr l)

-- Sorting forgets the order.
pub sort_of_perm : (l r : List Bytes) → Perm l r → sort l ≡ sort r
sort_of_perm l r p =
    sort-foldr l
    ∙ Perm.foldr-eq (is_set (is_set ℕ_set)) insert insert_comm p []
    ∙ sym (sort-foldr r)

insert-perm : (s : Bytes) (l : List Bytes) → Perm (insert s l) (s ∷ l)
unfolding insert
insert-perm s [] = Perm.refl (s ∷ [])
insert-perm s (t ∷ l) = elim (Bool-cases (str_lt t s)) [
  | inl later ↦ rw later (Perm.trans (Perm.cons t (insert-perm s l)) (Perm.swap s t l))
  | inr first ↦ rw first (Perm.refl (s ∷ t ∷ l))
]

sort-perm : (l : List Bytes) → Perm (sort l) l
unfolding sort
sort-perm [] = Perm.refl []
sort-perm (s ∷ l) = Perm.trans (insert-perm s (sort l)) (Perm.cons s (sort-perm l))

insert-AllParts : (s : Bytes) (l : List Bytes) → IsPart s → All IsPart l → All IsPart (insert s l)
unfolding insert
insert-AllParts s [] h k = (h, k)
insert-AllParts s (t ∷ l) h (p, k) = elim (Bool-cases (str_lt t s)) [
  | inl later ↦ rw later (p, insert-AllParts s l h k)
  | inr first ↦ rw first (h, (p, k))
]

sort-AllParts : (l : List Bytes) → All IsPart l → All IsPart (sort l)
unfolding sort
sort-AllParts [] h = h
sort-AllParts (s ∷ l) (h, k) = insert-AllParts s (sort l) h (sort-AllParts l k)

trimmed_csv-normalize :
    (a : Bytes)
    → All IsPart (trimmed_csv a)
    → trimmed_csv (normalize_order_insensitive a) ≡ sort (trimmed_csv a)
unfolding normalize_order_insensitive
trimmed_csv-normalize a h =
    trimmed_csv-join (sort (trimmed_csv a)) (sort-AllParts (trimmed_csv a) h)

-- Two values of an order-insensitive field, whose elements close their quotes, get the same text
-- exactly if they list the same elements, however often each, in any order.
pub normalize_order_insensitive_iff :
    (a b : Bytes)
    → All IsPart (trimmed_csv a)
    → All IsPart (trimmed_csv b)
    → (normalize_order_insensitive a ≡ normalize_order_insensitive b)
      ↔ Perm (trimmed_csv a) (trimmed_csv b)
normalize_order_insensitive_iff a b h k = (
  λ e.
      let sorted : sort (trimmed_csv a) ≡ sort (trimmed_csv b) =
        sym (trimmed_csv-normalize a h) ∙ ap trimmed_csv e ∙ trimmed_csv-normalize b k in
      let shared : Perm (sort (trimmed_csv a)) (trimmed_csv b) =
        rw sorted (sort-perm (trimmed_csv b)) in
      Perm.trans (Perm.symm (sort-perm (trimmed_csv a))) shared,
  λ p.
      unfold normalize_order_insensitive in
      ap (join (codes ",")) (sort_of_perm (trimmed_csv a) (trimmed_csv b) p),
)
