-- ===== src/Vary/Order.antt =====
-- The order in which references are tried, and what VaryHeadersMatch returns.
use mathlib.Core.List.Perm
use mathlib.Core.List.{Perm, perm_middle}
use httpcache.Base.{
  ℕ, ◌≡◌, refl, ◌⊎◌, inl, inr, Bool, true, false, ◌&&◌, [], ◌∷◌, ◌++◌, Option, none, some, arith,
  append-nil, All, ltb, ◌==◌, ◌||◌, ◌<◌, if◌then◌else◌, Bool-cases,
}
use httpcache.Base.Int.{ltb_ℤ, ◌≤ℤ◌}
use httpcache.Bytes.{Bytes, codes, str_eq}
use httpcache.Entry.{ResponseRef, ResponseRefs}
use httpcache.Http.{Header}
use httpcache.Text.{trim_space}
use httpcache.Vary.{
  preferred, insert_ref, sort_onto, sort_refs, vary_headers_match_one, first_match,
  vary_headers_match, next_index,
}
use httpcache.Vary.Match.{IsFirst}

star_ne_empty : (v : Bytes) → str_eq v (codes "*") ≡ true → str_eq v [] ≡ false
unfolding str_eq
star_ne_empty [] h = cc
star_ne_empty (c ∷ v) h = refl

-- The rank of a reference: 0 with fields in Vary, 1 without, 2 with `*`.
abbrev pub rank : ResponseRef → ℕ
rank r =
    if str_eq (trim_space r.vary) (codes "*")
    then 2
    else if str_eq (trim_space r.vary) []
    then 1
    else 0

-- The order: by rank, and by age within a rank.
abbrev earlier : ResponseRef → ResponseRef → Bool
earlier a b = ltb (rank a) (rank b) || (rank a == rank b && ltb_ℤ a.received_at b.received_at)

preferred_lem : (a b : ResponseRef) → preferred a b ≡ earlier a b
unfolding preferred
preferred_lem a b =
    ground (arith, star_ne_empty (trim_space a.vary), star_ne_empty (trim_space b.vary))

-- `a` may stand before `b`.
abbrev pub MayPrecede : ResponseRef → ResponseRef → Type 0
MayPrecede a b = (rank a < rank b) ⊎ ((rank a ≡ rank b) × (a.received_at ≤ℤ b.received_at))

abbrev pub IsSorted : ResponseRefs → Type 0
IsSorted [] = Unit {0}
IsSorted (r ∷ refs) = All (MayPrecede r) refs × IsSorted refs

precedes_of_preferred : (a b : ResponseRef) → preferred a b ≡ true → MayPrecede a b
precedes_of_preferred a b h = ground (arith, preferred_lem a b)

precedes_of_not : (a b : ResponseRef) → preferred a b ≡ false → MayPrecede b a
precedes_of_not a b h = ground (arith, preferred_lem a b)

precede_trans : (a b c : ResponseRef) → MayPrecede a b → MayPrecede b c → MayPrecede a c
precede_trans a b c h k = omega arith

All-trans :
    (a b : ResponseRef) (refs : ResponseRefs)
    → MayPrecede a b
    → All (MayPrecede b) refs
    → All (MayPrecede a) refs
All-trans a b [] h k = tt
All-trans a b (c ∷ refs) h (k, ks) = (precede_trans a b c h k, All-trans a b refs h ks)

All-insert :
    (a r : ResponseRef) (refs : ResponseRefs)
    → MayPrecede a r
    → All (MayPrecede a) refs
    → All (MayPrecede a) (insert_ref r refs)
unfolding insert_ref
All-insert a r [] h k = (h, tt)
All-insert a r (q ∷ qs) h (k, ks) = elim (Bool-cases (preferred r q)) [
  | inl first ↦ rw first (h, (k, ks))
  | inr later ↦ rw later (k, All-insert a r qs h ks)
]

insert_ref-IsSorted :
    (r : ResponseRef) (refs : ResponseRefs) → IsSorted refs → IsSorted (insert_ref r refs)
unfolding insert_ref
insert_ref-IsSorted r [] s = (tt, tt)
insert_ref-IsSorted r (q ∷ qs) (k, s) = elim (Bool-cases (preferred r q)) [
  | inl first ↦
      let h = precedes_of_preferred r q first in rw first ((h, All-trans r q qs h k), (k, s))
  | inr later ↦
      rw later (All-insert q r qs (precedes_of_not r q later) k, insert_ref-IsSorted r qs s)
]

sort_onto-IsSorted :
    (sorted refs : ResponseRefs) → IsSorted sorted → IsSorted (sort_onto sorted refs)
unfolding sort_onto
sort_onto-IsSorted sorted [] s = s
sort_onto-IsSorted sorted (r ∷ refs) s =
    sort_onto-IsSorted (insert_ref r sorted) refs (insert_ref-IsSorted r sorted s)

insert_ref-perm : (r : ResponseRef) (refs : ResponseRefs) → Perm (insert_ref r refs) (r ∷ refs)
unfolding insert_ref
insert_ref-perm r [] = Perm.refl (r ∷ [])
insert_ref-perm r (q ∷ qs) = elim (Bool-cases (preferred r q)) [
  | inl first ↦ rw first (Perm.refl (r ∷ q ∷ qs))
  | inr later ↦ rw later (Perm.trans (Perm.cons q (insert_ref-perm r qs)) (Perm.swap r q qs))
]

sort_onto-perm : (sorted refs : ResponseRefs) → Perm (sort_onto sorted refs) (sorted ++ refs)
unfolding sort_onto
sort_onto-perm sorted [] = rw (append-nil sorted) (Perm.refl sorted)
sort_onto-perm sorted (r ∷ refs) = Perm.trans (sort_onto-perm (insert_ref r sorted) refs) (
    Perm.trans (Perm.append (insert_ref-perm r sorted) (Perm.refl refs))
      (Perm.symm (perm_middle sorted refs)))

module _ (normalize : Bytes → Bytes → Bytes) (h : Header) where
  IsFirst-next :
      (r : ResponseRef) (refs : ResponseRefs) (i : Option ℕ)
      → vary_headers_match_one normalize r h ≡ false
      → IsFirst normalize h refs i
      → IsFirst normalize h (r ∷ refs) (next_index normalize i)
  IsFirst-next r refs none e f = (e, f)
  IsFirst-next r [] (some i) e f = absurd f
  IsFirst-next r (q ∷ refs) (some i) e f = (e, f)

  first_match-IsFirst :
      (refs : ResponseRefs) → IsFirst normalize h refs (first_match normalize refs h)
  unfolding first_match
  first_match-IsFirst [] = tt
  first_match-IsFirst (r ∷ refs) = elim (Bool-cases (vary_headers_match_one normalize r h)) [
    | inl match ↦ rw match match
    | inr other ↦ rw other (IsFirst-next r refs _ other (first_match-IsFirst refs))
  ]

  -- The references come back rearranged, those with fields in Vary before those without and those
  -- with `*` last, older before newer within a rank; and the index is that of the first of them
  -- that matches the request, or none if no reference matches.
  pub vary_headers_match_lem :
      (refs : ResponseRefs)
      → let (sorted, found) = vary_headers_match normalize refs h in
        Perm sorted refs × IsSorted sorted × IsFirst normalize h sorted found
  unfolding vary_headers_match sort_refs
  vary_headers_match_lem refs = (
    sort_onto-perm [] refs,
    sort_onto-IsSorted [] refs tt,
    first_match-IsFirst (sort_onto [] refs),
  )
