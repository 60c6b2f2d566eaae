-- ===== src/Vary.antt =====
-- internal/varymatcher.go, and normalizedVaryHeader and makeVaryKey of internal/normalization.go.
-- Normalising a field's value is a parameter here; it is modelled in Normalize.
pub mod Match
pub mod Normalize
pub mod Order
use httpcache.Base.{
  ℕ, zero, suc, ◌+◌, ◌*◌, ◌%◌, ◌^◌, Bool, true, false, not, ◌||◌, ◌&&◌, List, [], ◌∷◌, ◌++◌, Option,
  none, some, ltb, leb, ◌==◌, if◌then◌else◌,
}
use httpcache.Base.Int.{ltb_ℤ}
use httpcache.Bytes.{Bytes, codes, str_eq}
use httpcache.Dict
use httpcache.Dict.{Dict}
use httpcache.Entry.{ResponseRef, ResponseRefs}
use httpcache.Http
use httpcache.Http.{Header, Request}
use httpcache.Message.{trimmed_csv_canonical}
use httpcache.Text.{trim_space}
use httpcache.Text.Decimal.{decimal}
use Prim.Native.Nat.{bit_xor}

-- The comparison of VaryHeadersMatch: does `a` come before `b`?
unfoldable pub preferred : ResponseRef → ResponseRef → Bool
preferred a b =
    let a_vary = trim_space a.vary in
    let b_vary = trim_space b.vary in
    let a_star = str_eq a_vary (codes "*") in
    let b_star = str_eq b_vary (codes "*") in
    let a_has = not (str_eq a_vary []) in
    let b_has = not (str_eq b_vary []) in
    if a_star && not b_star
    then false
    else if b_star && not a_star
    then true
    else if a_has && not b_has
    then true
    else if not a_has && b_has
    then false
    else ltb_ℤ a.received_at b.received_at

-- slices.SortFunc, as an insertion sort
unfoldable pub insert_ref : ResponseRef → ResponseRefs → ResponseRefs
insert_ref r [] = r ∷ []
insert_ref r (q ∷ qs) = if preferred r q then r ∷ q ∷ qs else q ∷ insert_ref r qs

unfoldable pub sort_onto : ResponseRefs → ResponseRefs → ResponseRefs
sort_onto sorted [] = sorted
sort_onto sorted (r ∷ refs) = sort_onto (insert_ref r sorted) refs

unfoldable pub sort_refs : ResponseRefs → ResponseRefs
sort_refs refs = sort_onto [] refs

module _ (normalize : Bytes → Bytes → Bytes) where
  abbrev normalize_first : Bytes → List Bytes → Bytes
  normalize_first field [] = []
  normalize_first field (v ∷ vs) = normalize field v

  -- The value that a request gives for a field: the first line, normalised.
  unfoldable pub request_value : Bytes → Header → Bytes
  request_value field h = normalize_first field (Http.raw_values field h)

  unfoldable pub fields_match : Dict Bytes → Header → Bool
  fields_match [] h = true
  fields_match ((field, value) ∷ resolved) h =
      if not (str_eq (request_value field h) value) then false else fields_match resolved h

  -- varyHeadersMatchOne
  unfoldable pub vary_headers_match_one : ResponseRef → Header → Bool
  vary_headers_match_one entry h =
      if str_eq entry.vary (codes "*") then false else fields_match entry.vary_resolved h

  abbrev next_index : Option ℕ → Option ℕ
  next_index none = none
  next_index (some i) = some (suc i)

  unfoldable pub first_match : ResponseRefs → Header → Option ℕ
  first_match [] h = none
  first_match (r ∷ refs) h =
      if vary_headers_match_one r h then some zero else next_index (first_match refs h)

  -- VaryHeadersMatch: the references, sorted in place, and the index of the first match
  unfoldable pub vary_headers_match : ResponseRefs → Header → ResponseRefs × Option ℕ
  vary_headers_match refs h = let sorted = sort_refs refs in (sorted, first_match sorted h)

  -- maps.Collect of the pairs that normalizedVaryHeader yields
  unfoldable pub resolve_fields : List Bytes → Header → Dict Bytes → Dict Bytes
  resolve_fields [] h d = d
  resolve_fields (name ∷ names) h d =
      resolve_fields names h (Dict.put name (request_value name h) d)

  unfoldable pub normalized_vary_header : Bytes → Header → Dict Bytes
  normalized_vary_header vary h = resolve_fields (trimmed_csv_canonical vary) h []

-- The FNV-1a hash of hash/fnv, on 64 bits.
unfoldable pub fnv_write : ℕ → Bytes → ℕ
fnv_write h [] = h
fnv_write h (b ∷ s) = fnv_write (bit_xor h b * 1099511628211 % 2 ^ 64) s

-- Go's order on strings.
unfoldable pub str_lt : Bytes → Bytes → Bool
str_lt s [] = false
str_lt [] (d ∷ t) = true
str_lt (c ∷ s) (d ∷ t) = if c == d then str_lt s t else ltb c d

abbrev insert_key : (Bytes × Bytes) → Dict Bytes → Dict Bytes
insert_key (k, v) [] = (k, v) ∷ []
insert_key (k, v) ((j, w) ∷ rest) =
    if str_lt k j then (k, v) ∷ (j, w) ∷ rest else (j, w) ∷ insert_key (k, v) rest

-- The pairs of a map in the order of its keys.
unfoldable pub sort_keys : Dict Bytes → Dict Bytes
sort_keys [] = []
sort_keys (p ∷ d) = insert_key p (sort_keys d)

unfoldable pub hash_pairs : ℕ → Dict Bytes → ℕ
hash_pairs h [] = h
hash_pairs h ((k, v) ∷ d) = hash_pairs (fnv_write (fnv_write h k) v) d

-- makeVaryHash
unfoldable pub make_vary_hash : Dict Bytes → ℕ
make_vary_hash vary = hash_pairs 14695981039346656037 (sort_keys vary)

-- makeVaryKey
unfoldable pub make_vary_key : Bytes → Dict Bytes → Bytes
make_vary_key url_key [] = url_key ++ codes "#0"
make_vary_key url_key (p ∷ d) = url_key ++ codes "#" ++ decimal 20 (make_vary_hash (p ∷ d))
