-- ===== src/Vary/Normalize.antt =====
-- internal/normalization.go: values whose elements have no order, and content codings.
pub mod Order
pub mod Quality
pub mod Fields
use httpcache.Base.{
  ℕ, zero, suc, ◌+◌, Bool, true, false, not, ◌&&◌, ◌||◌, List, [], ◌∷◌, ◌++◌, map, Option, none,
  some, ◌==◌, ltb, leb, length, take, drop, if◌then◌else◌,
}
use httpcache.Bytes.{Bytes, codes, str_eq}
use httpcache.Message.{contains}
use httpcache.Origin.{to_lower, equal_fold}
use httpcache.Text.{cut, join, trim_space, has_prefix}
use httpcache.Text.Csv.{trimmed_csv}
use httpcache.Vary.{str_lt}

-- slices.Sort and slices.Sorted on strings
unfoldable pub insert : Bytes → List Bytes → List Bytes
insert s [] = s ∷ []
insert s (t ∷ ts) = let rest = insert s ts in if str_lt t s then t ∷ rest else s ∷ t ∷ ts

unfoldable pub sort : List Bytes → List Bytes
sort [] = []
sort (s ∷ ss) = insert s (sort ss)

-- normalizeOrderInsensitive
unfoldable pub normalize_order_insensitive : Bytes → Bytes
normalize_order_insensitive value = join (codes ",") (sort (trimmed_csv value))

-- What stands for the text at a position, and how many of its characters after the first are passed
-- over.
abbrev encoding_at : ℕ → Bytes → Bytes × ℕ
encoding_at c s =
    if has_prefix (codes "x-gzip") (c ∷ s)
    then (codes "gzip", 5)
    else if has_prefix (codes "x-compress") (c ∷ s)
    then (codes "compress", 9)
    else (c ∷ [], 0)

-- encodingReplacer
unfoldable pub replace_encodings : ℕ → Bytes → Bytes
replace_encodings n [] = []
replace_encodings (suc n) (c ∷ s) = replace_encodings n s
replace_encodings zero (c ∷ s) =
    let (new, passed) = encoding_at c s in new ++ replace_encodings passed s

-- normalizeEncodingHeader
unfoldable pub normalize_encoding_header : Bytes → Bytes
normalize_encoding_header value = normalize_order_insensitive (replace_encodings 0 value)
