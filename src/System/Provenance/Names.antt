-- ===== src/System/Provenance/Names.antt =====
-- Identifiers of entries in ASCII.
use httpcache.Base.{◌≡◌, refl, true, ltb, [], ◌∷◌, ◌++◌, All, All-append, arith}
use httpcache.Bytes.{Bytes, codes}
use httpcache.Dict.{Dict}
use httpcache.Entry.{ResponseRefs, response_ids}
use httpcache.System.Provenance.{IsAscii, OwnRefs}
use httpcache.Text.Decimal.{decimal}
use httpcache.Text.Decimal.RoundTrip.{IsDigit, decimal-IsDigit}
use httpcache.Vary.{make_vary_key, make_vary_hash}

IsAscii-append : (s t : Bytes) → IsAscii s → IsAscii t → IsAscii (s ++ t)
IsAscii-append s t h k = All-append (λ c. ltb c 128 ≡ true) s t h k

digits-IsAscii : (s : Bytes) → All IsDigit s → IsAscii s
digits-IsAscii [] h = tt
digits-IsAscii (c ∷ s) (h, hs) = (ground (arith, h), digits-IsAscii s hs)

make_vary_key-IsAscii :
    (key : Bytes) (resolved : Dict Bytes) → IsAscii key → IsAscii (make_vary_key key resolved)
unfolding make_vary_key
make_vary_key-IsAscii key [] a = IsAscii-append key (codes "#0") a (refl, (refl, tt))
make_vary_key-IsAscii key (p ∷ d) a =
    let digits = decimal 20 (make_vary_hash (p ∷ d)) in
    IsAscii-append (key ++ codes "#") digits (IsAscii-append key (codes "#") a (refl, tt))
      (digits-IsAscii digits (decimal-IsDigit 20 (make_vary_hash (p ∷ d))))

-- The identifiers of references that name entries of a URL.
pub response_ids-IsAscii :
    (key : Bytes) (refs : ResponseRefs)
    → IsAscii key
    → OwnRefs key refs
    → All IsAscii (response_ids refs)
unfolding response_ids
response_ids-IsAscii key [] a h = tt
response_ids-IsAscii key (r ∷ refs) a ((d, e), h) =
    (rw e (make_vary_key-IsAscii key d a), response_ids-IsAscii key refs a h)
