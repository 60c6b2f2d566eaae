-- ===== src/Http/Laws.antt =====
-- Reading a header field after a change.
use httpcache.Base.{◌≡◌, refl, [], ◌∷◌, arith, if◌then◌else◌}
use httpcache.Bytes.{Bytes, codes, str_eq}
use httpcache.Dict.{get-put, get-remove}
use httpcache.Http.{Header, canonical_key, get, set, del}

pub get-set :
    (k j v : Bytes) (h : Header)
    → get j (set k v h) ≡ (if str_eq (canonical_key k) (canonical_key j) then v else get j h)
unfolding get set
get-set k j v h = ground (arith, get-put (canonical_key k) (canonical_key j) (v ∷ []) h)

pub get-del :
    (k j : Bytes) (h : Header)
    → get j (del k h) ≡ (if str_eq (canonical_key k) (canonical_key j) then [] else get j h)
unfolding get del
get-del k j h = ground (arith, get-remove (canonical_key k) (canonical_key j) h)

tests :
    (canonical_key (codes "cache-control") ≡ codes "Cache-Control")
    × (canonical_key (codes "TE") ≡ codes "Te")
    × (canonical_key (codes "a b") ≡ codes "a b")
unfolding canonical_key
tests = (refl, refl, refl)
