-- ===== src/Storer/Keys.antt =====
-- Which URL the identifier of an entry belongs to.
use httpcache.Base.{◌≡◌, refl, ◌∙◌, sym, [], ◌∷◌, ◌++◌, All, append_assoc, arith}
use httpcache.Bytes.{Bytes, codes}
use httpcache.Dict.{Dict}
use httpcache.Text.Decimal.{decimal}
use httpcache.Text.Decimal.RoundTrip.{IsDigit, decimal-IsDigit}
use httpcache.Vary.{make_vary_key, make_vary_hash}

make_vary_key-digits :
    (key : Bytes) (d : Dict Bytes)
    → (ds : Bytes) × All IsDigit ds × (make_vary_key key d ≡ key ++ b'#' ∷ ds)
unfolding make_vary_key
make_vary_key-digits key [] = (codes "0", ((omega arith, omega arith), tt), refl)
make_vary_key-digits key (p ∷ d) = (
  decimal 20 (make_vary_hash (p ∷ d)),
  decimal-IsDigit 20 (make_vary_hash (p ∷ d)),
  append_assoc key (codes "#") (decimal 20 (make_vary_hash (p ∷ d))),
)

not_digits : (key ds : Bytes) → ¬ All IsDigit (key ++ b'#' ∷ ds)
not_digits [] ds (h, hs) = absurd (omega (arith, h))
not_digits (c ∷ key) ds (h, hs) = not_digits key ds hs

before_hash :
    (key key' ds ds' : Bytes)
    → All IsDigit ds
    → All IsDigit ds'
    → key ++ b'#' ∷ ds ≡ key' ++ b'#' ∷ ds'
    → key ≡ key'
before_hash [] [] ds ds' h h' e = refl
before_hash [] (c ∷ key') ds ds' h h' e =
    let same : ds ≡ key' ++ b'#' ∷ ds' = cc in absurd (not_digits key' ds' (rw same at h))
before_hash (c ∷ key) [] ds ds' h h' e =
    let same : key ++ b'#' ∷ ds ≡ ds' = cc in absurd (not_digits key ds (rw (← same) at h'))
before_hash (c ∷ key) (c' ∷ key') ds ds' h h' e =
    let same : key ++ b'#' ∷ ds ≡ key' ++ b'#' ∷ ds' = cc in
    let first : c ≡ c' = cc in let rest = before_hash key key' ds ds' h h' same in cc

-- An identifier belongs to one URL: those made of two keys are never the same.
pub make_vary_key-injective :
    (key key' : Bytes) (d d' : Dict Bytes)
    → make_vary_key key d ≡ make_vary_key key' d'
    → key ≡ key'
make_vary_key-injective key key' d d' e =
    let (ds, h, p) = make_vary_key-digits key d in
    let (ds', h', p') = make_vary_key-digits key' d' in
    before_hash key key' ds ds' h h' (sym p ∙ (e ∙ p'))
