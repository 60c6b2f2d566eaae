-- ===== src/Wiring/Words.antt =====
-- White space in the identifiers of entries.
use httpcache.Base.{◌≡◌, refl, false, [], ◌∷◌, ◌++◌, All, All-append, arith}
use httpcache.Bytes.{Bytes, codes}
use httpcache.Dict.{Dict}
use httpcache.Entry.Encoding.{IsWord}
use httpcache.Text.{is_space}
use httpcache.Text.Decimal.{decimal}
use httpcache.Text.Decimal.RoundTrip.{IsDigit, decimal-IsDigit}
use httpcache.Vary.{make_vary_key, make_vary_hash}

abbrev IsNoSpace : Bytes → Type 0
IsNoSpace s = All (λ c. is_space c ≡ false) s

digits-IsNoSpace : (s : Bytes) → All IsDigit s → IsNoSpace s
unfolding is_space
digits-IsNoSpace [] h = tt
digits-IsNoSpace (c ∷ s) (h, hs) = (ground (arith, h), digits-IsNoSpace s hs)

IsWord-append : (s t : Bytes) → IsWord s → IsNoSpace t → IsWord (s ++ t)
IsWord-append [] t w h = absurd (w.filled refl)
IsWord-append (c ∷ s) t w h = record {
  filled = λ e. cc e;
  no_space = All-append (λ c. is_space c ≡ false) (c ∷ s) t w.no_space h;
}

pub make_vary_key-IsWord :
    (key : Bytes) (resolved : Dict Bytes) → IsWord key → IsWord (make_vary_key key resolved)
unfolding make_vary_key is_space
make_vary_key-IsWord key [] w = IsWord-append key (codes "#0") w (refl, (refl, tt))
make_vary_key-IsWord key (p ∷ d) w =
    let digits = decimal 20 (make_vary_hash (p ∷ d)) in
    IsWord-append (key ++ codes "#") digits (IsWord-append key (codes "#") w (refl, tt))
      (digits-IsNoSpace digits (decimal-IsDigit 20 (make_vary_hash (p ∷ d))))
