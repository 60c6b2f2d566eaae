-- ===== src/Text/Decimal.antt =====
-- strconv.ParseInt, strconv.Atoi and strconv.Itoa, in base 10 on 64 bits.
pub mod RoundTrip
use httpcache.Base.{
  ℕ, zero, suc, ◌+◌, ◌-◌, ◌*◌, ◌/◌, ◌%◌, ◌^◌, Bool, true, false, ◌||◌, ◌&&◌, not, [], ◌∷◌, ◌++◌,
  Option, none, some, ◌==◌, ltb, leb, if◌then◌else◌,
}
use httpcache.Base.Int.{ℤ, pos, negsuc}
use httpcache.Bytes.{Bytes}

pub data NumError : Type 0 where
  syntax range : NumError

-- A number and an error, as Go returns them.
pub record Parsed : Type 0 where
  pub value : ℤ
  pub error : Option NumError

pub data Scanned : Type 0 where
  unsigned : ℕ → Scanned
  failed : NumError → Scanned

-- The loop of ParseUint, which stops at the first byte that is no digit or does not fit.
unfoldable pub scan_digits : Bytes → ℕ → Scanned
scan_digits [] n = unsigned n
scan_digits (c ∷ s) n =
    let next = n * 10 + (c - b'0') in
    let rest = scan_digits s next in
    if ltb c b'0' || ltb b'9' c
    then failed syntax
    else if leb (2 ^ 64) next
    then failed range
    else rest

unfoldable pub parse_uint : Bytes → Scanned
unfolding scan_digits
parse_uint [] = failed syntax
parse_uint (c ∷ s) = scan_digits (c ∷ s) 0

abbrev pub negate : ℕ → ℤ
negate zero = pos 0
negate (suc n) = negsuc n

-- A magnitude beyond the range gives the nearest bound.
unfoldable pub with_sign : Bool → Scanned → Parsed
with_sign true (unsigned n) =
    if ltb (2 ^ 63) n
    then record { value = negate (2 ^ 63); error = some range }
    else record { value = negate n; error = none }
with_sign false (unsigned n) =
    if leb (2 ^ 63) n
    then record { value = pos (2 ^ 63 - 1); error = some range }
    else record { value = pos n; error = none }
with_sign negative (failed syntax) = record { value = pos 0; error = some syntax }
with_sign true (failed range) = record { value = negate (2 ^ 63); error = some range }
with_sign false (failed range) = record { value = pos (2 ^ 63 - 1); error = some range }

unfoldable pub parse_int : Bytes → Parsed
unfolding parse_uint with_sign
parse_int [] = record { value = pos 0; error = some syntax }
parse_int (c ∷ s) =
    if c == b'-'
    then with_sign true (parse_uint s)
    else if c == b'+'
    then with_sign false (parse_uint s)
    else with_sign false (parse_uint (c ∷ s))

-- The last `f` decimal digits of `n`, without leading zeros; 20 are enough for 64 bits.
unfoldable pub decimal : ℕ → ℕ → Bytes
decimal zero n = []
decimal (suc f) n =
    let front = decimal f (n / 10) in
    if ltb n 10 then (b'0' + n) ∷ [] else front ++ (b'0' + n % 10) ∷ []

unfoldable pub itoa : ℤ → Bytes
unfolding decimal
itoa (pos n) = decimal 20 n
itoa (negsuc n) = b'-' ∷ decimal 20 (suc n)
