-- ===== src/Text/Base64.antt =====
-- encoding/base64 with the URL-safe alphabet of RFC 4648, with and without padding.
pub mod RoundTrip
use httpcache.Base.{
  ℕ, ◌+◌, ◌-◌, ◌*◌, ◌/◌, ◌%◌, ◌||◌, List, [], ◌∷◌, ◌++◌, Option, none, some, ◌==◌, ltb, leb, ◌&&◌,
  if◌then◌else◌,
}
use httpcache.Bytes.{Bytes}

-- The character for six bits.
unfoldable pub symbol : ℕ → ℕ
symbol n =
    if ltb n 26
    then b'A' + n
    else if ltb n 52
    then b'a' + (n - 26)
    else if ltb n 62
    then b'0' + (n - 52)
    else if n == 62
    then b'-'
    else b'_'

-- The six bits of a character.
unfoldable pub sextet : ℕ → Option ℕ
sextet c =
    if leb b'A' c && leb c b'Z'
    then some (c - b'A')
    else if leb b'a' c && leb c b'z'
    then some (c - b'a' + 26)
    else if leb b'0' c && leb c b'9'
    then some (c - b'0' + 52)
    else if c == b'-'
    then some 62
    else if c == b'_'
    then some 63
    else none

-- RawURLEncoding.EncodeToString
unfoldable pub encode : Bytes → Bytes
encode [] = []
encode (a ∷ []) = symbol (a / 4) ∷ symbol (a % 4 * 16) ∷ []
encode (a ∷ b ∷ []) = symbol (a / 4) ∷ symbol (a % 4 * 16 + b / 16) ∷ symbol (b % 16 * 4) ∷ []
encode (a ∷ b ∷ c ∷ s) =
    symbol (a / 4)
    ∷ symbol (a % 4 * 16 + b / 16)
    ∷ symbol (b % 16 * 4 + c / 64)
    ∷ symbol (c % 64)
    ∷ encode s

module _ {A B : Type 0} where
  infixl 5 ◌>>=◌
  abbrev ◌>>=◌ : Option A → (A → Option B) → Option B
  none >>= f = none
  some a >>= f = f a

abbrev first_byte : ℕ → ℕ → ℕ
first_byte x y = x * 4 + y / 16

abbrev second_byte : ℕ → ℕ → ℕ
second_byte y z = y % 16 * 16 + z / 4

abbrev third_byte : ℕ → ℕ → ℕ
third_byte z w = z % 4 * 64 + w

-- One, two or three bytes of two, three or four characters.
unfoldable pub two : ℕ → ℕ → Option Bytes
two a b = do x ← sextet a; y ← sextet b; some (first_byte x y ∷ [])

unfoldable pub three : ℕ → ℕ → ℕ → Option Bytes
three a b c = do
  x ← sextet a
  y ← sextet b
  z ← sextet c
  some (first_byte x y ∷ second_byte y z ∷ [])

unfoldable pub four : ℕ → ℕ → ℕ → ℕ → Option Bytes
four a b c d = do
  x ← sextet a
  y ← sextet b
  z ← sextet c
  w ← sextet d
  some (first_byte x y ∷ second_byte y z ∷ third_byte z w ∷ [])

abbrev pub joined : Option Bytes → Option Bytes → Option Bytes
joined none rest = none
joined (some s) none = none
joined (some s) (some t) = some (s ++ t)

-- Line breaks are skipped.
unfoldable pub strip_lines : Bytes → Bytes
strip_lines [] = []
strip_lines (c ∷ s) =
    let rest = strip_lines s in if c == b'\n' || c == b'\r' then rest else c ∷ rest

unfoldable pub decode_raw : Bytes → Option Bytes
decode_raw [] = some []
decode_raw (a ∷ []) = none
decode_raw (a ∷ b ∷ []) = two a b
decode_raw (a ∷ b ∷ c ∷ []) = three a b c
decode_raw (a ∷ b ∷ c ∷ d ∷ s) = joined (four a b c d) (decode_raw s)

-- RawURLEncoding.DecodeString
unfoldable pub decode : Bytes → Option Bytes
decode s = decode_raw (strip_lines s)

-- The last four characters, where `=` is padding.
unfoldable pub padded : ℕ → ℕ → ℕ → ℕ → Option Bytes
padded a b c d = if d == b'=' then if c == b'=' then two a b else three a b c else four a b c d

unfoldable pub decode_groups : Bytes → Option Bytes
decode_groups [] = some []
decode_groups (a ∷ []) = none
decode_groups (a ∷ b ∷ []) = none
decode_groups (a ∷ b ∷ c ∷ []) = none
decode_groups (a ∷ b ∷ c ∷ d ∷ []) = padded a b c d
decode_groups (a ∷ b ∷ c ∷ d ∷ e ∷ s) = joined (four a b c d) (decode_groups (e ∷ s))

-- URLEncoding.DecodeString
unfoldable pub decode_padded : Bytes → Option Bytes
decode_padded s = decode_groups (strip_lines s)
