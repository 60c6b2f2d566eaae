-- ===== src/Text/Base64/RoundTrip.antt =====
-- Decoding what was encoded, and the shape of an encoding.
use httpcache.Base.{
  ℕ, ◌+◌, ◌-◌, ◌*◌, ◌/◌, ◌%◌, ◌<◌, ◌≡◌, refl, [], ◌∷◌, ◌++◌, some, ◌==◌, arith, All, false, length,
}
use httpcache.Bytes.{Bytes}
use httpcache.Text.Base64.{
  symbol, sextet, encode, two, three, four, strip_lines, decode_raw, decode,
}

-- A byte.
abbrev pub IsByte : ℕ → Type 0
IsByte c = c < 256

-- A character of the alphabet: no separator of a path and no line break.
abbrev pub IsPlain : ℕ → Type 0
IsPlain c = ((c == b'/') ≡ false) × ((c == b'\n') ≡ false) × ((c == b'\r') ≡ false)

symbol-IsPlain : (n : ℕ) → n < 64 → IsPlain (symbol n)
unfolding symbol
symbol-IsPlain n h = ground arith

sextet-symbol : (n : ℕ) → n < 64 → sextet (symbol n) ≡ some n
unfolding symbol sextet
sextet-symbol n h = ground arith

two-symbol : (a : ℕ) → IsByte a → two (symbol (a / 4)) (symbol (a % 4 * 16)) ≡ some (a ∷ [])
unfolding two
two-symbol a h =
    rw (sextet-symbol (a / 4) (omega arith), sextet-symbol (a % 4 * 16) (omega arith)) (grind arith)

three-symbol :
    (a b : ℕ)
    → IsByte a
    → IsByte b
    → three (symbol (a / 4)) (symbol (a % 4 * 16 + b / 16)) (symbol (b % 16 * 4))
      ≡ some (a ∷ b ∷ [])
unfolding three
three-symbol a b h k =
    rw
      (
        sextet-symbol (a / 4) (omega arith),
        sextet-symbol (a % 4 * 16 + b / 16) (omega arith),
        sextet-symbol (b % 16 * 4) (omega arith),
      )
      (grind arith)

four-symbol :
    (a b c : ℕ)
    → IsByte a
    → IsByte b
    → IsByte c
    → four
        (symbol (a / 4))
        (symbol (a % 4 * 16 + b / 16))
        (symbol (b % 16 * 4 + c / 64))
        (symbol (c % 64))
      ≡ some (a ∷ b ∷ c ∷ [])
unfolding four
four-symbol a b c h k l =
    rw
      (
        sextet-symbol (a / 4) (omega arith),
        sextet-symbol (a % 4 * 16 + b / 16) (omega arith),
        sextet-symbol (b % 16 * 4 + c / 64) (omega arith),
        sextet-symbol (c % 64) (omega arith),
      )
      (grind arith)

pub encode-IsPlain : (s : Bytes) → All IsByte s → All IsPlain (encode s)
unfolding encode
encode-IsPlain [] h = tt
encode-IsPlain (a ∷ []) (h, _) =
    (symbol-IsPlain (a / 4) (omega arith), (symbol-IsPlain (a % 4 * 16) (omega arith), tt))
encode-IsPlain (a ∷ b ∷ []) (h, (k, _)) = (
  symbol-IsPlain (a / 4) (omega arith),
  (
    symbol-IsPlain (a % 4 * 16 + b / 16) (omega arith),
    (symbol-IsPlain (b % 16 * 4) (omega arith), tt),
  ),
)
encode-IsPlain (a ∷ b ∷ c ∷ s) (h, (k, (l, hs))) = (
  symbol-IsPlain (a / 4) (omega arith),
  (
    symbol-IsPlain (a % 4 * 16 + b / 16) (omega arith),
    (
      symbol-IsPlain (b % 16 * 4 + c / 64) (omega arith),
      (symbol-IsPlain (c % 64) (omega arith), encode-IsPlain s hs),
    ),
  ),
)

strip_lines_plain : (s : Bytes) → All IsPlain s → strip_lines s ≡ s
unfolding strip_lines
strip_lines_plain [] h = refl
strip_lines_plain (c ∷ s) ((_, n, r), h) = rw (n, r, strip_lines_plain s h) refl

decode_raw-encode : (s : Bytes) → All IsByte s → decode_raw (encode s) ≡ some s
unfolding decode_raw encode
decode_raw-encode [] h = refl
decode_raw-encode (a ∷ []) (h, _) = two-symbol a h
decode_raw-encode (a ∷ b ∷ []) (h, (k, _)) = three-symbol a b h k
decode_raw-encode (a ∷ b ∷ c ∷ s) (h, (k, (l, hs))) =
    rw (four-symbol a b c h k l, decode_raw-encode s hs) refl

-- What was encoded is decoded.
pub decode-encode : (s : Bytes) → All IsByte s → decode (encode s) ≡ some s
unfolding decode
decode-encode s h = rw (strip_lines_plain (encode s) (encode-IsPlain s h)) (decode_raw-encode s h)

-- Three bytes give four characters, and what is left gives one more than it has.
pub length-encode : (s : Bytes) → length (encode s) ≡ (length s * 4 + 2) / 3
unfolding encode
length-encode [] = refl
length-encode (a ∷ []) = refl
length-encode (a ∷ b ∷ []) = refl
length-encode (a ∷ b ∷ c ∷ s) = omega (arith, length-encode s)

-- Texts of whole groups are encoded one after the other.
pub encode-append :
    (m : ℕ) (s t : Bytes) → length s ≡ 3 * m → encode (s ++ t) ≡ encode s ++ encode t
unfolding encode
encode-append m [] t h = refl
encode-append m (a ∷ []) t h = absurd (omega arith)
encode-append m (a ∷ b ∷ []) t h = absurd (omega arith)
encode-append m (a ∷ b ∷ c ∷ s) t h =
    let rest = encode-append (m - 1) s t (omega arith) in rw rest refl
