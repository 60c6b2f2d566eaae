-- ===== src/UrlKey/Percent.antt =====
-- Normalising the percent-encoding a second time.
use httpcache.Base.{
  ℕ, ◌+◌, ◌*◌, ◌/◌, ◌%◌, ◌<◌, ◌≡◌, refl, ap, ◌∙◌, true, false, [], ◌∷◌, ◌++◌, arith, ◌==◌, ltb,
  Bool-cases, inl, inr,
}
use httpcache.Bytes.{Bytes, codes}
use httpcache.UrlKey.{
  is_hex_digit, from_hex, is_unreserved, hex_digit, percent_encode_upper, rune_bytes,
  rewrite_escape, percent_chunk, percent_run, normalize_percent_encoding,
}

-- Every `%` stands before two hexadecimal digits.
pub data IsEncoded : Bytes → Type 0 where
  done : IsEncoded []
  plain : {c : ℕ} {s : Bytes} → (c == b'%') ≡ false → IsEncoded s → IsEncoded (c ∷ s)
  escape :
      {d e : ℕ} {s : Bytes}
      → is_hex_digit d ≡ true
      → is_hex_digit e ≡ true
      → IsEncoded s
      → IsEncoded (b'%' ∷ d ∷ e ∷ s)

percent_run_plain :
    (c : ℕ) (s : Bytes) → (c == b'%') ≡ false → percent_run 0 (c ∷ s) ≡ c ∷ percent_run 0 s
unfolding percent_run percent_chunk
percent_run_plain c [] h = refl
percent_run_plain c (d ∷ []) h = refl
percent_run_plain c (d ∷ e ∷ s) h = rw h refl

percent_run_escape :
    (d e : ℕ) (s : Bytes)
    → is_hex_digit d ≡ true
    → is_hex_digit e ≡ true
    → percent_run 0 (b'%' ∷ d ∷ e ∷ s)
      ≡ rewrite_escape (from_hex d * 16 + from_hex e) ++ percent_run 0 s
unfolding percent_run percent_chunk
percent_run_escape d e s h k = rw (h, k) refl

from_hex-lt : (d : ℕ) → is_hex_digit d ≡ true → from_hex d < 16
unfolding is_hex_digit from_hex
from_hex-lt d h = ground arith

hex_digit-is_hex_digit : (n : ℕ) → n < 16 → is_hex_digit (hex_digit n) ≡ true
unfolding is_hex_digit hex_digit
hex_digit-is_hex_digit n h = ground arith

from_hex-hex_digit : (n : ℕ) → n < 16 → from_hex (hex_digit n) ≡ n
unfolding from_hex hex_digit
from_hex-hex_digit n h = ground arith

-- What an escape is rewritten to is not changed a second time.
percent_run-rune_bytes :
    (v : ℕ) (t : Bytes)
    → v < 256
    → is_unreserved v ≡ true
    → percent_run 0 (rune_bytes v ++ t) ≡ rune_bytes v ++ percent_run 0 t
unfolding rune_bytes is_unreserved
percent_run-rune_bytes v t h u = elim (Bool-cases (ltb v 0x80)) [
  | inl small ↦ rw small (percent_run_plain v t (ground (arith, u)))
  | inr big ↦ rw big (
      percent_run_plain (0xc0 + v / 64) ((0x80 + v % 64) ∷ t) (ground arith)
      ∙ ap (λ s. (0xc0 + v / 64) ∷ s) (percent_run_plain (0x80 + v % 64) t (ground arith)))
]

percent_run-percent_encode_upper :
    (v : ℕ) (t : Bytes)
    → v < 256
    → is_unreserved v ≡ false
    → percent_run 0 (percent_encode_upper v ++ t) ≡ percent_encode_upper v ++ percent_run 0 t
unfolding percent_encode_upper rewrite_escape
percent_run-percent_encode_upper v t h u =
    let high : v / 16 < 16 = omega arith in
    let low : v % 16 < 16 = omega arith in
    percent_run_escape (hex_digit (v / 16)) (hex_digit (v % 16)) t
      (hex_digit-is_hex_digit (v / 16) high) (hex_digit-is_hex_digit (v % 16) low)
    ∙ rw (from_hex-hex_digit (v / 16) high, from_hex-hex_digit (v % 16) low)
        (let same : v / 16 * 16 + v % 16 ≡ v = omega arith in rw (same, u) refl)

percent_run-rewrite_escape :
    (v : ℕ) (t : Bytes)
    → v < 256
    → percent_run 0 (rewrite_escape v ++ t) ≡ rewrite_escape v ++ percent_run 0 t
unfolding rewrite_escape
percent_run-rewrite_escape v t h = elim (Bool-cases (is_unreserved v)) [
  | inl free ↦ rw free (percent_run-rune_bytes v t h free)
  | inr reserved ↦ rw reserved (percent_run-percent_encode_upper v t h reserved)
]

percent_run_again : {s : Bytes} → IsEncoded s → percent_run 0 (percent_run 0 s) ≡ percent_run 0 s
percent_run_again done = unfold percent_run in refl
percent_run_again (plain {c} {s} h w) =
    rw (percent_run_plain c s h)
      (percent_run_plain c (percent_run 0 s) h ∙ ap (λ t. c ∷ t) (percent_run_again w))
percent_run_again (escape {d} {e} {s} h k w) =
    let v = from_hex d * 16 + from_hex e in
    let small : v < 256 = omega (arith, from_hex-lt d h, from_hex-lt e k) in
    rw (percent_run_escape d e s h k) (
      percent_run-rewrite_escape v (percent_run 0 s) small
      ∙ ap (λ t. rewrite_escape v ++ t) (percent_run_again w))

-- A path or query in which every `%` stands before two hexadecimal digits is not changed by a second
-- normalisation.
pub normalize_percent_encoding-idempotent :
    (s : Bytes)
    → IsEncoded s
    → normalize_percent_encoding (normalize_percent_encoding s) ≡ normalize_percent_encoding s
unfolding normalize_percent_encoding
normalize_percent_encoding-idempotent s w = percent_run_again w

-- A `%` that stands for itself can become an escape.
bare_percent :
    (normalize_percent_encoding (codes "%%34%31") ≡ codes "%41")
    × (normalize_percent_encoding (codes "%41") ≡ codes "A")
unfolding normalize_percent_encoding percent_run percent_chunk rewrite_escape rune_bytes
    is_unreserved is_hex_digit from_hex
bare_percent = (refl, refl)
