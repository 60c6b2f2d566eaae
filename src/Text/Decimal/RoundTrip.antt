-- ===== src/Text/Decimal/RoundTrip.antt =====
-- From a number to its digits and back.
use native.Mathlib.Nat.{pow-suc}
use httpcache.Base.{
  ℕ, zero, suc, ◌+◌, ◌-◌, ◌*◌, ◌/◌, ◌%◌, ◌^◌, ◌≤◌, ◌<◌, ◌≡◌, refl, ap, ◌∙◌, ◌≢◌, true, false, [],
  ◌∷◌, ◌++◌, none, arith, ltb, Bool-cases, inl, inr, All, All-append, length, length-append,
}
use httpcache.Base.Int.{ℤ, pos, negsuc, InRange}
use httpcache.Bytes.{Bytes}
use httpcache.Text.Decimal.{unsigned, scan_digits, parse_uint, with_sign, parse_int, decimal, itoa}

abbrev pub IsDigit : ℕ → Type 0
IsDigit c = (b'0' ≤ c) × (c ≤ b'9')

scan_digits_last :
    (s : Bytes) (c n m : ℕ)
    → scan_digits s n ≡ unsigned m
    → IsDigit c
    → m * 10 + (c - b'0') < 2 ^ 64
    → scan_digits (s ++ c ∷ []) n ≡ unsigned (m * 10 + (c - b'0'))
unfolding scan_digits
scan_digits_last [] c n m e d h = ground arith
scan_digits_last (b ∷ s) c n m e d h = ground (arith, scan_digits_last s c (n * 10 + (b - b'0')) m)

scan_digits_small : (n : ℕ) → n < 10 → scan_digits ((b'0' + n) ∷ []) 0 ≡ unsigned n
unfolding scan_digits
scan_digits_small n h = ground arith

tenth_bound : (f n : ℕ) → n < 10 ^ suc f → n / 10 < 10 ^ f
tenth_bound f n h = let bound : n < 10 ^ f * 10 = rw (pow-suc 10 f) at h in omega arith

scan_digits-decimal : (f n : ℕ) → n < 10 ^ f → n < 2 ^ 64 → scan_digits (decimal f n) 0 ≡ unsigned n
unfolding decimal
scan_digits-decimal zero n h k = unfold scan_digits in ap unsigned (omega arith)
scan_digits-decimal (suc f) n h k = elim (Bool-cases (ltb n 10)) [
  | inl small ↦ rw small (scan_digits_small n (ground arith))
  | inr big ↦ rw big (
      scan_digits_last (decimal f (n / 10)) (b'0' + n % 10) 0 (n / 10)
        (scan_digits-decimal f (n / 10) (tenth_bound f n h) (omega arith)) (omega arith)
        (omega arith)
      ∙ ap unsigned (omega arith))
]

pub decimal-IsDigit : (f n : ℕ) → All IsDigit (decimal f n)
unfolding decimal
decimal-IsDigit zero n = tt
decimal-IsDigit (suc f) n = elim (Bool-cases (ltb n 10)) [
  | inl small ↦ rw small (ground arith)
  | inr big ↦ rw big (
      All-append IsDigit (decimal f (n / 10)) ((b'0' + n % 10) ∷ []) (decimal-IsDigit f (n / 10))
        (omega arith))
]

pub decimal-ne-nil : (f n : ℕ) → decimal (suc f) n ≢ []
unfolding decimal
decimal-ne-nil f n e = elim (Bool-cases (ltb n 10)) [
  | inl small ↦ cc (rw small at e)
  | inr big ↦ absurd (
      omega
        (arith, ap length (rw big at e), length-append (decimal f (n / 10)) ((b'0' + n % 10) ∷ [])))
]

parse_uint_of_scan : (s : Bytes) → s ≢ [] → parse_uint s ≡ scan_digits s 0
unfolding parse_uint
parse_uint_of_scan [] h = absurd (h refl)
parse_uint_of_scan (c ∷ s) h = refl

parse_uint-decimal : (n : ℕ) → n < 2 ^ 64 → parse_uint (decimal 20 n) ≡ unsigned n
parse_uint-decimal n h =
    parse_uint_of_scan (decimal 20 n) (decimal-ne-nil 19 n)
    ∙ scan_digits-decimal 20 n (omega arith) h

-- No sign stands before the digits.
parse_int_digits :
    (s : Bytes) → s ≢ [] → All IsDigit s → parse_int s ≡ with_sign false (parse_uint s)
unfolding parse_int
parse_int_digits [] h d = absurd (h refl)
parse_int_digits (c ∷ s) h d = ground arith

-- Every 64-bit integer is read back from its decimal digits, with no error.
pub parse_int-itoa : (a : ℤ) → InRange a → parse_int (itoa a) ≡ record { value = a; error = none }
unfolding itoa
parse_int-itoa (pos n) h =
    parse_int_digits (decimal 20 n) (decimal-ne-nil 19 n) (decimal-IsDigit 20 n)
    ∙ ap (with_sign false) (parse_uint-decimal n (omega (arith, h.above)))
    ∙ unfold with_sign in ground (arith, h.above)
parse_int-itoa (negsuc n) h =
    unfold parse_int in
    ap (with_sign true) (parse_uint-decimal (suc n) (omega (arith, h.below)))
    ∙ unfold with_sign in ground (arith, h.below)
