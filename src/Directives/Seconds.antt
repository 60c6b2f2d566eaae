-- ===== src/Directives/Seconds.antt =====
-- The durations that directives give in seconds.
use httpcache.Base.{
  ℕ, ◌-◌, ◌*◌, ◌^◌, ◌≤◌, ◌<◌, ◌≡◌, ◌≢◌, refl, ap, ◌∙◌, [], ◌∷◌, some, arith, All, leb,
  if◌then◌else◌, Bool-cases, inl, inr,
}
use httpcache.Base.Int.{pos, negsuc, mul64, wrap64, wrap64_of_InRange, ◌*ℤ◌}
use httpcache.Bytes.{Bytes}
use httpcache.Directives.{raw_delta_seconds, in_seconds}
use httpcache.Text.Decimal.{parse_int, decimal, itoa}
use httpcache.Text.Decimal.RoundTrip.{parse_int-itoa, decimal-IsDigit, decimal-ne-nil, IsDigit}
use httpcache.Time.{second}

raw_delta_digits :
    (s : Bytes) → s ≢ [] → All IsDigit s → raw_delta_seconds s ≡ in_seconds (parse_int s)
unfolding raw_delta_seconds
raw_delta_digits [] h d = absurd (h refl)
raw_delta_digits (c ∷ s) h d = ground arith

raw_delta_seconds-product :
    (n : ℕ) → n < 2 ^ 63 → raw_delta_seconds (itoa (pos n)) ≡ some (mul64 (pos n) second)
unfolding itoa
raw_delta_seconds-product n h =
    raw_delta_digits (decimal 20 n) (decimal-ne-nil 19 n) (decimal-IsDigit 20 n)
    ∙ ap in_seconds (parse_int-itoa (pos n) (record { above = h; below = omega arith }))

mul64-second : (n : ℕ) → mul64 (pos n) second ≡ wrap64 (pos (n * 1_000_000_000))
unfolding mul64 ◌*ℤ◌
mul64-second n =
    ap wrap64 (let exact : pos n *ℤ second ≡ pos (n * 1_000_000_000) = ground arith in exact)

-- A number of seconds is read as that duration, up to 9223372036 seconds.
raw_delta_seconds_exact :
    (n : ℕ) → n ≤ 9_223_372_036 → raw_delta_seconds (itoa (pos n)) ≡ some (pos (n * 1_000_000_000))
raw_delta_seconds_exact n h =
    raw_delta_seconds-product n (omega arith)
    ∙ ap some (
        mul64-second n
        ∙ wrap64_of_InRange (pos (n * 1_000_000_000))
            (record { above = omega arith; below = omega arith }))

-- From 9223372037 to 18446744073 seconds the duration overflows and is read as a negative one.
raw_delta_seconds_overflow :
    (n : ℕ)
    → 9_223_372_037 ≤ n
    → n ≤ 18_446_744_073
    → raw_delta_seconds (itoa (pos n)) ≡ some (negsuc (2 ^ 64 - 1 - n * 1_000_000_000))
unfolding wrap64
raw_delta_seconds_overflow n h k =
    raw_delta_seconds-product n (omega arith) ∙ ap some (mul64-second n ∙ ground arith)

-- A number of seconds is read as that duration up to 9223372036 seconds; from there to 18446744073
-- seconds the product overflows, and a negative duration is read.
pub raw_delta_seconds_lem :
    (n : ℕ)
    → n ≤ 18_446_744_073
    → raw_delta_seconds (itoa (pos n))
      ≡ some (
          if leb n 9_223_372_036
          then pos (n * 1_000_000_000)
          else negsuc (2 ^ 64 - 1 - n * 1_000_000_000))
raw_delta_seconds_lem n h = elim (Bool-cases (leb n 9_223_372_036)) [
  | inl small ↦ rw small (raw_delta_seconds_exact n (ground arith))
  | inr large ↦ rw large (raw_delta_seconds_overflow n (ground arith) h)
]
