-- ===== src/Time.antt =====
-- The parts of Go's package time that the cache uses, and internal/clock.go.
use httpcache.Base.{ℕ, suc, Bool, false, true, Option, none, some, if◌then◌else◌, [], ◌∷◌}
use httpcache.Base.Int.{ℤ, pos, ◌-ℤ◌, ltb_ℤ, leb_ℤ, saturate64}
use httpcache.Bytes.{Bytes, codes}
use httpcache.Http
use httpcache.Http.{Header}

-- time.Duration, in nanoseconds
abbrev pub Duration : Type 0
Duration = ℤ

-- time.Time, in nanoseconds from the zero time
abbrev pub Time : Type 0
Time = ℤ

abbrev pub zero_time : Time
zero_time = pos 0

abbrev pub is_zero : Time → Bool
is_zero t = if ltb_ℤ t zero_time then false else leb_ℤ t zero_time

-- time.Second
abbrev pub second : Duration
second = pos 1_000_000_000

-- t.Sub(u), which stops at the bounds of Duration
unfoldable pub sub : Time → Time → Duration
sub t u = saturate64 (t -ℤ u)

-- http.ParseTime, Time.Format(http.TimeFormat) and time.Parse(time.RFC1123).
pub record Dates : Type 0 where
  pub parse_time : Bytes → Option Time
  pub format_time : Time → Bytes
  pub parse_rfc1123 : Bytes → Option Time

-- The readings of the clock, by their number. An action takes the number of readings made before
-- it, and returns the number made after it.
abbrev pub Readings : Type 0
Readings = ℕ → Time

abbrev pub Clocked : Type 0 → Type 0
Clocked A = ℕ → A × ℕ

module _ (clock : Readings) where
  -- clock.Now
  unfoldable pub now : Clocked Time
  now n = (clock n, suc n)

  -- clock.Since
  unfoldable pub since : Time → Clocked Duration
  since t n = (sub (clock n) t, suc n)

-- The time that Go returns: the zero time where it is not valid.
abbrev pub or_zero : Option Time → Time
or_zero none = zero_time
or_zero (some t) = t

abbrev is_missing : Option Time → Bool
is_missing none = true
is_missing (some t) = is_zero t

module _ (dates : Dates) where
  -- RawTime.Value; no value where Go returns the zero time and `false`
  unfoldable pub raw_time : Bytes → Option Time
  raw_time [] = none
  raw_time (c ∷ s) = dates.parse_time (c ∷ s)

  -- FixDateHeader
  unfoldable pub fix_date_header : Header → Time → Header × Bool
  fix_date_header h received =
      if is_missing (raw_time (Http.get (codes "Date") h))
      then (Http.set (codes "Date") (dates.format_time received) h, true)
      else (h, false)
