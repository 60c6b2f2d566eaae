-- ===== src/Freshness.antt =====
-- internal/freshness.go: the age of a stored response, and whether it is stale.
pub mod Staleness
use httpcache.Base.{
  ℕ, ◌-◌, ◌+◌, ◌%◌, Bool, true, false, not, ◌||◌, ◌&&◌, [], ◌∷◌, Option, none, some, ltb, leb, ◌==◌,
  if◌then◌else◌, ◌^◌,
}
use httpcache.Base.Int.{ℤ, pos, negsuc, add64, sub64, mul64, max_ℤ, min_ℤ, ltb_ℤ, leb_ℤ}
use httpcache.Bytes.{Bytes, codes}
use httpcache.Directives.{Directives, max_age, min_fresh, max_stale, public, raw_delta_seconds}
use httpcache.Entry.{Stored, Expires, date_header, expires_header}
use httpcache.Http
use httpcache.Http.{Header}
use httpcache.Text.Decimal.{parse_int}
use httpcache.Time.{Duration, Time, Dates, Readings, Clocked, second, sub, now, since, raw_time}

-- Age
pub record Age : Type 0 where
  pub value : Duration
  pub timestamp : Time

-- Freshness
pub record Freshness : Type 0 where
  pub is_stale : Bool
  pub age : Age
  pub useful_life : Duration

-- isHeuristicallyCacheableCode
unfoldable pub is_heuristically_cacheable_code : ℕ → Bool
is_heuristically_cacheable_code code =
    code == 200
    || code == 203
    || code == 206
    || code == 301
    || code == 304
    || code == 404
    || code == 405
    || code == 410
    || code == 414
    || code == 501
    || code == 308

abbrev pub max_duration : Duration
max_duration = pos (2 ^ 63 - 1)

-- Duration.Round(time.Second): halves are rounded away from zero, and a result out of range is the
-- nearest bound.
abbrev round_ℕ : ℕ → ℕ
round_ℕ n =
    let r = n % 1_000_000_000 in
    if ltb (r + r) 1_000_000_000 then n - r else n + (1_000_000_000 - r)

unfoldable pub round_second : Duration → Duration
round_second (pos n) = if ltb (round_ℕ n) (2 ^ 63) then pos (round_ℕ n) else pos (2 ^ 63 - 1)
round_second (negsuc n) =
    let m = round_ℕ (n + 1) in
    if m == 0 then pos 0 else if leb m (2 ^ 63) then negsuc (m - 1) else negsuc (2 ^ 63 - 1)

-- What the calculation asks of the environment: dates, the clock, the setting for `UTC` dates, and
-- `time.Duration(float64(d) * 0.1)`.
pub record Calendar : Type 0 where
  pub dates : Dates
  pub clock : Readings
  pub allow_utc : Bool
  pub tenth : Duration → Duration

module _ (cal : Calendar) where
  abbrev heuristic_from : Time → Option Time → Duration
  heuristic_from date none = pos 0
  heuristic_from date (some last_mod) =
      if not (ltb_ℤ last_mod date) then pos 0 else round_second (cal.tenth (sub date last_mod))

  -- heuristicFreshness
  unfoldable pub heuristic_freshness : Header → Time → Duration
  heuristic_freshness h date =
      heuristic_from date (raw_time cal.dates (Http.get (codes "Last-Modified") h))

  abbrev age_value : Bytes → ℤ
  age_value [] = pos 0
  age_value (c ∷ s) = (parse_int (c ∷ s)).value

  -- `max(apparentAge, correctedAgeValue)` of calculateCurrentAge
  unfoldable pub corrected_initial_age : Header → Time → Time → Time → Duration
  corrected_initial_age h date request_time response_time =
      let apparent_age = max_ℤ (sub response_time date) (pos 0) in
      let response_delay = max_ℤ (sub response_time request_time) (pos 0) in
      let corrected_age_value =
        add64 (mul64 (age_value (Http.get (codes "Age") h)) second) response_delay in
      max_ℤ apparent_age corrected_age_value

  -- calculateCurrentAge
  unfoldable pub calculate_current_age : Header → Time → Time → Time → Clocked Age
  calculate_current_age h date request_time response_time n =
      let (elapsed, n') = since cal.clock response_time n in
      let (timestamp, n'') = now cal.clock n' in
      (
        record {
          value =
              add64 (corrected_initial_age h date request_time response_time)
                (max_ℤ elapsed (pos 0));
          timestamp = timestamp;
        },
        n'',
      )

  -- `max-age` of the response, if it is there and not negative
  abbrev explicit_life : Option Duration → Duration
  explicit_life none = pos 0
  explicit_life (some d) = if leb_ℤ (pos 0) d then d else pos 0

  -- The freshness lifetime before the request's directives.
  unfoldable pub response_life : Stored → Directives → Duration
  response_life entry res_cc =
      let date = date_header cal.dates entry in
      let explicit = explicit_life (max_age res_cc) in
      let expires = expires_header cal.dates cal.allow_utc entry in
      if ltb_ℤ (pos 0) explicit
      then explicit
      else if expires.valid && ltb_ℤ date expires.time
      then sub expires.time date
      else if not expires.found
          && (is_heuristically_cacheable_code entry.response.status_code || public res_cc)
      then heuristic_freshness entry.response.header date
      else pos 0

  -- The request accepts no response older than its `max-age`.
  abbrev limit_life : Option Duration → Duration → Duration
  limit_life none life = life
  limit_life (some d) life = if ltb_ℤ (pos 0) d then min_ℤ life d else life

  abbrev too_short : Option Duration → Duration → Duration → Bool
  too_short none life age = false
  too_short (some fresh) life age = ltb_ℤ (pos 0) fresh && ltb_ℤ (sub64 life age) fresh

  abbrev given_stale : Option Duration → Duration
  given_stale none = pos 0
  given_stale (some d) = if leb_ℤ (pos 0) d then d else pos 0

  abbrev allowed_stale : Option Bytes → Duration
  allowed_stale none = pos 0
  allowed_stale (some []) = max_duration
  allowed_stale (some (c ∷ s)) = given_stale (raw_delta_seconds (c ∷ s))

  abbrev is_zero_age : Option Duration → Bool
  is_zero_age none = false
  is_zero_age (some d) = leb_ℤ (pos 0) d && leb_ℤ d (pos 0)

  -- The part of CalculateFreshness after the age and the lifetime of the response are known.
  unfoldable pub judge : Age → Duration → Directives → Freshness
  judge age life req_cc =
      let useful_life = limit_life (max_age req_cc) life in
      let stale_for = allowed_stale (max_stale req_cc) in
      let is_stale = leb_ℤ useful_life age.value in
      let tolerated =
        ltb_ℤ (pos 0) stale_for
        && ltb_ℤ age.value (max_ℤ (add64 useful_life stale_for) stale_for) in
      if too_short (min_fresh req_cc) useful_life age.value
      then record { is_stale = true; age = age; useful_life = useful_life }
      else record { is_stale = is_stale && not tolerated; age = age; useful_life = useful_life }

  -- CalculateFreshness
  unfoldable pub calculate_freshness : Stored → Directives → Directives → Clocked Freshness
  calculate_freshness entry req_cc res_cc n =
      let (instant, n₁) = now cal.clock n in
      let (age, n₂) =
        calculate_current_age entry.response.header (date_header cal.dates entry) entry.requested_at
          entry.received_at n in
      if is_zero_age (max_age req_cc)
      then (
        record {
          is_stale = true;
          age = record { value = pos 0; timestamp = instant };
          useful_life = pos 0;
        },
        n₁,
      )
      else (judge age (response_life entry res_cc) req_cc, n₂)
