-- ===== src/Freshness/Staleness.antt =====
-- What a judgement of freshness promises.
use httpcache.Base.{◌≡◌, true, false, Option, none, some, arith}
use httpcache.Base.Int.{
  ℤ, pos, negsuc, ◌≤ℤ◌, ◌<ℤ◌, ◌-ℤ◌, InRange, -ℤ_parts, min_ℤ, sub64, sub64_of_InRange,
}
use httpcache.Directives.{Directives, max_age, min_fresh, max_stale}
use httpcache.Freshness.{Calendar, Age, judge, limit_life, too_short}
use httpcache.Time.{Duration}

-- The age is below the limit that a directive sets, where it sets a positive one.
abbrev pub Below : Duration → Option Duration → Type 0
Below age none = Unit {0}
Below age (some d) = pos 0 <ℤ d → age <ℤ d

-- The response stays fresh for as long as a directive asks.
abbrev pub StaysFresh : Duration → Duration → Option Duration → Type 0
StaysFresh age life none = Unit {0}
StaysFresh age life (some d) = pos 0 <ℤ d → (age ≤ℤ life) × (d ≤ℤ (life -ℤ age))

difference-InRange : (a b : ℤ) → pos 0 ≤ℤ a → pos 0 ≤ℤ b → InRange a → InRange b → InRange (a -ℤ b)
unfolding ◌-ℤ◌
difference-InRange a b h k r q = ground (arith, r.above, q.above)

-- `min-fresh` is computed without overflow.
short_exact :
    (age life d : ℤ)
    → pos 0 ≤ℤ life
    → InRange life
    → pos 0 ≤ℤ age
    → InRange age
    → sub64 life age ≡ life -ℤ age
short_exact age life d h r k q = sub64_of_InRange life age (difference-InRange life age h k r q)

limit_life-bounds :
    (cal : Calendar) (age : Duration) (d : Option Duration) (life : Duration)
    → pos 0 ≤ℤ life
    → InRange life
    → (pos 0 ≤ℤ limit_life cal d life)
      × InRange (limit_life cal d life)
      × (age <ℤ limit_life cal d life → (age <ℤ life) × Below age d)
unfolding min_ℤ
limit_life-bounds cal age none life h r = (h, r, λ k. (k, tt))
limit_life-bounds cal age (some d) life h r = ground (arith, r, r.above)

too_short-StaysFresh :
    (cal : Calendar) (age life : Duration) (d : Option Duration)
    → pos 0 ≤ℤ life
    → InRange life
    → pos 0 ≤ℤ age
    → InRange age
    → age <ℤ life
    → too_short cal d life age ≡ false
    → StaysFresh age life d
too_short-StaysFresh cal age life none h r k q l e = tt
too_short-StaysFresh cal age life (some d) h r k q l e =
    let exact = short_exact age life d h r k q in λ p. (omega arith, ground (arith, exact))

module _ (cal : Calendar) (age : Age) (life : Duration) (cc : Directives) where
  judge_of_fresh :
      max_stale cc ≡ none
      → (judge cal age life cc).is_stale ≡ false
      → let useful = limit_life cal (max_age cc) life in
        (too_short cal (min_fresh cc) useful age.value ≡ false)
        × (age.value <ℤ useful)
        × ((judge cal age life cc).useful_life ≡ useful)
  unfolding judge
  judge_of_fresh m e = ground (arith, m)

  -- A response judged fresh under a request without `max-stale` is younger than its lifetime and
  -- than a positive `max-age` of the request, and it stays fresh for as long as `min-fresh` asks.
  -- The age and the lifetime are durations that are not negative.
  pub judge-fresh :
      pos 0 ≤ℤ age.value
      → InRange age.value
      → pos 0 ≤ℤ life
      → InRange life
      → max_stale cc ≡ none
      → (judge cal age life cc).is_stale ≡ false
      → (age.value <ℤ life)
        × Below age.value (max_age cc)
        × StaysFresh age.value (judge cal age life cc).useful_life (min_fresh cc)
  judge-fresh h r k q m e =
      let (short, younger, same) = judge_of_fresh m e in
      let (positive, ranged, bounds) = limit_life-bounds cal age.value (max_age cc) life k q in
      let useful = limit_life cal (max_age cc) life in
      let (a, b) = bounds younger in
      (
        a,
        b,
        rw same (
            too_short-StaysFresh cal age.value useful (min_fresh cc) positive ranged h r younger
              short),
      )

too_short-monotone :
    (cal : Calendar) (a b life : Duration) (d : Option Duration)
    → pos 0 ≤ℤ life
    → InRange life
    → pos 0 ≤ℤ a
    → a ≤ℤ b
    → InRange a
    → InRange b
    → too_short cal d life a ≡ true
    → too_short cal d life b ≡ true
too_short-monotone cal a b life none h r k l p q e = e
too_short-monotone cal a b life (some d) h r k l p q e = ground (
  arith,
  -ℤ_parts life a,
  -ℤ_parts life b,
  short_exact a life d h r k p,
  short_exact b life d h r (omega arith) q,
)

InRange-of_le : (a b : ℤ) → pos 0 ≤ℤ a → a ≤ℤ b → InRange b → InRange a
InRange-of_le (pos a) (pos b) h k r = record { above = omega (arith, r.above); below = omega arith }
InRange-of_le (pos a) (negsuc b) h k r = absurd (omega arith)
InRange-of_le (negsuc a) b h k r = absurd (omega arith)

-- A response that is judged stale at one age is judged stale at every greater age. The ages and the
-- lifetime are durations that are not negative.
pub judge-monotone :
    (cal : Calendar) (a b : Age) (life : Duration) (cc : Directives)
    → pos 0 ≤ℤ a.value
    → a.value ≤ℤ b.value
    → InRange b.value
    → pos 0 ≤ℤ life
    → InRange life
    → (judge cal a life cc).is_stale ≡ true
    → (judge cal b life cc).is_stale ≡ true
unfolding judge
judge-monotone cal a b life dirs h l r k q e =
    let (positive, ranged, _) = limit_life-bounds cal a.value (max_age dirs) life k q in
    let useful = limit_life cal (max_age dirs) life in
    let narrow : InRange a.value = InRange-of_le a.value b.value h l r in
    ground (
      arith,
      too_short-monotone cal a.value b.value useful (min_fresh dirs) positive ranged h l narrow r,
    )
