-- ===== src/Options.antt =====
-- options.go, and the defaults of newTransport (roundtripper.go).
use httpcache.Base.{◌≡◌, refl, true, List, [], ◌∷◌, Option, none, some, arith, if◌then◌else◌}
use httpcache.Base.Int.{pos, leb_ℤ, ◌<ℤ◌}
use httpcache.Time.{Duration}

-- The fields of `transport` that options set: a round tripper `U`, and the handler `L` of a logger.
pub record Config (U L : Type 0) : Type 0 where
  pub upstream : Option U
  pub swr_timeout : Duration
  pub logger : Option L

-- WithUpstream, WithSWRTimeout, WithLogger; a nil argument is `none`
pub data Setting (U L : Type 0) : Type 0 where
  with_upstream : Option U → Setting U L
  with_swr_timeout : Duration → Setting U L
  with_logger : Option L → Setting U L

-- DefaultSWRTimeout
abbrev pub default_swr_timeout : Duration
default_swr_timeout = pos 5_000_000_000

-- What newTransport leaves after the defaults.
pub record Settled (U L : Type 0) : Type 0 where
  pub upstream : U
  pub swr_timeout : Duration
  pub logger : L

abbrev or_else : {A : Type 0} → Option A → A → A
or_else none d = d
or_else (some a) d = a

-- `cmp.Or(max(d, 0), DefaultSWRTimeout)`
abbrev or_default : Duration → Duration
or_default d = if leb_ℤ d (pos 0) then default_swr_timeout else d

module _ {U L : Type 0} where
  abbrev logger_or_kept : Option L → Config U L → Config U L
  logger_or_kept none c = c
  logger_or_kept (some l) c = record c { logger = some l }

  -- Option.apply
  unfoldable pub apply : Setting U L → Config U L → Config U L
  apply (with_upstream u) c = record c { upstream = u }
  apply (with_swr_timeout d) c = record c { swr_timeout = d }
  apply (with_logger l) c = logger_or_kept l c

  unfoldable pub apply_all : List (Setting U L) → Config U L → Config U L
  apply_all [] c = c
  apply_all (o ∷ os) c = apply_all os (apply o c)

  -- The options and defaults of newTransport.
  unfoldable pub settle : U → L → List (Setting U L) → Settled U L
  settle default_transport discard options =
      let c = apply_all options (record { upstream = none; swr_timeout = pos 0; logger = none }) in
      record {
        upstream = or_else c.upstream default_transport;
        swr_timeout = or_default c.swr_timeout;
        logger = or_else c.logger discard;
      }

  -- The timeout that the last such option of a list sets, or else the one given.
  abbrev pub last_timeout : List (Setting U L) → Duration → Duration
  last_timeout [] d = d
  last_timeout (with_upstream u ∷ os) d = last_timeout os d
  last_timeout (with_swr_timeout t ∷ os) d = last_timeout os t
  last_timeout (with_logger l ∷ os) d = last_timeout os d

  swr_timeout-apply_all :
      (os : List (Setting U L)) (c : Config U L)
      → (apply_all os c).swr_timeout ≡ last_timeout os c.swr_timeout
  unfolding apply_all apply
  swr_timeout-apply_all [] c = refl
  swr_timeout-apply_all (with_upstream u ∷ os) c = swr_timeout-apply_all os _
  swr_timeout-apply_all (with_swr_timeout t ∷ os) c = swr_timeout-apply_all os _
  swr_timeout-apply_all (with_logger none ∷ os) c = swr_timeout-apply_all os c
  swr_timeout-apply_all (with_logger (some l) ∷ os) c = swr_timeout-apply_all os _

  -- The timeout of background revalidations is positive whatever the options say: the last one that
  -- is set, if it is positive, and else five seconds.
  pub settle_lem :
      (default_transport : U) (discard : L) (options : List (Setting U L))
      → let t = (settle default_transport discard options).swr_timeout in
        (pos 0 <ℤ t)
        × (pos 0 <ℤ last_timeout options (pos 0) → t ≡ last_timeout options (pos 0))
        × (leb_ℤ (last_timeout options (pos 0)) (pos 0) ≡ true → t ≡ default_swr_timeout)
  unfolding settle
  settle_lem default_transport discard options =
      let e =
        swr_timeout-apply_all options
          (record { upstream = none; swr_timeout = pos 0; logger = none }) in
      rw e (ground arith)
