-- ===== src/Registry.antt =====
-- store/internal/registry/registry.go and store/cache.go: the drivers of cache backends, by name.
-- Each method holds the lock while it uses the map, so a call is one step on the map.
use httpcache.Base.{◌≡◌, refl, false, map, List, [], Option, none, some, arith, if◌then◌else◌}
use httpcache.Bytes.{Bytes, str_eq, str_eq_refl}
use httpcache.Dict
use httpcache.Dict.{Dict, get-put}
use httpcache.Http.{Url}
use httpcache.Vary.Normalize.{sort}

-- The result of OpenConn, with the error of url.Parse, ErrUnknownDriver, and what the driver says.
pub data Opened (C : Type 0) : Type 0 where
  opened : C → Opened C
  invalid_dsn unknown_driver driver_failed : Opened C

-- Driver; `none` for an error of Open
abbrev pub Driver : Type 0 → Type 0
Driver C = Url → Option C

module _ {C : Type 0} where
  -- New
  abbrev pub no_drivers : Dict (Driver C)
  no_drivers = []

  -- RegisterDriver; a nil driver is `none`, and so is the result of a panic
  unfoldable pub register_driver :
      Bytes → Option (Driver C) → Dict (Driver C) → Option (Dict (Driver C))
  register_driver name none drivers = none
  register_driver name (some driver) drivers =
      if Dict.has name drivers then none else some (Dict.put name driver drivers)

  -- Drivers
  unfoldable pub driver_names : Dict (Driver C) → List Bytes
  driver_names drivers = sort (map (λ p. p.0) drivers)

  abbrev pub from_driver : Option C → Opened C
  from_driver none = driver_failed
  from_driver (some conn) = opened conn

  abbrev open_with : Url → Option (Driver C) → Opened C
  open_with u none = unknown_driver
  open_with u (some driver) = from_driver (driver u)

  abbrev open_url : Dict (Driver C) → Option Url → Opened C
  open_url drivers none = invalid_dsn
  open_url drivers (some u) = open_with u (Dict.get u.scheme drivers)

  -- OpenConn
  unfoldable pub open_conn : (Bytes → Option Url) → Dict (Driver C) → Bytes → Opened C
  open_conn parse drivers dsn = open_url drivers (parse dsn)

  -- A registration succeeds exactly once for a name: a DSN of that scheme is then opened by the
  -- driver, one of another scheme as before, and a second registration of the name panics.
  pub register_driver_lem :
      (parse : Bytes → Option Url) (name : Bytes) (driver other : Driver C)
      (drivers : Dict (Driver C)) (dsn : Bytes) (u : Url)
      → Dict.has name drivers ≡ false
      → parse dsn ≡ some u
      → let after = Dict.put name driver drivers in
        (register_driver name (some driver) drivers ≡ some after)
        × (open_conn parse after dsn ≡ (
            if str_eq name u.scheme then from_driver (driver u) else open_conn parse drivers dsn))
        × (register_driver name (some other) after ≡ none)
  unfolding register_driver open_conn Dict.has
  register_driver_lem parse name driver other drivers dsn u h e = (
    rw h refl,
    rw e (ground (arith, get-put name u.scheme driver drivers)),
    ground (arith, get-put name name driver drivers, str_eq_refl name),
  )
