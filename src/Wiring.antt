-- ===== src/Wiring.antt =====
-- roundtripper.go: NewTransport and newTransport, with internal/responsecache.go and entry.go for the
-- encoding of what is kept.
pub mod Words
pub mod Repeat
pub mod Encodings
use httpcache.Base.{List, Option, none, some}
use httpcache.Base.Int.{ℤ}
use httpcache.Bytes.{Bytes}
use httpcache.Cache.{Codec}
use httpcache.Entry.{ResponseRefs}
use httpcache.Entry.Encoding.{Wire, marshal_binary, parse_response}
use httpcache.Freshness.{Calendar}
use httpcache.Http.{Request, Response}
use httpcache.Invalidator.{Urls}
use httpcache.Registry.{Opened, opened, invalid_dsn, unknown_driver, driver_failed}
use httpcache.Store.{Conn}
use httpcache.Time.{Duration}
use httpcache.Vary.Normalize.Fields.{normalize_header_value}
use httpcache.Vary.Normalize.Quality.{Quality}
use httpcache.World.{Env}

-- encoding/json on the list of references.
pub record Json : Type 0 where
  pub marshal_refs : ResponseRefs → Option Bytes
  pub unmarshal_refs : Bytes → Option ResponseRefs

-- MarshalBinary, ParseResponse, and the JSON form of references.
abbrev pub wire_codec : Wire → Json → Codec
wire_codec wire json = record {
  marshal = marshal_binary wire;
  parse = parse_response wire;
  marshal_refs = json.marshal_refs;
  unmarshal_refs = json.unmarshal_refs;
}

-- What a transport calls outside the repository.
pub record Outside (Q : Type 0) : Type 0 where
  pub wire : Wire
  pub json : Json
  pub quality : Quality Q
  pub cal : Calendar
  pub urls : Urls
  pub whole_seconds : Duration → ℤ
  pub origin : List Request → Request → Option Response

module _ {S Q : Type 0} (o : Outside Q) where
  -- newTransport on a backend; its options are in Options.
  abbrev pub wired : Conn S → Env S
  wired conn = record {
    conn = conn;
    codec = wire_codec o.wire o.json;
    cal = o.cal;
    urls = o.urls;
    normalize = normalize_header_value o.quality;
    whole_seconds = o.whole_seconds;
    origin = o.origin;
  }

  -- NewTransport on what store.Open gives; `none` is the panic with ErrOpenCache.
  unfoldable pub new_transport : Opened (Conn S) → Option (Env S)
  new_transport (opened conn) = some (wired conn)
  new_transport invalid_dsn = none
  new_transport unknown_driver = none
  new_transport driver_failed = none
