-- ===== src/Entry.antt =====
-- internal/entry.go: a stored response with its metadata, and references to stored responses.
pub mod Encoding
pub mod RoundTrip
use httpcache.Base.{ℕ, Bool, true, false, List, [], ◌∷◌, Option, none, some, if◌then◌else◌}
use httpcache.Bytes.{Bytes, codes}
use httpcache.Dict.{Dict}
use httpcache.Http
use httpcache.Http.{Response}
use httpcache.Time.{Time, Dates, raw_time, or_zero, is_zero, zero_time}

-- Response of entry.go
pub record Stored : Type 0 where
  pub id : Bytes
  pub response : Response
  pub requested_at : Time
  pub received_at : Time

-- ResponseRef
pub record ResponseRef : Type 0 where
  pub response_id : Bytes
  pub vary : Bytes
  pub vary_resolved : Dict Bytes
  pub received_at : Time

-- ResponseRefs
abbrev pub ResponseRefs : Type 0
ResponseRefs = List ResponseRef

-- ResponseRefs.ResponseIDs
unfoldable pub response_ids : ResponseRefs → List Bytes
response_ids [] = []
response_ids (r ∷ refs) = r.response_id ∷ response_ids refs

-- The result of ExpiresHeader.
pub record Expires : Type 0 where
  pub time : Time
  pub found : Bool
  pub valid : Bool

module _ (dates : Dates) (allow_utc : Bool) where
  -- parseHTTPDateCompat, with `allow_utc` for the test of HTTPCACHE_ALLOW_UTC_DATETIMEFORMAT;
  -- `none` for an error
  unfoldable pub parse_http_date_compat : Bytes → Option Time
  parse_http_date_compat date = if allow_utc then dates.parse_rfc1123 date else some zero_time

  abbrev compat_expires : Option Time → Expires
  compat_expires none = record { time = zero_time; found = true; valid = false }
  compat_expires (some t) =
      if is_zero t
      then record { time = zero_time; found = true; valid = false }
      else record { time = t; found = true; valid = true }

  abbrev or_compat : Bytes → Option Time → Expires
  or_compat text none = compat_expires (parse_http_date_compat text)
  or_compat text (some t) = record { time = t; found = true; valid = true }

  abbrev expires_of : Bytes → Expires
  expires_of [] = record { time = zero_time; found = false; valid = false }
  expires_of (c ∷ s) = or_compat (c ∷ s) (raw_time dates (c ∷ s))

  -- ExpiresHeader
  unfoldable pub expires_header : Stored → Expires
  expires_header s = expires_of (Http.get (codes "Expires") s.response.header)

-- DateHeader
unfoldable pub date_header : Dates → Stored → Time
date_header dates s = or_zero (raw_time dates (Http.get (codes "Date") s.response.header))
