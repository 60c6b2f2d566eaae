-- ===== src/Message.antt =====
-- Header and status helpers: internal/helpers.go, internal/header.go, requestmethodchecker.go, and
-- withConditionalHeaders and make504Response of helpers.go.
pub mod Hops
pub mod Labels
use httpcache.Base.{
  ℕ, Bool, true, false, not, ◌||◌, ◌&&◌, List, [], ◌∷◌, ◌++◌, Option, none, some, map, ltb, leb,
  ◌==◌, if◌then◌else◌,
}
use httpcache.Base.Int.{pos, ℤ, add64, max_ℤ}
use httpcache.Bytes.{Bytes, codes, str_eq}
use httpcache.Dict
use httpcache.Http
use httpcache.Http.{Header, Request, Response, canonical_key}
use httpcache.Text.Csv.{trimmed_csv}
use httpcache.Text.Decimal.{itoa}
use httpcache.Time.{Duration, Clocked, Readings, since}
use httpcache.Freshness.{Age}

-- TrimmedCSVCanonical
unfoldable pub trimmed_csv_canonical : Bytes → List Bytes
trimmed_csv_canonical s = map canonical_key (trimmed_csv s)

unfoldable pub contains : List Bytes → Bytes → Bool
contains [] k = false
contains (j ∷ ks) k = str_eq j k || contains ks k

abbrev pub hop_fields : List Bytes
hop_fields =
    codes "Connection"
    ∷ codes "Proxy-Connection"
    ∷ codes "Keep-Alive"
    ∷ codes "TE"
    ∷ codes "Transfer-Encoding"
    ∷ codes "Upgrade"
    ∷ codes "Proxy-Authenticate"
    ∷ codes "Proxy-Authentication-Info"
    ∷ codes "Proxy-Authorization"
    ∷ []

-- hopByHopHeaders: the keys of the map
unfoldable pub hop_by_hop_headers : Header → List Bytes
hop_by_hop_headers h = hop_fields ++ trimmed_csv_canonical (Http.get (codes "Connection") h)

unfoldable pub remove_all : List Bytes → Header → Header
remove_all [] h = h
remove_all (k ∷ ks) h = remove_all ks (Dict.remove k h)

-- removeHopByHopHeaders
unfoldable pub remove_hop_by_hop_headers : Response → Response
remove_hop_by_hop_headers resp = record resp {
  header = remove_all (hop_by_hop_headers resp.header) resp.header;
}

-- The loop of mergeResponseHeaders over the source's fields.
unfoldable pub merge_fields : List Bytes → Header → Header → Header
merge_fields skipped [] target = target
merge_fields skipped ((k, vs) ∷ src) target =
    merge_fields skipped src (if contains skipped k then target else Dict.put k vs target)

-- mergeResponseHeaders
unfoldable pub merge_response_headers : Response → Header → Response
merge_response_headers target src = record target {
  header = merge_fields (codes "Content-Length" ∷ hop_by_hop_headers src) src target.header;
}

-- isStaleErrorAllowed
unfoldable pub is_stale_error_allowed : ℕ → Bool
is_stale_error_allowed code = code == 500 || code == 502 || code == 503 || code == 504

-- IsUnsafeMethod
unfoldable pub is_unsafe_method : Bytes → Bool
is_unsafe_method m =
    str_eq m (codes "POST")
    || str_eq m (codes "PUT")
    || str_eq m (codes "DELETE")
    || str_eq m (codes "PATCH")

-- IsNonErrorStatus
unfoldable pub is_non_error_status : ℕ → Bool
is_non_error_status status = leb 200 status && ltb status 400

-- isRequestMethodUnderstood
unfoldable pub is_request_method_understood : Request → Bool
is_request_method_understood req =
    str_eq req.method (codes "GET") && str_eq (Http.get (codes "Range") req.header) []

-- CacheStatus
pub record CacheStatus : Type 0 where
  pub value : Bytes
  pub legacy : Bytes

abbrev pub hit : CacheStatus
hit = record { value = codes "HIT"; legacy = codes "1" }

abbrev pub miss : CacheStatus
miss = record { value = codes "MISS"; legacy = [] }

abbrev pub stale : CacheStatus
stale = record { value = codes "STALE"; legacy = codes "1" }

abbrev pub revalidated : CacheStatus
revalidated = record { value = codes "REVALIDATED"; legacy = codes "1" }

abbrev pub bypass : CacheStatus
bypass = record { value = codes "BYPASS"; legacy = [] }

abbrev pub set_legacy : Bytes → Header → Header
set_legacy [] h = h
set_legacy (c ∷ v) h = Http.set (codes "X-From-Cache") (c ∷ v) h

-- CacheStatus.ApplyTo, on the header of a response
unfoldable pub apply_status : CacheStatus → Response → Response
apply_status s resp = record resp {
  header = set_legacy s.legacy (Http.set (codes "X-Httpcache-Status") s.value resp.header);
}

-- SetAgeHeader; `whole_seconds d` is `int(d.Seconds())`
unfoldable pub set_age_header :
    (clock : Readings) (whole_seconds : Duration → ℤ) → Response → Age → Clocked Response
set_age_header clock whole_seconds resp age n =
    let (elapsed, n') = since clock age.timestamp n in
    let adjusted = max_ℤ (add64 age.value elapsed) (pos 0) in
    (
      record resp { header = Http.set (codes "Age") (itoa (whole_seconds adjusted)) resp.header },
      n',
    )

abbrev set_unless_empty : Bytes → Bytes → Request → Request
set_unless_empty field [] req = req
set_unless_empty field (c ∷ v) req = record req { header = Http.set field (c ∷ v) req.header }

-- withConditionalHeaders
unfoldable pub with_conditional_headers : Request → Header → Request
with_conditional_headers req stored =
    set_unless_empty (codes "If-Modified-Since") (Http.get (codes "Last-Modified") stored)
      (set_unless_empty (codes "If-None-Match") (Http.get (codes "ETag") stored) req)

-- The response that make504Response writes and reads back: the status and the fields that are
-- written, with an empty body.
abbrev pub gateway_timeout : Response
gateway_timeout = record {
  status_code = 504;
  header =
      (codes "Cache-Control", codes "no-cache" ∷ [])
      ∷ (codes "Content-Length", codes "0" ∷ [])
      ∷ (codes "X-Httpcache-Status", codes "BYPASS" ∷ [])
      ∷ (codes "Connection", codes "close" ∷ [])
      ∷ [];
  body = [];
  closed = false;
}
