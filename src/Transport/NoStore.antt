-- ===== src/Transport/NoStore.antt =====
-- Misses and `no-store`.
use httpcache.Base.{◌≡◌, refl, ◌⊎◌, true, false, Option, none, some, arith, ℕ}
use httpcache.Bytes.{Bytes, codes, str_eq}
use httpcache.Cacheability.{can_store_response}
use httpcache.Directives.{Directives, parse_cc_directives, no_store}
use httpcache.Entry.{ResponseRefs}
use httpcache.Http
use httpcache.Http.{Request, Response, Header, canonical_key}
use httpcache.Http.Laws.{get-set}
use httpcache.Time.{Time, Dates, fix_date_header}
use httpcache.Transport.{Timed, timed, round_trip_timed, after_miss, handle_cache_miss}
use httpcache.World.{Env, World, send}

get-set_date :
    (v : Bytes) (h : Header)
    → Http.get (codes "Cache-Control") (Http.set (codes "Date") v h)
      ≡ Http.get (codes "Cache-Control") h
unfolding canonical_key str_eq
get-set_date v h = get-set (codes "Date") (codes "Cache-Control") v h

get-fix_date_header :
    (dates : Dates) (h : Header) (t : Time)
    → Http.get (codes "Cache-Control") (fix_date_header dates h t).0
      ≡ Http.get (codes "Cache-Control") h
unfolding fix_date_header
get-fix_date_header dates h t = ground (arith, get-set_date (dates.format_time t) h)

parse-fix_date_header :
    (dates : Dates) (h : Header) (t : Time)
    → parse_cc_directives (fix_date_header dates h t).0 ≡ parse_cc_directives h
unfolding parse_cc_directives
parse-fix_date_header dates h t = rw (get-fix_date_header dates h t) refl

can_store-of_no_store :
    (resp : Response) (req_cc res_cc : Directives)
    → (no_store req_cc ≡ true) ⊎ (no_store res_cc ≡ true)
    → can_store_response resp req_cc res_cc ≡ false
unfolding can_store_response
can_store-of_no_store resp req_cc res_cc h = ground (arith, h)

module _ {S : Type 0} (env : Env S) (req : Request) (key : Bytes) (refs : ResponseRefs)
    (i : Option ℕ) where
  -- `no-store` on the side of the request or of the answer.
  abbrev pub ForbidsStoring : Option Response → Type 0
  ForbidsStoring none = Unit {0}
  ForbidsStoring (some resp) =
      (no_store (parse_cc_directives req.header) ≡ true)
      ⊎ (no_store (parse_cc_directives resp.header) ≡ true)

  abbrev TimedForbids : Option Timed → Type 0
  TimedForbids none = Unit {0}
  TimedForbids (some t) = ForbidsStoring (some t.response)

  store-after_miss :
      (t : Option Timed) (w : World S)
      → TimedForbids t
      → (after_miss env req key refs i t w).1.store ≡ w.store
  unfolding after_miss
  store-after_miss none w h = refl
  store-after_miss (some t) w h =
      rw
        (can_store-of_no_store t.response (parse_cc_directives req.header)
          (parse_cc_directives t.response.header) h)
        refl

  TimedForbids-of :
      (answer : Option Response) (start end : Time)
      → ForbidsStoring answer
      → TimedForbids (timed env start end answer)
  TimedForbids-of none start end h = tt
  TimedForbids-of (some resp) start end h =
      rw (parse-fix_date_header env.cal.dates resp.header end) h

  -- A miss stores nothing where the request or the origin's answer says `no-store`.
  pub store-handle_cache_miss_of_no_store :
      (w : World S)
      → ForbidsStoring (env.origin w.sent req)
      → (handle_cache_miss env req key refs i w).1.store ≡ w.store
  unfolding handle_cache_miss round_trip_timed send
  store-handle_cache_miss_of_no_store w h = ground (
    arith,
    store-after_miss (round_trip_timed env req w).0 (round_trip_timed env req w).1
        (TimedForbids-of (env.origin w.sent req) _ _ h),
  )
