-- ===== src/Transport/Reports.antt =====
-- internal/log.go in the use that the transport makes of it: which calls of the logger a request
-- leads to, and what they say.
pub mod Requests
use httpcache.Base.{
  inl, inr, List, [], ◌∷◌, ◌++◌, ◌≡◌, ◌⊎◌, refl, Option, none, some, arith, ℕ, Bool-cases,
  get_elem?, ◌&&◌, ◌==◌,
}
use httpcache.Bytes.{Bytes, codes, str_eq}
use httpcache.Cache
use httpcache.Cacheability.{can_stale_on_error, can_store_response}
use httpcache.Directives.{
  Directives, parse_cc_directives, stale_while_revalidate, only_if_cached, response_no_cache,
}
use httpcache.Entry.{Stored, ResponseRefs}
use httpcache.Freshness.{Freshness}
use httpcache.Http
use httpcache.Http.{Request, Response}
use httpcache.Log.Calls.{LogCall, LogMethod, event_of, cache_miss, cache_bypass, cache_error}
use httpcache.Message.{
  hit, miss, stale, revalidated, bypass, gateway_timeout, is_non_error_status,
  is_request_method_understood, is_unsafe_method, is_stale_error_allowed,
}
use httpcache.Message.Labels.{status-apply_status, status-gateway_timeout}
use httpcache.Time.{Duration}
use httpcache.Transport.{
  Timed, round_trip_timed, unreadable, handle_unrecognized_method, after_miss, handle_cache_miss,
  serve_from_cache, handle_stale_while_revalidate, revalidate, in_swr_window, swr_or_revalidate,
  decide_cache_hit, handle_cache_hit, round_trip, validated, with_refs, with_match, with_entry,
  entry_at, fields_of, after_safe, after_unsafe,
}
use httpcache.Validation.{
  Context, store_response_at, use_response, serve_stale, handle_validation_response,
}
use httpcache.Vary.{vary_headers_match}
use httpcache.World.{Env, World, send, log}

-- Any call but one of LogCacheError.
abbrev pub IsOutcome : LogMethod → Type 0
IsOutcome (cache_error message) = ⊥
IsOutcome _ = Unit {0}

-- The calls before and after a request for the key, and what the request returns. A request that
-- fails adds no call; any other adds one, whose event is the status field of the response, except
-- that the answer to `only-if-cached`, whose status is BYPASS, is logged as a miss.
pub data Reports (key : Bytes) (before : List LogCall)
    : List LogCall → Option Response → Type 0 where
  failed : Reports key before before none
  answered :
      (c : LogCall) (resp : Response)
      → c.url_key ≡ key
      → IsOutcome c.method
      → Http.get (codes "X-Httpcache-Status") resp.header ≡ (event_of c.method).value
      → Reports key before (before ++ c ∷ []) (some resp)
  only_cached :
      (c : LogCall)
      → c.url_key ≡ key
      → c.method ≡ cache_miss
      → Http.get (codes "X-Httpcache-Status") gateway_timeout.header ≡ bypass.value
      → Reports key before (before ++ c ∷ []) (some gateway_timeout)

module _ {S : Type 0} (env : Env S) where
  abbrev pub InReports : Bytes → World S → Option Response × World S → Type 0
  InReports key w (answer, w') = Reports key w.logged w'.logged answer

  use_response-Reports :
      (ctx : Context) (req : Request) (resp : Response) (cc : Directives) (w : World S)
      → let (answer, w') = use_response env ctx req resp cc w in
        Reports ctx.url_key w.logged w'.logged (some answer)
  unfolding use_response store_response_at
  use_response-Reports ctx req resp cc w =
      elim (Bool-cases (can_store_response resp ctx.cc_req cc)) [
        | inl keep ↦ rw keep (answered _ _ refl tt (status-apply_status miss _))
        | inr drop ↦ rw drop (elim (Bool-cases (is_unsafe_method req.method)) [
          | inl unsafe ↦ rw unsafe (elim (Bool-cases (is_non_error_status resp.status_code)) [
            | inl good ↦ rw good (answered _ _ refl tt (status-apply_status bypass resp))
            | inr bad ↦ rw bad (answered _ _ refl tt (status-apply_status bypass resp))
          ])
          | inr safe ↦ rw safe (answered _ _ refl tt (status-apply_status bypass resp))
        ])
      ]

  serve_stale-Reports :
      (ctx : Context) (req : Request) (cc : Directives) (w : World S)
      → let (answer, w') = serve_stale env ctx req cc w in
        Reports ctx.url_key w.logged w'.logged (some answer)
  unfolding serve_stale
  serve_stale-Reports ctx req cc w = answered _ _ refl tt (status-apply_status stale _)

  handle_validation_response-Reports :
      (ctx : Context) (req : Request) (resp : Response) (w : World S)
      → let (answer, w') = handle_validation_response env ctx req resp w in
        Reports ctx.url_key w.logged w'.logged (some answer)
  unfolding handle_validation_response store_response_at
  handle_validation_response-Reports ctx req resp w =
      let cc = parse_cc_directives resp.header in
      let is_get = str_eq req.method (codes "GET") in
      let (allowed, n) = can_stale_on_error env.cal.clock ctx.freshness (cc ∷ []) w.reads in
      let w' : World S = record w { reads = n } in
      elim (Bool-cases (is_get && resp.status_code == 304)) [
        | inl same ↦ rw same (answered _ _ refl tt (status-apply_status revalidated _))
        | inr other ↦
            rw other (elim (Bool-cases (is_stale_error_allowed resp.status_code && is_get)) [
              | inl error ↦ rw error (elim (Bool-cases allowed) [
                | inl ok ↦ rw ok (serve_stale-Reports ctx req cc w')
                | inr not_ok ↦ rw not_ok (use_response-Reports ctx req resp cc w')
              ])
              | inr fine ↦ rw fine (use_response-Reports ctx req resp cc w)
            ])
      ]

  after_miss-Reports :
      (req : Request) (key : Bytes) (refs : ResponseRefs) (i : Option ℕ) (t : Option Timed)
      (w : World S)
      → InReports key w (after_miss env req key refs i t w)
  unfolding after_miss store_response_at
  after_miss-Reports req key refs i none w = failed
  after_miss-Reports req key refs i (some t) w =
      let cc_resp = parse_cc_directives t.response.header in
      elim (Bool-cases (can_store_response t.response (parse_cc_directives req.header) cc_resp)) [
        | inl keep ↦ rw keep (answered _ _ refl tt (status-apply_status miss _))
        | inr drop ↦ rw drop (answered _ _ refl tt (status-apply_status miss t.response))
      ]

  pub miss-Reports :
      (req : Request) (key : Bytes) (refs : ResponseRefs) (i : Option ℕ) (w : World S)
      → InReports key w (handle_cache_miss env req key refs i w)
  unfolding handle_cache_miss round_trip_timed send
  miss-Reports req key refs i w =
      elim (Bool-cases (only_if_cached (parse_cc_directives req.header))) [
        | inl only ↦ rw only (only_cached _ refl refl status-gateway_timeout)
        | inr other ↦ rw other (after_miss-Reports req key refs i _ _)
      ]

  pub serve_from_cache-Reports :
      (req : Request) (key : Bytes) (stored : Stored) (f : Freshness) (fields : Option (List Bytes))
      (w : World S)
      → InReports key w (serve_from_cache env req key stored f fields w)
  unfolding serve_from_cache
  serve_from_cache-Reports req key stored f fields w =
      answered _ _ refl tt (status-apply_status hit _)

  validated-Reports :
      (req : Request) (stored : Stored) (key : Bytes) (refs : ResponseRefs) (i : Option ℕ)
      (f : Freshness) (t : Option Timed) (w : World S)
      → InReports key w (validated env req stored key refs i f t w)
  validated-Reports req stored key refs i f none w = failed
  validated-Reports req stored key refs i f (some t) w = handle_validation_response-Reports _ _ _ w

  pub revalidate-Reports :
      (req : Request) (stored : Stored) (key : Bytes) (refs : ResponseRefs) (i : Option ℕ)
      (f : Freshness) (w : World S)
      → InReports key w (revalidate env req stored key refs i f w)
  unfolding revalidate round_trip_timed send
  revalidate-Reports req stored key refs i f w = validated-Reports req stored key refs i f _ _

  pub stale_hit-Reports :
      (req : Request) (stored : Stored) (key : Bytes) (f : Freshness) (cc : Directives)
      (w : World S)
      → InReports key w (handle_stale_while_revalidate env req stored key f cc w)
  unfolding handle_stale_while_revalidate
  stale_hit-Reports req stored key f cc w =
      answered _ _ refl tt (status-apply_status stale stored.response)
