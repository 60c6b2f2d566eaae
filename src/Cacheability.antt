-- ===== src/Cacheability.antt =====
-- internal/cacheabilityevaluator.go
pub mod Rules
use httpcache.Base.{
  ℕ, Bool, true, false, not, ◌||◌, ◌&&◌, List, [], ◌∷◌, Option, none, some, ltb, leb, ◌==◌,
  if◌then◌else◌, suc,
}
use httpcache.Base.Int.{pos, ℤ, add64, leb_ℤ}
use httpcache.Bytes.{Bytes, codes, str_eq}
use httpcache.Directives.{
  Directives, must_understand, no_store, public, max_age_present, stale_if_error,
}
use httpcache.Freshness.{Freshness, is_heuristically_cacheable_code}
use httpcache.Http
use httpcache.Http.{Response}
use httpcache.Time.{Readings, Clocked, since, Duration}

-- isStatusUnderstood
unfoldable pub is_status_understood : ℕ → Bool
is_status_understood code =
    code == 200
    || code == 203
    || code == 301
    || code == 304
    || code == 404
    || code == 405
    || code == 410
    || code == 414
    || code == 501
    || code == 308

-- canStoreResponse
unfoldable pub can_store_response : Response → Directives → Directives → Bool
can_store_response resp req_cc res_cc =
    let code = resp.status_code in
    if ltb code 200 || code == 102 || leb 600 code
    then false
    else if (code == 206 || code == 304 || must_understand res_cc)
        && not (is_status_understood code)
    then false
    else if no_store res_cc || no_store req_cc
    then false
    else public res_cc
      || not (str_eq (Http.get (codes "Expires") resp.header) [])
      || max_age_present res_cc
      || is_heuristically_cacheable_code code

-- CanStaleOnError. The loop stops at the first directive that allows it, and each directive that is
-- valid reads the clock.
unfoldable pub can_stale_on_error : Readings → Freshness → List Directives → Clocked Bool
can_stale_on_error clock f [] n = (false, n)
can_stale_on_error clock f (d ∷ ds) n = elim (stale_if_error d) [
  | none ↦ can_stale_on_error clock f ds n
  | some dur ↦
      let (elapsed, n') = since clock f.age.timestamp n in
      let rest = can_stale_on_error clock f ds n' in
      if leb_ℤ (add64 f.age.value elapsed) (add64 f.useful_life dur) then (true, n') else rest
]
