-- ===== src/Validation.antt =====
-- internal/validationresponsehandler.go: the answer of the origin to a revalidation.
pub mod StaleError
use httpcache.Base.{ℕ, ◌&&◌, ◌==◌, [], ◌∷◌, Option, none, some, if◌then◌else◌}
use httpcache.Bytes.{Bytes, codes, str_eq}
use httpcache.Cacheability.{can_store_response, can_stale_on_error}
use httpcache.Directives.{Directives, parse_cc_directives}
use httpcache.Entry.{Stored, ResponseRefs}
use httpcache.Freshness.{Freshness}
use httpcache.Http.{Request, Response}
use httpcache.Invalidator.{invalidate_cache}
use httpcache.Log.{Misc}
use httpcache.Log.Calls.{
  LogMethod, LogCall, index_of, cache_miss, cache_stale_if_error, cache_revalidated, cache_bypass,
}
use httpcache.Message.{
  merge_response_headers, apply_status, miss, stale, revalidated, bypass, is_stale_error_allowed,
  is_unsafe_method, is_non_error_status, set_age_header,
}
use httpcache.Storer.{store_response}
use httpcache.Time.{Time}
use httpcache.World.{Env, Action, pure, clocked, on_store, log, ◌>>=◌, ◌>>◌}

-- RevalidationContext
pub record Context : Type 0 where
  pub url_key : Bytes
  pub start : Time
  pub end : Time
  pub cc_req : Directives
  pub stored : Stored
  pub freshness : Freshness
  pub refs : ResponseRefs
  pub ref_index : Option ℕ

-- ToMisc
abbrev pub to_misc : Context → Option Directives → Misc
to_misc ctx cc_resp = record {
  cc_req = some ctx.cc_req;
  cc_resp = cc_resp;
  stored = some ctx.stored;
  freshness = some ctx.freshness;
  refs = ctx.refs;
  ref_index = index_of ctx.ref_index;
}

-- The call of the logger at the end of a branch of HandleValidationResponse.
abbrev pub call_in : Context → Request → Option Directives → LogMethod → LogCall
call_in ctx req cc_resp method = record {
  method = method;
  request = req;
  url_key = ctx.url_key;
  misc = some (to_misc ctx cc_resp);
}

-- The context once its stored response has changed.
abbrev pub with_response : Context → Response → Context
with_response ctx resp = record ctx { stored = record ctx.stored { response = resp } }

abbrev serving : LogMethod
serving = cache_bypass (codes "Bypass; serving upstream response")

module _ {S : Type 0} (env : Env S) where
  -- StoreResponse, whose error is dropped; the response comes back without hop-by-hop fields.
  unfoldable pub store_response_at :
      Request → Response → Bytes → ResponseRefs → Time → Time → Option ℕ → Action S Response
  store_response_at req resp url_key refs start end ref_index w =
      let kept =
        store_response env.conn env.codec env.cal.dates env.normalize req resp url_key refs start
          end ref_index w.store in
      (kept.response, record w { store = kept.state })

  -- The end of HandleValidationResponse: the origin's response is returned.
  unfoldable pub use_response : Context → Request → Response → Directives → Action S Response
  use_response ctx req resp cc_resp =
      if can_store_response resp ctx.cc_req cc_resp
      then (do
        kept ← store_response_at req resp ctx.url_key ctx.refs ctx.start ctx.end ctx.ref_index
        log (call_in ctx req (some cc_resp) cache_miss)
        pure (apply_status miss kept))
      else if is_unsafe_method req.method && is_non_error_status resp.status_code
      then (do
        on_store
            (invalidate_cache env.conn env.codec env.urls req.url resp.header ctx.refs ctx.url_key)
        log (call_in ctx req (some cc_resp) serving)
        pure (apply_status bypass resp))
      else (do log (call_in ctx req (some cc_resp) serving); pure (apply_status bypass resp))

  -- The stored response is returned although the origin has failed.
  unfoldable pub serve_stale : Context → Request → Directives → Action S Response
  serve_stale ctx req cc_resp = do
    aged ←
        clocked
          (set_age_header env.cal.clock env.whole_seconds ctx.stored.response ctx.freshness.age)
    let resp = apply_status stale aged
    log (call_in (with_response ctx resp) req (some cc_resp) cache_stale_if_error)
    pure resp

  -- HandleValidationResponse
  unfoldable pub handle_validation_response : Context → Request → Response → Action S Response
  handle_validation_response ctx req resp =
      let cc_resp = parse_cc_directives resp.header in
      let is_get = str_eq req.method (codes "GET") in
      if is_get && resp.status_code == 304
      then (do
        kept ←
            store_response_at req (merge_response_headers ctx.stored.response resp.header)
              ctx.url_key ctx.refs ctx.start ctx.end ctx.ref_index
        let resp = apply_status revalidated kept
        log (call_in (with_response ctx resp) req none cache_revalidated)
        pure resp)
      else if is_stale_error_allowed resp.status_code && is_get
      then (do
        allowed ← clocked (can_stale_on_error env.cal.clock ctx.freshness (cc_resp ∷ []))
        if allowed then serve_stale ctx req cc_resp else use_response ctx req resp cc_resp)
      else use_response ctx req resp cc_resp
