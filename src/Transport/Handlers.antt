-- ===== src/Transport/Handlers.antt =====
-- roundtripper.go: the answer to an unrecognised method and to a miss, a hit that is served, and the
-- timed round trip.
use httpcache.Base.{ℕ, not, [], ◌∷◌, List, Option, none, some, if◌then◌else◌}
use httpcache.Base.Int.{pos}
use httpcache.Bytes.{Bytes, codes}
use httpcache.Cache
use httpcache.Cacheability.{can_store_response}
use httpcache.Directives.{Directives, parse_cc_directives, only_if_cached}
use httpcache.Entry.{Stored, ResponseRefs}
use httpcache.Freshness.{Freshness}
use httpcache.Http
use httpcache.Http.{Header, Request, Response}
use httpcache.Invalidator.{invalidate_cache}
use httpcache.Log.Calls.{
  LogMethod, LogCall, index_of, cache_hit, cache_miss, cache_stale_revalidate, cache_bypass,
}
use httpcache.Message.{
  apply_status, hit, miss, stale, bypass, is_unsafe_method, is_non_error_status, set_age_header,
  with_conditional_headers, gateway_timeout,
}
use httpcache.Time.{Time, now, fix_date_header}
use httpcache.Validation.{store_response_at}
use httpcache.World.{Env, Action, pure, clocked, on_store, send, spawn, log, ◌>>=◌, ◌>>◌}

-- A response of the origin, and when the request was sent and the response came.
pub record Timed : Type 0 where
  pub response : Response
  pub start : Time
  pub end : Time

abbrev safe_message : Bytes
safe_message = codes "Bypass; unrecognized (safe) method, served from upstream."

abbrev unsafe_message : Bytes
unsafe_message = codes "Bypass; unrecognized (unsafe) method, served from upstream."

-- The call of LogCacheMiss; the directives of the response are there once the origin has answered.
abbrev pub missed : Request → Bytes → ResponseRefs → Option ℕ → Option Directives → LogCall
missed req url_key refs ref_index cc_resp = record {
  method = cache_miss;
  request = req;
  url_key = url_key;
  misc = some (record {
    cc_req = some (parse_cc_directives req.header);
    cc_resp = cc_resp;
    stored = none;
    freshness = none;
    refs = refs;
    ref_index = index_of ref_index;
  });
}

-- The call for a stored response that is served.
abbrev pub served : LogMethod → Request → Bytes → Option Directives → Stored → Freshness → LogCall
served method req url_key cc_req stored freshness = record {
  method = method;
  request = req;
  url_key = url_key;
  misc = some (record {
    cc_req = cc_req;
    cc_resp = none;
    stored = some stored;
    freshness = some freshness;
    refs = [];
    ref_index = pos 0;
  });
}

module _ {S : Type 0} (env : Env S) where
  abbrev pub timed : Time → Time → Option Response → Option Timed
  timed start end none = none
  timed start end (some resp) = some (record {
    response = record resp { header = (fix_date_header env.cal.dates resp.header end).0 };
    start = start;
    end = end;
  })

  -- roundTripTimed
  unfoldable pub round_trip_timed : Request → Action S (Option Timed)
  round_trip_timed req = do
    start ← clocked (now env.cal.clock)
    answer ← send env req
    end ← clocked (now env.cal.clock)
    pure (timed start end answer)

  abbrev pub or_no_refs : Option ResponseRefs → ResponseRefs
  or_no_refs none = []
  or_no_refs (some refs) = refs

  abbrev pub invalidate_after : Request → Bytes → Response → Action S (Unit {0})
  invalidate_after req url_key resp w =
      on_store
        (invalidate_cache env.conn env.codec env.urls req.url resp.header
          (or_no_refs (Cache.get_refs env.conn env.codec url_key w.store)) url_key)
        w

  abbrev pub bypassed : Request → Bytes → Bytes → LogCall
  bypassed req url_key message = record {
    method = cache_bypass message;
    request = req;
    url_key = url_key;
    misc = none;
  }

  -- The answer to an unsafe request.
  abbrev pub after_unsafe : Request → Bytes → Option Response → Action S (Option Response)
  after_unsafe req url_key none = pure none
  after_unsafe req url_key (some resp) =
      if is_non_error_status resp.status_code
      then (do
        invalidate_after req url_key resp
        log (bypassed req url_key unsafe_message)
        pure (some (apply_status bypass resp)))
      else (do log (bypassed req url_key unsafe_message); pure (some (apply_status bypass resp)))

  abbrev pub after_safe : Request → Bytes → Option Response → Action S (Option Response)
  after_safe req url_key none = pure none
  after_safe req url_key (some resp) = do
    log (bypassed req url_key safe_message)
    pure (some (apply_status bypass resp))

  -- handleUnrecognizedMethod
  unfoldable pub handle_unrecognized_method : Request → Bytes → Action S (Option Response)
  handle_unrecognized_method req url_key =
      if not (is_unsafe_method req.method)
      then (do answer ← send env req; after_safe req url_key answer)
      else do answer ← send env req; after_unsafe req url_key answer

  -- The rest of handleCacheMiss, once the origin has answered.
  unfoldable pub after_miss :
      Request → Bytes → ResponseRefs → Option ℕ → Option Timed → Action S (Option Response)
  after_miss req url_key refs ref_index none = pure none
  after_miss req url_key refs ref_index (some t) =
      let cc_resp = parse_cc_directives t.response.header in
      if can_store_response t.response (parse_cc_directives req.header) cc_resp
      then (do
        kept ← store_response_at env req t.response url_key refs t.start t.end ref_index
        log (missed req url_key refs ref_index (some cc_resp))
        pure (some (apply_status miss kept)))
      else (do
        log (missed req url_key refs ref_index (some cc_resp))
        pure (some (apply_status miss t.response)))

  -- handleCacheMiss
  unfoldable pub handle_cache_miss :
      Request → Bytes → ResponseRefs → Option ℕ → Action S (Option Response)
  handle_cache_miss req url_key refs ref_index =
      if only_if_cached (parse_cc_directives req.header)
      then (do log (missed req url_key refs ref_index none); pure (some gateway_timeout))
      else do answer ← round_trip_timed req; after_miss req url_key refs ref_index answer

  abbrev pub del_fields : List Bytes → Header → Header
  del_fields [] h = h
  del_fields (k ∷ ks) h = del_fields ks (Http.del k h)

  abbrev pub strip_fields : Option (List Bytes) → Response → Response
  strip_fields none resp = resp
  strip_fields (some fields) resp = record resp { header = del_fields fields resp.header }

  -- serveFromCache; the fields are those of a qualified `no-cache`
  unfoldable pub serve_from_cache :
      Request → Bytes → Stored → Freshness → Option (List Bytes) → Action S (Option Response)
  serve_from_cache req url_key stored freshness no_cache_fields = do
    aged ← clocked (
        set_age_header env.cal.clock env.whole_seconds
          (strip_fields no_cache_fields stored.response) freshness.age)
    let resp = apply_status hit aged
    log (served cache_hit req url_key none (record stored { response = resp }) freshness)
    pure (some resp)

  -- handleStaleWhileRevalidate. The goroutine shares the response with the caller: it reads it once
  -- the origin has answered, when the status has been set, and finds what the caller has left of the
  -- body.
  unfoldable pub handle_stale_while_revalidate :
      Request → Stored → Bytes → Freshness → Directives → Action S (Option Response)
  handle_stale_while_revalidate req stored url_key freshness cc_req = do
    let marked = record stored { response = apply_status stale stored.response }
    spawn (record {
      request = with_conditional_headers req stored.response.header;
      stored = marked;
      url_key = url_key;
      freshness = freshness;
      cc_req = cc_req;
    })
    log (served cache_stale_revalidate req url_key (some cc_req) marked freshness)
    pure (some marked.response)
