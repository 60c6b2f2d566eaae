-- ===== src/Transport/Split.antt =====
-- roundtripper.go: RoundTrip cut at its call of the upstream round tripper. What comes before the
-- call ends in a response, or in the variables that are kept while the origin works; what comes after
-- it takes the origin's answer.
pub mod Serial
pub mod Frames
pub mod Answers
pub mod Overwrites
use httpcache.Base.{
  ℕ, Bool, not, ◌||◌, ◌&&◌, [], ◌∷◌, ◌++◌, List, Option, none, some, get_elem?, if◌then◌else◌,
}
use httpcache.Bytes.{Bytes}
use httpcache.Cache
use httpcache.Directives.{
  Directives, parse_cc_directives, only_if_cached, immutable, request_no_cache, must_revalidate,
  response_no_cache, stale_while_revalidate,
}
use httpcache.Entry.{Stored, ResponseRef, ResponseRefs}
use httpcache.Freshness.{Freshness, calculate_freshness}
use httpcache.Http.{Request, Response}
use httpcache.Message.{
  is_unsafe_method, is_request_method_understood, with_conditional_headers, gateway_timeout,
}
use httpcache.Time.{Time, Duration, now}
use httpcache.Transport.{
  Timed, timed, missed, unreadable, after_safe, after_unsafe, after_miss, serve_from_cache,
  handle_stale_while_revalidate, validated, in_swr_window, fields_of, is_present, entry_at,
  after_background,
}
use httpcache.Vary.{vary_headers_match}
use httpcache.World.{
  Env, Task, World, Action, pure, clocked, log, ◌>>=◌, ◌>>◌, Moment, context_done, body_left,
}

-- The local variables of a call that waits for the origin, in handleUnrecognizedMethod,
-- handleCacheMiss, handleCacheHit and backgroundRevalidate. The time is that of the start.
pub data Waiting : Type 0 where
  passing : Request → Bytes → Waiting
  missing : Request → Bytes → ResponseRefs → Option ℕ → Time → Waiting
  validating : Request → Stored → Bytes → ResponseRefs → Option ℕ → Freshness → Time → Waiting
  renewing : Task → Time → Waiting

-- What the origin is request_of.
abbrev pub request_of : Waiting → Request
request_of (passing req url_key) = req
request_of (missing req url_key refs ref_index start) = req
request_of (validating req stored url_key refs ref_index freshness start) =
    with_conditional_headers req stored.response.header
request_of (renewing task start) = task.request

pub data Progress : Type 0 where
  answered : Option Response → Progress
  waits : Waiting → Progress

module _ {S : Type 0} (env : Env S) where
  -- The request goes to the origin.
  abbrev ask : Waiting → Action S Progress
  ask p w = (waits p, record w { sent = w.sent ++ request_of p ∷ [] })

  abbrev answering : Action S (Option Response) → Action S Progress
  answering m = do answer ← m; pure (answered answer)

  unfoldable pub begin_miss : Request → Bytes → ResponseRefs → Option ℕ → Action S Progress
  begin_miss req url_key refs ref_index =
      if only_if_cached (parse_cc_directives req.header)
      then (do log (missed req url_key refs ref_index none); pure (answered (some gateway_timeout)))
      else do start ← clocked (now env.cal.clock); ask (missing req url_key refs ref_index start)

  unfoldable pub begin_revalidate :
      Request → Stored → Bytes → ResponseRefs → Option ℕ → Freshness → Action S Progress
  begin_revalidate req stored url_key refs ref_index freshness = do
    start ← clocked (now env.cal.clock)
    ask (validating req stored url_key refs ref_index freshness start)

  unfoldable pub begin_swr_or_revalidate :
      Request
      → Stored
      → Bytes
      → ResponseRefs
      → Option ℕ
      → Freshness
      → Option Duration
      → Action S Progress
  begin_swr_or_revalidate req stored url_key refs ref_index freshness none =
      begin_revalidate req stored url_key refs ref_index freshness
  begin_swr_or_revalidate req stored url_key refs ref_index freshness (some swr) =
      if freshness.is_stale
      then (do
        inside ← in_swr_window env freshness swr
        if inside
            then answering (
                handle_stale_while_revalidate env req stored url_key freshness
                  (parse_cc_directives req.header))
            else begin_revalidate req stored url_key refs ref_index freshness)
      else begin_revalidate req stored url_key refs ref_index freshness

  unfoldable pub begin_decide :
      Request → Stored → Bytes → ResponseRefs → Option ℕ → Freshness → Action S Progress
  begin_decide req stored url_key refs ref_index freshness =
      let cc_req = parse_cc_directives req.header in
      let cc_resp = parse_cc_directives stored.response.header in
      let raw_fields = response_no_cache cc_resp in
      let fields = fields_of env raw_fields in
      if not freshness.is_stale && immutable cc_resp && not (request_no_cache cc_req)
      then answering (serve_from_cache env req url_key stored freshness fields)
      else if (freshness.is_stale && must_revalidate cc_resp)
          || (is_present env raw_fields && not (is_present env fields))
      then begin_revalidate req stored url_key refs ref_index freshness
      else if only_if_cached cc_req || (not freshness.is_stale && not (request_no_cache cc_req))
      then answering (serve_from_cache env req url_key stored freshness fields)
      else begin_swr_or_revalidate req stored url_key refs ref_index freshness
          (stale_while_revalidate cc_resp)

  unfoldable pub begin_hit : Request → Stored → Bytes → ResponseRefs → Option ℕ → Action S Progress
  begin_hit req stored url_key refs ref_index = do
    freshness ← clocked (
        calculate_freshness env.cal stored (parse_cc_directives req.header)
          (parse_cc_directives stored.response.header))
    begin_decide req stored url_key refs ref_index freshness

  abbrev pub begin_entry : Request → Bytes → ResponseRefs → ℕ → Option Stored → Action S Progress
  begin_entry req url_key refs i none = do
    log (unreadable req url_key refs i)
    begin_miss req url_key refs (some i)
  begin_entry req url_key refs i (some entry) = begin_hit req entry url_key refs (some i)

  abbrev pub begin_match : Request → Bytes → ResponseRefs × Option ℕ → Action S Progress
  begin_match req url_key (refs, none) = begin_miss req url_key refs none
  begin_match req url_key (refs, some i) =
      λ w. begin_entry req url_key refs i (entry_at env req (get_elem? refs i) w.store) w

  abbrev pub begin_refs : Request → Bytes → Option ResponseRefs → Action S Progress
  begin_refs req url_key none = begin_miss req url_key [] none
  begin_refs req url_key (some []) = begin_miss req url_key [] none
  begin_refs req url_key (some (r ∷ refs)) =
      begin_match req url_key (vary_headers_match env.normalize (r ∷ refs) req.header)

  -- RoundTrip up to its call of the upstream round tripper
  unfoldable pub begin : Request → Action S Progress
  begin req w =
      let url_key = env.urls.url_key req.url in
      if not (is_request_method_understood req)
      then ask (passing req url_key) w
      else begin_refs req url_key (Cache.get_refs env.conn env.codec url_key w.store) w

  -- backgroundRevalidate up to that call
  unfoldable pub begin_background : Task → Action S Progress
  begin_background task = do start ← clocked (now env.cal.clock); ask (renewing task start)

  -- What follows the origin's answer. In a background revalidation `moment` says how it
  -- goes on, and there is no response.
  unfoldable pub resume : Moment → Waiting → Option Response → Action S (Option Response)
  resume moment (passing req url_key) answer =
      if not (is_unsafe_method req.method)
      then after_safe env req url_key answer
      else after_unsafe env req url_key answer
  resume moment (missing req url_key refs ref_index start) answer = do
    end ← clocked (now env.cal.clock)
    after_miss env req url_key refs ref_index (timed env start end answer)
  resume moment (validating req stored url_key refs ref_index freshness start) answer = do
    end ← clocked (now env.cal.clock)
    validated env req stored url_key refs ref_index freshness (timed env start end answer)
  resume moment (renewing task start) answer = do
    end ← clocked (now env.cal.clock)
    after_background env moment task (timed env start end answer)
    pure none
