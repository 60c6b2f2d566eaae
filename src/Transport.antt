-- ===== src/Transport.antt =====
-- roundtripper.go: the round tripper. A result `none` is the error of the upstream round tripper.
mod Handlers
pub mod Frames
pub mod Contact
pub mod Reuse
pub mod Reports
pub mod Split
pub mod Failure
pub mod Pending
pub mod Load
pub mod Unsafe
pub mod Repeat
pub mod Twice
pub mod Background
pub mod NoStore
unfoldable pub use Handlers.*
use httpcache.Base.{
  ℕ, Bool, true, false, not, ◌||◌, ◌&&◌, [], ◌∷◌, List, Option, none, some, get_elem?,
  if◌then◌else◌,
}
use httpcache.Base.Int.{ℤ, pos, add64, sub64, ltb_ℤ, leb_ℤ}
use httpcache.Bytes.{Bytes, codes}
use httpcache.Cache
use httpcache.Cacheability.{can_store_response}
use httpcache.Directives.{
  Directives, parse_cc_directives, only_if_cached, immutable, request_no_cache, must_revalidate,
  response_no_cache, raw_csv, stale_while_revalidate,
}
use httpcache.Entry.{Stored, ResponseRef, ResponseRefs}
use httpcache.Freshness.{Freshness, calculate_freshness}
use httpcache.Http
use httpcache.Http.{Header, Request, Response}
use httpcache.Invalidator.{invalidate_cache}
use httpcache.Log.{Misc}
use httpcache.Log.Calls.{LogCall, cache_error}
use httpcache.Message.{
  apply_status, hit, miss, stale, bypass, is_unsafe_method, is_non_error_status,
  is_request_method_understood, set_age_header, with_conditional_headers, gateway_timeout,
}
use httpcache.Time.{Time, Duration, now, since, fix_date_header}
use httpcache.Validation.{Context, store_response_at, handle_validation_response}
use httpcache.Vary.{vary_headers_match}
use httpcache.World.{
  Env, Task, Moment, context_done, body_left, as_left, World, Action, pure, clocked, on_store, send,
  spawn, log, ◌>>=◌, ◌>>◌,
}

-- The call of LogCacheError for an entry that cannot be read.
abbrev pub unreadable : Request → Bytes → ResponseRefs → ℕ → LogCall
unreadable req url_key refs i = record {
  method = cache_error (codes "Error retrieving cache entry; possible corruption.");
  request = req;
  url_key = url_key;
  misc = some (record {
    cc_req = none;
    cc_resp = none;
    stored = none;
    freshness = none;
    refs = refs;
    ref_index = pos i;
  });
}

module _ {S : Type 0} (env : Env S) where
  abbrev pub validated :
      Request
      → Stored
      → Bytes
      → ResponseRefs
      → Option ℕ
      → Freshness
      → Option Timed
      → Action S (Option Response)
  validated req stored url_key refs ref_index freshness none = pure none
  validated req stored url_key refs ref_index freshness (some t) = do
    resp ←
        handle_validation_response env
          (record {
            url_key = url_key;
            start = t.start;
            end = t.end;
            cc_req = parse_cc_directives req.header;
            stored = stored;
            freshness = freshness;
            refs = refs;
            ref_index = ref_index;
          })
          (with_conditional_headers req stored.response.header) t.response
    pure (some resp)

  -- The part of handleCacheHit under the label `revalidate`.
  unfoldable pub revalidate :
      Request → Stored → Bytes → ResponseRefs → Option ℕ → Freshness → Action S (Option Response)
  revalidate req stored url_key refs ref_index freshness = do
    answer ← round_trip_timed env (with_conditional_headers req stored.response.header)
    validated req stored url_key refs ref_index freshness answer

  -- The directives of a stored response that a hit looks at, and the fields of a qualified
  -- `no-cache`.
  abbrev pub fields_of : Option Bytes → Option (List Bytes)
  fields_of none = none
  fields_of (some raw) = raw_csv raw

  abbrev pub is_present : {A : Type 0} → Option A → Bool
  is_present none = false
  is_present (some _) = true

  -- Is the response not too stale for `stale-while-revalidate`?
  unfoldable pub in_swr_window : Freshness → Duration → Action S Bool
  in_swr_window freshness swr = do
    elapsed ← clocked (since env.cal.clock freshness.age.timestamp)
    let stale_for = sub64 (add64 freshness.age.value elapsed) freshness.useful_life
    pure (leb_ℤ (pos 0) stale_for && ltb_ℤ stale_for swr)

  -- The last test of handleCacheHit, and what follows it.
  unfoldable pub swr_or_revalidate :
      Request
      → Stored
      → Bytes
      → ResponseRefs
      → Option ℕ
      → Freshness
      → Option Duration
      → Action S (Option Response)
  swr_or_revalidate req stored url_key refs ref_index freshness none =
      revalidate req stored url_key refs ref_index freshness
  swr_or_revalidate req stored url_key refs ref_index freshness (some swr) =
      if freshness.is_stale
      then (do
        inside ← in_swr_window freshness swr
        if inside
            then handle_stale_while_revalidate env req stored url_key freshness
                (parse_cc_directives req.header)
            else revalidate req stored url_key refs ref_index freshness)
      else revalidate req stored url_key refs ref_index freshness

  -- handleCacheHit once the freshness is known
  unfoldable pub decide_cache_hit :
      Request → Stored → Bytes → ResponseRefs → Option ℕ → Freshness → Action S (Option Response)
  decide_cache_hit req stored url_key refs ref_index freshness =
      let cc_req = parse_cc_directives req.header in
      let cc_resp = parse_cc_directives stored.response.header in
      let raw_fields = response_no_cache cc_resp in
      let fields = fields_of raw_fields in
      if not freshness.is_stale && immutable cc_resp && not (request_no_cache cc_req)
      then serve_from_cache env req url_key stored freshness fields
      else if (freshness.is_stale && must_revalidate cc_resp)
          || (is_present raw_fields && not (is_present fields))
      then revalidate req stored url_key refs ref_index freshness
      else if only_if_cached cc_req || (not freshness.is_stale && not (request_no_cache cc_req))
      then serve_from_cache env req url_key stored freshness fields
      else swr_or_revalidate req stored url_key refs ref_index freshness
          (stale_while_revalidate cc_resp)

  -- handleCacheHit
  unfoldable pub handle_cache_hit :
      Request → Stored → Bytes → ResponseRefs → Option ℕ → Action S (Option Response)
  handle_cache_hit req stored url_key refs ref_index = do
    freshness ← clocked (
        calculate_freshness env.cal stored (parse_cc_directives req.header)
          (parse_cc_directives stored.response.header))
    decide_cache_hit req stored url_key refs ref_index freshness

  abbrev with_entry :
      Request → Bytes → ResponseRefs → ℕ → Option Stored → Action S (Option Response)
  with_entry req url_key refs i none = do
    log (unreadable req url_key refs i)
    handle_cache_miss env req url_key refs (some i)
  with_entry req url_key refs i (some entry) = handle_cache_hit req entry url_key refs (some i)

  -- The entry that the reference at `i` names, if there is one.
  abbrev pub entry_at : Request → Option ResponseRef → S → Option Stored
  entry_at req none s = none
  entry_at req (some r) s = Cache.get env.conn env.codec r.response_id req s

  abbrev with_match : Request → Bytes → ResponseRefs × Option ℕ → Action S (Option Response)
  with_match req url_key (refs, none) = handle_cache_miss env req url_key refs none
  with_match req url_key (refs, some i) =
      λ w. with_entry req url_key refs i (entry_at req (get_elem? refs i) w.store) w

  abbrev with_refs : Request → Bytes → Option ResponseRefs → Action S (Option Response)
  with_refs req url_key none = handle_cache_miss env req url_key [] none
  with_refs req url_key (some []) = handle_cache_miss env req url_key [] none
  with_refs req url_key (some (r ∷ refs)) =
      with_match req url_key (vary_headers_match env.normalize (r ∷ refs) req.header)

  -- RoundTrip
  unfoldable pub round_trip : Request → Action S (Option Response)
  round_trip req w =
      let url_key = env.urls.url_key req.url in
      if not (is_request_method_understood req)
      then handle_unrecognized_method env req url_key w
      else with_refs req url_key (Cache.get_refs env.conn env.codec url_key w.store) w

  -- The goroutine of backgroundRevalidate. Neither the references nor the index are handed on.
  abbrev pub after_background : Moment → Task → Option Timed → Action S (Unit {0})
  after_background moment task none = pure tt
  after_background context_done task (some t) = pure tt
  after_background (body_left left closed) task (some t) = do
    handle_validation_response env
        (record {
          url_key = task.url_key;
          start = t.start;
          end = t.end;
          cc_req = task.cc_req;
          stored = as_left left closed task.stored;
          freshness = task.freshness;
          refs = [];
          ref_index = some 0;
        })
        task.request t.response
    pure tt

  unfoldable pub background_revalidate : Moment → Task → Action S (Unit {0})
  background_revalidate moment task = do
    answer ← round_trip_timed env task.request
    after_background moment task answer
