-- ===== src/Transport/Load.antt =====
-- How many requests to the origin one request of a client causes, now or in the background.
use httpcache.Base.{
  ℕ, suc, ◌+◌, ◌≤◌, ◌≡◌, refl, ap, ◌∙◌, List, [], ◌∷◌, ◌++◌, Option, none, some, arith, length,
  length-append, get_elem?, Bool-cases, inl, inr,
}
use httpcache.Bytes.{Bytes}
use httpcache.Cache
use httpcache.Directives.{
  Directives, parse_cc_directives, only_if_cached, stale_while_revalidate, response_no_cache,
}
use httpcache.Entry.{Stored, ResponseRefs}
use httpcache.Freshness.{Freshness}
use httpcache.Http.{Request}
use httpcache.Message.{with_conditional_headers, is_request_method_understood}
use httpcache.Time.{Duration}
use httpcache.Transport.{
  unreadable, handle_unrecognized_method, handle_cache_miss, serve_from_cache,
  handle_stale_while_revalidate, revalidate, in_swr_window, swr_or_revalidate, decide_cache_hit,
  handle_cache_hit, round_trip, with_refs, with_match, with_entry, entry_at, fields_of,
  background_revalidate, round_trip_timed, after_background,
}
use httpcache.Transport.Frames.{
  sent-handle_cache_miss, sent-revalidate, sent-serve_from_cache, sent-in_swr_window,
  sent-handle_unrecognized_method, sent-round_trip_timed, sent-handle_validation_response,
}
use httpcache.Transport.Pending.{
  pending-handle_cache_miss, pending-revalidate, pending-serve_from_cache, pending-in_swr_window,
  pending-handle_unrecognized_method,
}
use httpcache.Vary.{vary_headers_match}
use httpcache.World.{log, Env, World, Task, Moment, context_done, body_left}

-- The requests that the origin has had, and those that are still to be sent in the background.
abbrev pub load : {S : Type 0} → World S → ℕ
load w = length w.sent + length w.pending

module _ {S : Type 0} where
  -- At most one request more.
  abbrev AddsOne : World S → World S → Type 0
  AddsOne w w' = load w' ≤ suc (load w)

  asked :
      (w w' : World S) (r : Request)
      → w'.sent ≡ w.sent ++ r ∷ []
      → w'.pending ≡ w.pending
      → AddsOne w w'
  asked w w' r e p = omega (arith, ap length e, ap length p, length-append w.sent (r ∷ []))

module _ {S : Type 0} (env : Env S) where
  miss-AddsOne :
      (req : Request) (key : Bytes) (refs : ResponseRefs) (i : Option ℕ) (w : World S)
      → AddsOne w (handle_cache_miss env req key refs i w).1
  miss-AddsOne req key refs i w =
      let p = pending-handle_cache_miss env req key refs i w in
      let e = sent-handle_cache_miss env req key refs i w in
      elim (Bool-cases (only_if_cached (parse_cc_directives req.header))) [
        | inl only ↦ omega (arith, ap length (rw only at e), ap length p)
        | inr other ↦ asked w (handle_cache_miss env req key refs i w).1 req (rw other at e) p
      ]

  revalidate-AddsOne :
      (req : Request) (stored : Stored) (key : Bytes) (refs : ResponseRefs) (i : Option ℕ)
      (f : Freshness) (w : World S)
      → AddsOne w (revalidate env req stored key refs i f w).1
  revalidate-AddsOne req stored key refs i f w =
      asked w (revalidate env req stored key refs i f w).1
        (with_conditional_headers req stored.response.header)
        (sent-revalidate env req stored key refs i f w)
        (pending-revalidate env req stored key refs i f w)

  serve-AddsOne :
      (req : Request) (key : Bytes) (stored : Stored) (f : Freshness) (fields : Option (List Bytes))
      (w : World S)
      → AddsOne w (serve_from_cache env req key stored f fields w).1
  serve-AddsOne req key stored f fields w = omega (
    arith,
    ap length (sent-serve_from_cache env req key stored f fields w),
    ap length (pending-serve_from_cache env req key stored f fields w),
  )

  stale_hit-AddsOne :
      (req : Request) (stored : Stored) (key : Bytes) (f : Freshness) (cc : Directives)
      (w : World S)
      → AddsOne w (handle_stale_while_revalidate env req stored key f cc w).1
  unfolding handle_stale_while_revalidate
  stale_hit-AddsOne req stored key f cc w = omega (arith, length-append w.pending (_ ∷ []))

  swr-AddsOne :
      (req : Request) (stored : Stored) (key : Bytes) (refs : ResponseRefs) (i : Option ℕ)
      (f : Freshness) (swr : Option Duration) (w : World S)
      → AddsOne w (swr_or_revalidate env req stored key refs i f swr w).1
  unfolding swr_or_revalidate
  swr-AddsOne req stored key refs i f none w = revalidate-AddsOne req stored key refs i f w
  swr-AddsOne req stored key refs i f (some d) w =
      let w' = (in_swr_window env f d w).1 in
      ground (
        arith,
        ap length (sent-in_swr_window env f d w),
        ap length (pending-in_swr_window env f d w),
        stale_hit-AddsOne req stored key f (parse_cc_directives req.header) w',
        revalidate-AddsOne req stored key refs i f w,
        revalidate-AddsOne req stored key refs i f w',
      )

  decide-AddsOne :
      (req : Request) (stored : Stored) (key : Bytes) (refs : ResponseRefs) (i : Option ℕ)
      (f : Freshness) (w : World S)
      → AddsOne w (decide_cache_hit env req stored key refs i f w).1
  unfolding decide_cache_hit
  decide-AddsOne req stored key refs i f w =
      let cc_resp = parse_cc_directives stored.response.header in
      ground (
        arith,
        serve-AddsOne req key stored f (fields_of env (response_no_cache cc_resp)) w,
        revalidate-AddsOne req stored key refs i f w,
        swr-AddsOne req stored key refs i f (stale_while_revalidate cc_resp) w,
      )

  entry-AddsOne :
      (req : Request) (key : Bytes) (refs : ResponseRefs) (i : ℕ) (entry : Option Stored)
      (w : World S)
      → AddsOne w (with_entry env req key refs i entry w).1
  unfolding handle_cache_hit
  entry-AddsOne req key refs i none w =
      miss-AddsOne req key refs (some i) (log (unreadable req key refs i) w).1
  entry-AddsOne req key refs i (some entry) w = decide-AddsOne req entry key refs (some i) _ _

  match-AddsOne :
      (req : Request) (key : Bytes) (refs : ResponseRefs) (found : Option ℕ) (w : World S)
      → AddsOne w (with_match env req key (refs, found) w).1
  match-AddsOne req key refs none w = miss-AddsOne req key refs none w
  match-AddsOne req key refs (some i) w =
      entry-AddsOne req key refs i (entry_at env req (get_elem? refs i) w.store) w

  refs-AddsOne :
      (req : Request) (key : Bytes) (refs : Option ResponseRefs) (w : World S)
      → AddsOne w (with_refs env req key refs w).1
  refs-AddsOne req key none w = miss-AddsOne req key [] none w
  refs-AddsOne req key (some []) w = miss-AddsOne req key [] none w
  refs-AddsOne req key (some (r ∷ refs)) w =
      let (sorted, found) = vary_headers_match env.normalize (r ∷ refs) req.header in
      match-AddsOne req key sorted found w

  -- A request of a client causes at most one request to the origin, at once or in the background.
  pub round_trip-AddsOne : (req : Request) (w : World S) → AddsOne w (round_trip env req w).1
  unfolding round_trip
  round_trip-AddsOne req w =
      let key = env.urls.url_key req.url in
      elim (Bool-cases (is_request_method_understood req)) [
        | inl known ↦
            rw known (refs-AddsOne req key (Cache.get_refs env.conn env.codec key w.store) w)
        | inr other ↦ rw other (
            asked w (handle_unrecognized_method env req key w).1 req
              (sent-handle_unrecognized_method env req key w)
              (pending-handle_unrecognized_method env req key w))
      ]

  pub sent-after_background :
      (moment : Moment) (task : Task) (t : Option _) (w : World S)
      → (after_background env moment task t w).1.sent ≡ w.sent
  sent-after_background moment task none w = refl
  sent-after_background context_done task (some t) w = refl
  sent-after_background (body_left left closed) task (some t) w =
      sent-handle_validation_response env _ _ _ w

  pub sent-background_revalidate :
      (moment : Moment) (task : Task) (w : World S)
      → (background_revalidate env moment task w).1.sent ≡ w.sent ++ task.request ∷ []
  unfolding background_revalidate
  sent-background_revalidate moment task w =
      sent-after_background moment task (round_trip_timed env task.request w).0 _
      ∙ sent-round_trip_timed env task.request w
