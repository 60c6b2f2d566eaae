-- ===== src/Transport/Reports/Requests.antt =====
-- roundtripper.go: the calls of the logger over a whole request.
use httpcache.Base.{
  List, inl, inr, [], ◌∷◌, ◌++◌, ◌⊎◌, Option, none, some, ℕ, Bool-cases, get_elem?, Bool, true,
  false, not, ◌&&◌, ◌||◌, refl, if◌then◌else◌,
}
use httpcache.Bytes.{Bytes}
use httpcache.Cache
use httpcache.Directives.{
  parse_cc_directives, stale_while_revalidate, only_if_cached, response_no_cache, immutable,
  request_no_cache, must_revalidate,
}
use httpcache.Entry.{Stored, ResponseRefs}
use httpcache.Freshness.{Freshness}
use httpcache.Http.{Request, Response}
use httpcache.Log.Calls.{LogCall}
use httpcache.Message.{bypass, is_non_error_status, is_request_method_understood, is_unsafe_method}
use httpcache.Message.Labels.{status-apply_status}
use httpcache.Time.{Duration}
use httpcache.Transport.{
  unreadable, handle_unrecognized_method, in_swr_window, swr_or_revalidate, decide_cache_hit,
  handle_cache_hit, round_trip, with_refs, with_match, with_entry, entry_at, fields_of, is_present,
  after_safe, serve_from_cache, revalidate, handle_stale_while_revalidate, after_unsafe,
}
use httpcache.Transport.Reports.{
  Reports, failed, answered, InReports, miss-Reports, serve_from_cache-Reports, revalidate-Reports,
  stale_hit-Reports,
}
use httpcache.Vary.{vary_headers_match}
use httpcache.World.{Env, World, Action, send, log}

-- The calls of a request, after that of LogCacheError if the entry could not be read.
abbrev pub ReportsMaybe : Request → Bytes → List LogCall → List LogCall → Option Response → Type 0
ReportsMaybe req key before after answer =
    Reports key before after answer
    ⊎ ((refs : ResponseRefs) × (i : ℕ) × Reports key (before ++ unreadable req key refs i ∷ [])
          after answer)

module _ {S : Type 0} (env : Env S) where
  branch :
      (key : Bytes) (w : World S) (b : Bool) (m n : Action S (Option Response))
      → InReports env key w (m w)
      → InReports env key w (n w)
      → InReports env key w ((if b then m else n) w)
  branch key w true m n p q = p
  branch key w false m n p q = q

  swr-Reports :
      (req : Request) (stored : Stored) (key : Bytes) (refs : ResponseRefs) (i : Option ℕ)
      (f : Freshness) (swr : Option Duration) (w : World S)
      → InReports env key w (swr_or_revalidate env req stored key refs i f swr w)
  unfolding swr_or_revalidate in_swr_window
  swr-Reports req stored key refs i f none w = revalidate-Reports env req stored key refs i f w
  swr-Reports req stored key refs i f (some d) w =
      let (inside, w') = in_swr_window env f d w in
      let ask = revalidate env req stored key refs i f in
      let serve =
        handle_stale_while_revalidate env req stored key f (parse_cc_directives req.header) in
      let early = λ (v : World S).
        let (fits, v') = in_swr_window env f d v in (if fits then serve else ask) v' in
      branch key w f.is_stale early ask
        (branch key w' inside serve ask
          (stale_hit-Reports env req stored key f (parse_cc_directives req.header) w')
          (revalidate-Reports env req stored key refs i f w'))
        (revalidate-Reports env req stored key refs i f w)

  decide-Reports :
      (req : Request) (stored : Stored) (key : Bytes) (refs : ResponseRefs) (i : Option ℕ)
      (f : Freshness) (w : World S)
      → InReports env key w (decide_cache_hit env req stored key refs i f w)
  unfolding decide_cache_hit
  decide-Reports req stored key refs i f w =
      let cc_req = parse_cc_directives req.header in
      let cc_resp = parse_cc_directives stored.response.header in
      let raw = response_no_cache cc_resp in
      let serve = serve_from_cache env req key stored f (fields_of env raw) in
      let ask = revalidate env req stored key refs i f in
      let swr = swr_or_revalidate env req stored key refs i f (stale_while_revalidate cc_resp) in
      let served = serve_from_cache-Reports env req key stored f (fields_of env raw) w in
      let last = only_if_cached cc_req || (not f.is_stale && not (request_no_cache cc_req)) in
      let later = if last then serve else swr in
      let must =
        (f.is_stale && must_revalidate cc_resp)
        || (is_present env raw && not (is_present env (fields_of env raw))) in
      let kept = not f.is_stale && immutable cc_resp && not (request_no_cache cc_req) in
      branch key w kept serve (if must then ask else later) served (
        branch key w must ask later (revalidate-Reports env req stored key refs i f w) (
          branch key w last serve swr served
            (swr-Reports req stored key refs i f (stale_while_revalidate cc_resp) w)))

  abbrev InReportsMaybe : Request → Bytes → World S → Option Response × World S → Type 0
  InReportsMaybe req key w (answer, w') = ReportsMaybe req key w.logged w'.logged answer

  entry-Reports :
      (req : Request) (key : Bytes) (refs : ResponseRefs) (i : ℕ) (entry : Option Stored)
      (w : World S)
      → InReportsMaybe req key w (with_entry env req key refs i entry w)
  unfolding handle_cache_hit
  entry-Reports req key refs i none w =
      inr (refs, i, miss-Reports env req key refs (some i) (log (unreadable req key refs i) w).1)
  entry-Reports req key refs i (some entry) w = inl (decide-Reports req entry key refs (some i) _ _)

  match-Reports :
      (req : Request) (key : Bytes) (refs : ResponseRefs) (found : Option ℕ) (w : World S)
      → InReportsMaybe req key w (with_match env req key (refs, found) w)
  match-Reports req key refs none w = inl (miss-Reports env req key refs none w)
  match-Reports req key refs (some i) w =
      entry-Reports req key refs i (entry_at env req (get_elem? refs i) w.store) w

  refs-Reports :
      (req : Request) (key : Bytes) (refs : Option ResponseRefs) (w : World S)
      → InReportsMaybe req key w (with_refs env req key refs w)
  refs-Reports req key none w = inl (miss-Reports env req key [] none w)
  refs-Reports req key (some []) w = inl (miss-Reports env req key [] none w)
  refs-Reports req key (some (r ∷ refs)) w =
      let (sorted, found) = vary_headers_match env.normalize (r ∷ refs) req.header in
      match-Reports req key sorted found w

  after_safe-Reports :
      (req : Request) (key : Bytes) (answer : Option Response) (w : World S)
      → InReports env key w (after_safe env req key answer w)
  after_safe-Reports req key none w = failed
  after_safe-Reports req key (some r) w = answered _ _ refl tt (status-apply_status bypass r)

  after_unsafe-Reports :
      (req : Request) (key : Bytes) (answer : Option Response) (w : World S)
      → InReports env key w (after_unsafe env req key answer w)
  after_unsafe-Reports req key none w = failed
  after_unsafe-Reports req key (some r) w = elim (Bool-cases (is_non_error_status r.status_code)) [
    | inl good ↦ rw good (answered _ _ refl tt (status-apply_status bypass r))
    | inr bad ↦ rw bad (answered _ _ refl tt (status-apply_status bypass r))
  ]

  unrecognized-Reports :
      (req : Request) (key : Bytes) (w : World S)
      → InReports env key w (handle_unrecognized_method env req key w)
  unfolding handle_unrecognized_method send
  unrecognized-Reports req key w = elim (Bool-cases (is_unsafe_method req.method)) [
    | inl unsafe ↦ rw unsafe (after_unsafe-Reports req key _ _)
    | inr safe ↦ rw safe (after_safe-Reports req key _ _)
  ]

  -- A request makes exactly one call of the logger with the outcome if it returns a response, and
  -- none if it fails: the call has the request's key, and its event is the status field of the
  -- response, but for the answer to `only-if-cached`, which has the status BYPASS and is logged as a
  -- miss. The only other call that it may make is one of LogCacheError before that, for an entry
  -- that cannot be read.
  pub round_trip-Reports :
      (req : Request) (w : World S)
      → let key = env.urls.url_key req.url in
        ReportsMaybe req key w.logged (round_trip env req w).1.logged (round_trip env req w).0
  unfolding round_trip
  round_trip-Reports req w =
      let key = env.urls.url_key req.url in
      elim (Bool-cases (is_request_method_understood req)) [
        | inl known ↦
            rw known (refs-Reports req key (Cache.get_refs env.conn env.codec key w.store) w)
        | inr other ↦ rw other (inl (unrecognized-Reports req key w))
      ]
