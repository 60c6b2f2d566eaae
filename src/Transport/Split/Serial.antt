-- ===== src/Transport/Split/Serial.antt =====
-- roundtripper.go: the two parts of RoundTrip, one after the other with nothing between them.
use httpcache.Base.{
  ℕ, ◌≡◌, refl, Bool, true, false, not, ◌||◌, ◌&&◌, List, [], ◌∷◌, Option, none, some, get_elem?,
  if◌then◌else◌, ◌++◌, Bool-cases, inl, inr,
}
use httpcache.Bytes.{Bytes}
use httpcache.Cache
use httpcache.Directives.{
  parse_cc_directives, only_if_cached, immutable, request_no_cache, must_revalidate,
  response_no_cache, stale_while_revalidate,
}
use httpcache.Entry.{Stored, ResponseRefs}
use httpcache.Freshness.{Freshness}
use httpcache.Http.{Request, Response}
use httpcache.Message.{is_unsafe_method, is_request_method_understood}
use httpcache.Time.{Duration}
use httpcache.Transport.{
  round_trip_timed, handle_unrecognized_method, handle_cache_miss, serve_from_cache,
  handle_stale_while_revalidate, revalidate, in_swr_window, swr_or_revalidate, decide_cache_hit,
  handle_cache_hit, with_entry, with_match, with_refs, round_trip, background_revalidate, fields_of,
  is_present, entry_at,
}
use httpcache.Transport.Split.{
  Waiting, Progress, answered, waits, request_of, begin_miss, begin_revalidate,
  begin_swr_or_revalidate, begin_decide, begin_hit, begin_entry, begin_match, begin_refs, begin,
  begin_background, resume,
}
use httpcache.Vary.{vary_headers_match}
use httpcache.World.{Env, Task, World, Action, send, Moment, context_done}

module _ {S : Type 0} (env : Env S) where
  -- The origin, which has had the requests `sent` before, answers at once.
  unfoldable pub deliver : Moment → List Request → Progress × World S → Option Response × World S
  deliver moment sent (answered answer, w) = (answer, w)
  deliver moment sent (waits p, w) = resume env moment p (env.origin sent (request_of p)) w

  branch :
      (sent : List Request) (w : World S) (b : Bool) (m n : Action S Progress)
      (m' n' : Action S (Option Response))
      → deliver context_done sent (m w) ≡ m' w
      → deliver context_done sent (n w) ≡ n' w
      → deliver context_done sent ((if b then m else n) w) ≡ (if b then m' else n') w
  branch sent w true m n m' n' p q = p
  branch sent w false m n m' n' p q = q

  deliver-begin_miss :
      (req : Request) (key : Bytes) (refs : ResponseRefs) (i : Option ℕ) (w : World S)
      → deliver context_done w.sent (begin_miss env req key refs i w)
        ≡ handle_cache_miss env req key refs i w
  unfolding deliver resume begin_miss handle_cache_miss round_trip_timed send
  deliver-begin_miss req key refs i w =
      branch w.sent w (only_if_cached (parse_cc_directives req.header)) _ _ _ _ refl refl

  deliver-begin_revalidate :
      (req : Request) (stored : Stored) (key : Bytes) (refs : ResponseRefs) (i : Option ℕ)
      (f : Freshness) (w : World S)
      → deliver context_done w.sent (begin_revalidate env req stored key refs i f w)
        ≡ revalidate env req stored key refs i f w
  unfolding deliver resume begin_revalidate revalidate round_trip_timed send
  deliver-begin_revalidate req stored key refs i f w = refl

  deliver-begin_swr :
      (req : Request) (stored : Stored) (key : Bytes) (refs : ResponseRefs) (i : Option ℕ)
      (f : Freshness) (swr : Option Duration) (w : World S)
      → deliver context_done w.sent (begin_swr_or_revalidate env req stored key refs i f swr w)
        ≡ swr_or_revalidate env req stored key refs i f swr w
  unfolding begin_swr_or_revalidate swr_or_revalidate in_swr_window deliver
  deliver-begin_swr req stored key refs i f none w =
      deliver-begin_revalidate req stored key refs i f w
  deliver-begin_swr req stored key refs i f (some d) w =
      let (inside, w') = in_swr_window env f d w in
      let late = deliver-begin_revalidate req stored key refs i f in
      let cc = parse_cc_directives req.header in
      let serve = handle_stale_while_revalidate env req stored key f cc in
      let serving : Action S Progress = λ v. let (r, v') = serve v in (answered r, v') in
      let ask = begin_revalidate env req stored key refs i f in
      let ask' = revalidate env req stored key refs i f in
      let early : Action S Progress =
        λ v. let (fits, v') = in_swr_window env f d v in (if fits then serving else ask) v' in
      let early' : Action S (Option Response) =
        λ v. let (fits, v') = in_swr_window env f d v in (if fits then serve else ask') v' in
      branch w.sent w f.is_stale early ask early' ask'
        (branch w.sent w' inside serving ask serve ask' refl (late w')) (late w)

  deliver-begin_decide :
      (req : Request) (stored : Stored) (key : Bytes) (refs : ResponseRefs) (i : Option ℕ)
      (f : Freshness) (w : World S)
      → deliver context_done w.sent (begin_decide env req stored key refs i f w)
        ≡ decide_cache_hit env req stored key refs i f w
  unfolding begin_decide decide_cache_hit deliver
  deliver-begin_decide req stored key refs i f w =
      let cc_req = parse_cc_directives req.header in
      let cc_resp = parse_cc_directives stored.response.header in
      let raw = response_no_cache cc_resp in
      let swr = stale_while_revalidate cc_resp in
      let serve = serve_from_cache env req key stored f (fields_of env raw) in
      let serving : Action S Progress = λ v. let (r, v') = serve v in (answered r, v') in
      let ask = begin_revalidate env req stored key refs i f in
      let ask' = revalidate env req stored key refs i f in
      let last = only_if_cached cc_req || (not f.is_stale && not (request_no_cache cc_req)) in
      let later = begin_swr_or_revalidate env req stored key refs i f swr in
      let later' = swr_or_revalidate env req stored key refs i f swr in
      let must =
        (f.is_stale && must_revalidate cc_resp)
        || (is_present env raw && not (is_present env (fields_of env raw))) in
      branch w.sent w (not f.is_stale && immutable cc_resp && not (request_no_cache cc_req)) serving
        (if must then ask else if last then serving else later) serve
        (if must then ask' else if last then serve else later') refl
        (branch w.sent w must ask (if last then serving else later) ask'
          (if last then serve else later') (deliver-begin_revalidate req stored key refs i f w)
          (branch w.sent w last serving later serve later' refl
            (deliver-begin_swr req stored key refs i f swr w)))

  deliver-begin_hit :
      (req : Request) (stored : Stored) (key : Bytes) (refs : ResponseRefs) (i : Option ℕ)
      (w : World S)
      → deliver context_done w.sent (begin_hit env req stored key refs i w)
        ≡ handle_cache_hit env req stored key refs i w
  unfolding begin_hit handle_cache_hit
  deliver-begin_hit req stored key refs i w = deliver-begin_decide req stored key refs i _ _

  deliver-begin_entry :
      (req : Request) (key : Bytes) (refs : ResponseRefs) (i : ℕ) (entry : Option Stored)
      (w : World S)
      → deliver context_done w.sent (begin_entry env req key refs i entry w)
        ≡ with_entry env req key refs i entry w
  deliver-begin_entry req key refs i none w = deliver-begin_miss req key refs (some i) _
  deliver-begin_entry req key refs i (some entry) w =
      deliver-begin_hit req entry key refs (some i) w

  deliver-begin_match :
      (req : Request) (key : Bytes) (refs : ResponseRefs) (found : Option ℕ) (w : World S)
      → deliver context_done w.sent (begin_match env req key (refs, found) w)
        ≡ with_match env req key (refs, found) w
  deliver-begin_match req key refs none w = deliver-begin_miss req key refs none w
  deliver-begin_match req key refs (some i) w =
      deliver-begin_entry req key refs i (entry_at env req (get_elem? refs i) w.store) w

  deliver-begin_refs :
      (req : Request) (key : Bytes) (refs : Option ResponseRefs) (w : World S)
      → deliver context_done w.sent (begin_refs env req key refs w) ≡ with_refs env req key refs w
  deliver-begin_refs req key none w = deliver-begin_miss req key [] none w
  deliver-begin_refs req key (some []) w = deliver-begin_miss req key [] none w
  deliver-begin_refs req key (some (r ∷ refs)) w =
      let (sorted, found) = vary_headers_match env.normalize (r ∷ refs) req.header in
      deliver-begin_match req key sorted found w

  deliver-passing :
      (req : Request) (key : Bytes) (w : World S)
      → deliver context_done w.sent
          (waits (Waiting.passing req key), record w { sent = w.sent ++ req ∷ [] })
        ≡ handle_unrecognized_method env req key w
  unfolding deliver resume handle_unrecognized_method send
  deliver-passing req key w = elim (Bool-cases (is_unsafe_method req.method)) [
    | inl unsafe ↦ rw unsafe
    | inr safe ↦ rw safe
  ]

  -- RoundTrip is its two parts with the origin's answer between them, if nothing else happens in
  -- between; and so is a background revalidation, but for its response, which nobody gets.
  pub deliver-begin :
      (req : Request) (w : World S)
      → deliver context_done w.sent (begin env req w) ≡ round_trip env req w
  unfolding begin round_trip
  deliver-begin req w =
      let key = env.urls.url_key req.url in
      elim (Bool-cases (is_request_method_understood req)) [
        | inl known ↦
            rw known (deliver-begin_refs req key (Cache.get_refs env.conn env.codec key w.store) w)
        | inr other ↦ rw other (deliver-passing req key w)
      ]

  pub deliver-begin_background :
      (moment : Moment) (task : Task) (w : World S)
      → (deliver moment w.sent (begin_background env task w)).1
        ≡ (background_revalidate env moment task w).1
  unfolding deliver resume begin_background background_revalidate round_trip_timed send
  deliver-begin_background moment task w = refl
