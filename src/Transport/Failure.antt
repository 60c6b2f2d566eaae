-- ===== src/Transport/Failure.antt =====
-- What RoundTrip keeps when the origin cannot be reached.
use httpcache.Base.{
  ◌≡◌, refl, List, [], ◌∷◌, Option, none, some, arith, get_elem?, ℕ, Bool-cases, inl, inr,
}
use httpcache.Bytes.{Bytes}
use httpcache.Cache
use httpcache.Directives.{parse_cc_directives, stale_while_revalidate, response_no_cache}
use httpcache.Entry.{Stored, ResponseRefs}
use httpcache.Freshness.{Freshness}
use httpcache.Http.{Request}
use httpcache.Message.{with_conditional_headers, is_request_method_understood}
use httpcache.Time.{Duration}
use httpcache.Transport.{
  unreadable, round_trip_timed, handle_unrecognized_method, after_miss, handle_cache_miss,
  revalidate, in_swr_window, swr_or_revalidate, decide_cache_hit, handle_cache_hit, round_trip,
  with_refs, with_match, with_entry, entry_at, fields_of,
}
use httpcache.Transport.Frames.{
  store-serve_from_cache, store-round_trip_timed, store-in_swr_window, store-stale_hit,
}
use httpcache.Vary.{vary_headers_match}
use httpcache.World.{log, Env, World, send}

module _ {S : Type 0} (env : Env S)
    (down : (sent : List Request) (r : Request) → env.origin sent r ≡ none) where
  pub timed-none : (req : Request) (w : World S) → (round_trip_timed env req w).0 ≡ none
  unfolding round_trip_timed send
  timed-none req w = rw (down w.sent req)

  store-after_none :
      (req : Request) (key : Bytes) (refs : ResponseRefs) (i : Option ℕ) (w : World S)
      → (after_miss env req key refs i none w).1.store ≡ w.store
  unfolding after_miss
  store-after_none req key refs i w = refl

  store-miss :
      (req : Request) (key : Bytes) (refs : ResponseRefs) (i : Option ℕ) (w : World S)
      → (handle_cache_miss env req key refs i w).1.store ≡ w.store
  unfolding handle_cache_miss
  store-miss req key refs i w = ground (
    arith,
    timed-none req w,
    store-round_trip_timed env req w,
    store-after_none req key refs i (round_trip_timed env req w).1,
  )

  store-revalidate :
      (req : Request) (stored : Stored) (key : Bytes) (refs : ResponseRefs) (i : Option ℕ)
      (f : Freshness) (w : World S)
      → (revalidate env req stored key refs i f w).1.store ≡ w.store
  unfolding revalidate
  store-revalidate req stored key refs i f w =
      let creq = with_conditional_headers req stored.response.header in
      ground (arith, timed-none creq w, store-round_trip_timed env creq w)

  store-swr :
      (req : Request) (stored : Stored) (key : Bytes) (refs : ResponseRefs) (i : Option ℕ)
      (f : Freshness) (swr : Option Duration) (w : World S)
      → (swr_or_revalidate env req stored key refs i f swr w).1.store ≡ w.store
  unfolding swr_or_revalidate
  store-swr req stored key refs i f none w = store-revalidate req stored key refs i f w
  store-swr req stored key refs i f (some d) w =
      let w' = (in_swr_window env f d w).1 in
      ground (
        arith,
        store-in_swr_window env f d w,
        store-stale_hit env req stored key f (parse_cc_directives req.header) w',
        store-revalidate req stored key refs i f w,
        store-revalidate req stored key refs i f w',
      )

  store-decide :
      (req : Request) (stored : Stored) (key : Bytes) (refs : ResponseRefs) (i : Option ℕ)
      (f : Freshness) (w : World S)
      → (decide_cache_hit env req stored key refs i f w).1.store ≡ w.store
  unfolding decide_cache_hit
  store-decide req stored key refs i f w =
      let cc_resp = parse_cc_directives stored.response.header in
      ground (
        arith,
        store-serve_from_cache env req key stored f (fields_of env (response_no_cache cc_resp)) w,
        store-revalidate req stored key refs i f w,
        store-swr req stored key refs i f (stale_while_revalidate cc_resp) w,
      )

  store-entry :
      (req : Request) (key : Bytes) (refs : ResponseRefs) (i : ℕ) (entry : Option Stored)
      (w : World S)
      → (with_entry env req key refs i entry w).1.store ≡ w.store
  unfolding handle_cache_hit
  store-entry req key refs i none w =
      store-miss req key refs (some i) (log (unreadable req key refs i) w).1
  store-entry req key refs i (some entry) w = store-decide req entry key refs (some i) _ _

  store-match :
      (req : Request) (key : Bytes) (refs : ResponseRefs) (found : Option ℕ) (w : World S)
      → (with_match env req key (refs, found) w).1.store ≡ w.store
  store-match req key refs none w = store-miss req key refs none w
  store-match req key refs (some i) w =
      store-entry req key refs i (entry_at env req (get_elem? refs i) w.store) w

  store-refs :
      (req : Request) (key : Bytes) (refs : Option ResponseRefs) (w : World S)
      → (with_refs env req key refs w).1.store ≡ w.store
  store-refs req key none w = store-miss req key [] none w
  store-refs req key (some []) w = store-miss req key [] none w
  store-refs req key (some (r ∷ refs)) w =
      let (sorted, found) = vary_headers_match env.normalize (r ∷ refs) req.header in
      store-match req key sorted found w

  store-unrecognized :
      (req : Request) (key : Bytes) (w : World S)
      → (handle_unrecognized_method env req key w).1.store ≡ w.store
  unfolding handle_unrecognized_method send
  store-unrecognized req key w = ground (arith, down w.sent req)

  -- While the origin cannot be reached, no request changes what is stored.
  pub store-round_trip_of_down :
      (req : Request) (w : World S) → (round_trip env req w).1.store ≡ w.store
  unfolding round_trip
  store-round_trip_of_down req w =
      let key = env.urls.url_key req.url in
      elim (Bool-cases (is_request_method_understood req)) [
        | inl known ↦
            rw known (store-refs req key (Cache.get_refs env.conn env.codec key w.store) w)
        | inr other ↦ rw other (store-unrecognized req key w)
      ]
