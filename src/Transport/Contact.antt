-- ===== src/Transport/Contact.antt =====
-- When a request reaches the origin, and when a stored response is used without it.
use httpcache.Base.{
  ℕ, ◌≡◌, ◌⊎◌, inl, inr, List, [], ◌∷◌, ◌++◌, Option, none, some, arith, get_elem?, Bool-cases,
}
use httpcache.Bytes.{Bytes}
use httpcache.Cache
use httpcache.Directives.{
  parse_cc_directives, only_if_cached, response_no_cache, stale_while_revalidate,
}
use httpcache.Entry.{Stored, ResponseRefs}
use httpcache.Freshness.{Freshness}
use httpcache.Http.{Request, Response}
use httpcache.Message.{with_conditional_headers, is_request_method_understood}
use httpcache.Time.{Duration}
use httpcache.Transport.{
  unreadable, handle_cache_miss, in_swr_window, swr_or_revalidate, decide_cache_hit,
  handle_cache_hit, round_trip, with_refs, with_match, with_entry, entry_at, fields_of,
}
use httpcache.Transport.Frames.{
  sent-handle_cache_miss, sent-revalidate, sent-serve_from_cache, sent-swr, sent-in_swr_window,
  sent-handle_unrecognized_method,
}
use httpcache.Vary.{vary_headers_match}
use httpcache.World.{log, Env, World}

-- The requests that the origin has had, before and after: the same, or one more at the end.
abbrev pub AsksAtMostOnce : List Request → List Request → Type 0
AsksAtMostOnce before after = (after ≡ before) ⊎ ((r : Request) × (after ≡ before ++ r ∷ []))

module _ {S : Type 0} (env : Env S) where
  abbrev Asks : (World S → Option Response × World S) → World S → Type 0
  Asks m w = AsksAtMostOnce w.sent (m w).1.sent

  Asks-miss :
      (req : Request) (key : Bytes) (refs : ResponseRefs) (i : Option ℕ) (w : World S)
      → Asks (handle_cache_miss env req key refs i) w
  Asks-miss req key refs i w = elim (Bool-cases (only_if_cached (parse_cc_directives req.header))) [
    | inl only ↦ inl (rw only at (sent-handle_cache_miss env req key refs i w))
    | inr other ↦ inr (req, rw other at (sent-handle_cache_miss env req key refs i w))
  ]

  -- A hit sends nothing, or the request with the conditional fields.
  abbrev AsksOrNot : Request → Stored → World S → World S → Type 0
  AsksOrNot req stored w w' =
      (w'.sent ≡ w.sent)
      ⊎ (w'.sent ≡ w.sent ++ with_conditional_headers req stored.response.header ∷ [])

  AsksOrNot-swr :
      (req : Request) (stored : Stored) (key : Bytes) (refs : ResponseRefs) (i : Option ℕ)
      (f : Freshness) (swr : Option Duration) (w : World S)
      → AsksOrNot req stored w (swr_or_revalidate env req stored key refs i f swr w).1
  unfolding swr_or_revalidate
  AsksOrNot-swr req stored key refs i f none w = inr (sent-revalidate env req stored key refs i f w)
  AsksOrNot-swr req stored key refs i f (some swr) w =
      let w' = (in_swr_window env f swr w).1 in
      ground (
        arith,
        sent-in_swr_window env f swr w,
        sent-swr env req stored key f (parse_cc_directives req.header) w',
        sent-revalidate env req stored key refs i f w,
        sent-revalidate env req stored key refs i f w',
      )

  AsksOrNot-decide :
      (req : Request) (stored : Stored) (key : Bytes) (refs : ResponseRefs) (i : Option ℕ)
      (f : Freshness) (w : World S)
      → AsksOrNot req stored w (decide_cache_hit env req stored key refs i f w).1
  unfolding decide_cache_hit
  AsksOrNot-decide req stored key refs i f w =
      let cc_resp = parse_cc_directives stored.response.header in
      ground (
        arith,
        sent-serve_from_cache env req key stored f (fields_of env (response_no_cache cc_resp)) w,
        sent-revalidate env req stored key refs i f w,
        AsksOrNot-swr req stored key refs i f (stale_while_revalidate cc_resp) w,
      )

  Asks-hit :
      (req : Request) (stored : Stored) (key : Bytes) (refs : ResponseRefs) (i : Option ℕ)
      (f : Freshness) (w : World S)
      → Asks (decide_cache_hit env req stored key refs i f) w
  Asks-hit req stored key refs i f w = elim (AsksOrNot-decide req stored key refs i f w) [
    | inl same ↦ inl same
    | inr more ↦ inr (with_conditional_headers req stored.response.header, more)
  ]

  Asks-entry :
      (req : Request) (key : Bytes) (refs : ResponseRefs) (i : ℕ) (entry : Option Stored)
      (w : World S)
      → Asks (with_entry env req key refs i entry) w
  unfolding handle_cache_hit
  Asks-entry req key refs i none w =
      Asks-miss req key refs (some i) (log (unreadable req key refs i) w).1
  Asks-entry req key refs i (some entry) w = Asks-hit req entry key refs (some i) _ _

  Asks-match :
      (req : Request) (key : Bytes) (refs : ResponseRefs) (found : Option ℕ) (w : World S)
      → Asks (with_match env req key (refs, found)) w
  Asks-match req key refs none w = Asks-miss req key refs none w
  Asks-match req key refs (some i) w =
      Asks-entry req key refs i (entry_at env req (get_elem? refs i) w.store) w

  Asks-refs :
      (req : Request) (key : Bytes) (refs : Option ResponseRefs) (w : World S)
      → Asks (with_refs env req key refs) w
  Asks-refs req key none w = Asks-miss req key [] none w
  Asks-refs req key (some []) w = Asks-miss req key [] none w
  Asks-refs req key (some (r ∷ refs)) w =
      let (sorted, found) = vary_headers_match env.normalize (r ∷ refs) req.header in
      Asks-match req key sorted found w

  -- A call of RoundTrip sends at most one request to the origin, whatever the backend, the origin
  -- and the clock do, and forgets none that it has sent.
  pub round_trip-AsksAtMostOnce :
      (req : Request) (w : World S) → AsksAtMostOnce w.sent (round_trip env req w).1.sent
  unfolding round_trip
  round_trip-AsksAtMostOnce req w =
      let key = env.urls.url_key req.url in
      elim (Bool-cases (is_request_method_understood req)) [
        | inl known ↦ rw known (Asks-refs req key (Cache.get_refs env.conn env.codec key w.store) w)
        | inr other ↦ rw other (inr (req, sent-handle_unrecognized_method env req key w))
      ]
