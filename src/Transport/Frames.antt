-- ===== src/Transport/Frames.antt =====
-- Which parts of the state each handler leaves as they are.
use httpcache.Base.{
  ℕ, ◌≡◌, refl, ◌∙◌, List, [], ◌∷◌, ◌++◌, Option, none, some, arith, if◌then◌else◌,
}
use httpcache.Bytes.{Bytes}
use httpcache.Cacheability.{can_stale_on_error}
use httpcache.Directives.{Directives, parse_cc_directives, only_if_cached}
use httpcache.Entry.{Stored, ResponseRefs}
use httpcache.Freshness.{Freshness}
use httpcache.Http.{Request, Response}
use httpcache.Message.{with_conditional_headers}
use httpcache.Time.{Duration}
use httpcache.Transport.{
  Timed, round_trip_timed, handle_unrecognized_method, after_miss, handle_cache_miss,
  serve_from_cache, handle_stale_while_revalidate, revalidate, in_swr_window, validated,
}
use httpcache.Validation.{
  Context, store_response_at, use_response, serve_stale, handle_validation_response,
}
use httpcache.World.{Env, World, send}

module _ {S : Type 0} (env : Env S) where
  pub sent-round_trip_timed :
      (req : Request) (w : World S) → (round_trip_timed env req w).1.sent ≡ w.sent ++ req ∷ []
  unfolding round_trip_timed send
  sent-round_trip_timed req w = refl

  pub store-round_trip_timed :
      (req : Request) (w : World S) → (round_trip_timed env req w).1.store ≡ w.store
  unfolding round_trip_timed send
  store-round_trip_timed req w = refl

  pub sent-use_response :
      (ctx : Context) (req : Request) (resp : Response) (cc : Directives) (w : World S)
      → (use_response env ctx req resp cc w).1.sent ≡ w.sent
  unfolding use_response store_response_at
  sent-use_response ctx req resp cc w = ground arith

  pub sent-handle_validation_response :
      (ctx : Context) (req : Request) (resp : Response) (w : World S)
      → (handle_validation_response env ctx req resp w).1.sent ≡ w.sent
  unfolding handle_validation_response store_response_at serve_stale
  sent-handle_validation_response ctx req resp w =
      let cc = parse_cc_directives resp.header in
      let n = (can_stale_on_error env.cal.clock ctx.freshness (cc ∷ []) w.reads).1 in
      ground (
        arith,
        sent-use_response ctx req resp cc w,
        sent-use_response ctx req resp cc (record w { reads = n }),
      )

  pub sent-after_miss :
      (req : Request) (key : Bytes) (refs : ResponseRefs) (i : Option ℕ) (t : Option Timed)
      (w : World S)
      → (after_miss env req key refs i t w).1.sent ≡ w.sent
  unfolding after_miss store_response_at
  sent-after_miss req key refs i none w = refl
  sent-after_miss req key refs i (some t) w = ground arith

  pub sent-serve_from_cache :
      (req : Request) (key : Bytes) (stored : Stored) (f : Freshness) (fields : Option (List Bytes))
      (w : World S)
      → (serve_from_cache env req key stored f fields w).1.sent ≡ w.sent
  unfolding serve_from_cache
  sent-serve_from_cache req key stored f fields w = refl

  pub sent-validated :
      (req : Request) (stored : Stored) (key : Bytes) (refs : ResponseRefs) (i : Option ℕ)
      (f : Freshness) (t : Option Timed) (w : World S)
      → (validated env req stored key refs i f t w).1.sent ≡ w.sent
  sent-validated req stored key refs i f none w = refl
  sent-validated req stored key refs i f (some t) w = sent-handle_validation_response _ _ _ w

  pub sent-revalidate :
      (req : Request) (stored : Stored) (key : Bytes) (refs : ResponseRefs) (i : Option ℕ)
      (f : Freshness) (w : World S)
      → (revalidate env req stored key refs i f w).1.sent
        ≡ w.sent ++ with_conditional_headers req stored.response.header ∷ []
  unfolding revalidate
  sent-revalidate req stored key refs i f w =
      let creq = with_conditional_headers req stored.response.header in
      sent-validated req stored key refs i f (round_trip_timed env creq w).0
        (round_trip_timed env creq w).1
      ∙ sent-round_trip_timed creq w

  pub sent-handle_cache_miss :
      (req : Request) (key : Bytes) (refs : ResponseRefs) (i : Option ℕ) (w : World S)
      → (handle_cache_miss env req key refs i w).1.sent
        ≡ (if only_if_cached (parse_cc_directives req.header) then w.sent else w.sent ++ req ∷ [])
  unfolding handle_cache_miss
  sent-handle_cache_miss req key refs i w = ground (
    arith,
    sent-round_trip_timed req w,
    sent-after_miss req key refs i (round_trip_timed env req w).0 (round_trip_timed env req w).1,
  )

  pub store-serve_from_cache :
      (req : Request) (key : Bytes) (stored : Stored) (f : Freshness) (fields : Option (List Bytes))
      (w : World S)
      → (serve_from_cache env req key stored f fields w).1.store ≡ w.store
  unfolding serve_from_cache
  store-serve_from_cache req key stored f fields w = refl

  pub sent-swr :
      (req : Request) (stored : Stored) (key : Bytes) (f : Freshness) (cc : Directives)
      (w : World S)
      → (handle_stale_while_revalidate env req stored key f cc w).1.sent ≡ w.sent
  unfolding handle_stale_while_revalidate
  sent-swr req stored key f cc w = refl

  pub sent-in_swr_window :
      (f : Freshness) (swr : Duration) (w : World S) → (in_swr_window env f swr w).1.sent ≡ w.sent
  unfolding in_swr_window
  sent-in_swr_window f swr w = refl

  pub sent-handle_unrecognized_method :
      (req : Request) (key : Bytes) (w : World S)
      → (handle_unrecognized_method env req key w).1.sent ≡ w.sent ++ req ∷ []
  unfolding handle_unrecognized_method send
  sent-handle_unrecognized_method req key w = ground arith

  pub store-in_swr_window :
      (f : Freshness) (swr : Duration) (w : World S) → (in_swr_window env f swr w).1.store ≡ w.store
  unfolding in_swr_window
  store-in_swr_window f swr w = refl

  pub store-stale_hit :
      (req : Request) (stored : Stored) (key : Bytes) (f : Freshness) (cc : Directives)
      (w : World S)
      → (handle_stale_while_revalidate env req stored key f cc w).1.store ≡ w.store
  unfolding handle_stale_while_revalidate
  store-stale_hit req stored key f cc w = refl
