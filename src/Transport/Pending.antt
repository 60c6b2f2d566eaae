-- ===== src/Transport/Pending.antt =====
-- Which handlers leave the revalidations in the background as they are.
use httpcache.Base.{ℕ, ◌≡◌, refl, ◌∙◌, List, [], ◌∷◌, Option, none, some, arith}
use httpcache.Bytes.{Bytes}
use httpcache.Cacheability.{can_stale_on_error}
use httpcache.Directives.{Directives, parse_cc_directives}
use httpcache.Entry.{Stored, ResponseRefs}
use httpcache.Freshness.{Freshness}
use httpcache.Http.{Request, Response}
use httpcache.Message.{with_conditional_headers}
use httpcache.Time.{Duration}
use httpcache.Transport.{
  Timed, round_trip_timed, handle_unrecognized_method, after_miss, handle_cache_miss,
  serve_from_cache, revalidate, in_swr_window, validated, after_background, background_revalidate,
}
use httpcache.Validation.{
  Context, store_response_at, use_response, serve_stale, handle_validation_response,
}
use httpcache.World.{Env, World, Task, send, Moment, context_done, body_left}

module _ {S : Type 0} (env : Env S) where
  pub pending-round_trip_timed :
      (req : Request) (w : World S) → (round_trip_timed env req w).1.pending ≡ w.pending
  unfolding round_trip_timed send
  pending-round_trip_timed req w = refl

  pending-use_response :
      (ctx : Context) (req : Request) (resp : Response) (cc : Directives) (w : World S)
      → (use_response env ctx req resp cc w).1.pending ≡ w.pending
  unfolding use_response store_response_at
  pending-use_response ctx req resp cc w = ground arith

  pub pending-handle_validation_response :
      (ctx : Context) (req : Request) (resp : Response) (w : World S)
      → (handle_validation_response env ctx req resp w).1.pending ≡ w.pending
  unfolding handle_validation_response store_response_at serve_stale
  pending-handle_validation_response ctx req resp w =
      let cc = parse_cc_directives resp.header in
      let n = (can_stale_on_error env.cal.clock ctx.freshness (cc ∷ []) w.reads).1 in
      ground (
        arith,
        pending-use_response ctx req resp cc w,
        pending-use_response ctx req resp cc (record w { reads = n }),
      )

  pub pending-after_miss :
      (req : Request) (key : Bytes) (refs : ResponseRefs) (i : Option ℕ) (t : Option Timed)
      (w : World S)
      → (after_miss env req key refs i t w).1.pending ≡ w.pending
  unfolding after_miss store_response_at
  pending-after_miss req key refs i none w = refl
  pending-after_miss req key refs i (some t) w = ground arith

  pub pending-serve_from_cache :
      (req : Request) (key : Bytes) (stored : Stored) (f : Freshness) (fields : Option (List Bytes))
      (w : World S)
      → (serve_from_cache env req key stored f fields w).1.pending ≡ w.pending
  unfolding serve_from_cache
  pending-serve_from_cache req key stored f fields w = refl

  pub pending-in_swr_window :
      (f : Freshness) (swr : Duration) (w : World S)
      → (in_swr_window env f swr w).1.pending ≡ w.pending
  unfolding in_swr_window
  pending-in_swr_window f swr w = refl

  pub pending-validated :
      (req : Request) (stored : Stored) (key : Bytes) (refs : ResponseRefs) (i : Option ℕ)
      (f : Freshness) (t : Option Timed) (w : World S)
      → (validated env req stored key refs i f t w).1.pending ≡ w.pending
  pending-validated req stored key refs i f none w = refl
  pending-validated req stored key refs i f (some t) w = pending-handle_validation_response _ _ _ w

  pub pending-revalidate :
      (req : Request) (stored : Stored) (key : Bytes) (refs : ResponseRefs) (i : Option ℕ)
      (f : Freshness) (w : World S)
      → (revalidate env req stored key refs i f w).1.pending ≡ w.pending
  unfolding revalidate
  pending-revalidate req stored key refs i f w =
      let creq = with_conditional_headers req stored.response.header in
      pending-validated req stored key refs i f (round_trip_timed env creq w).0
        (round_trip_timed env creq w).1
      ∙ pending-round_trip_timed creq w

  pub pending-handle_cache_miss :
      (req : Request) (key : Bytes) (refs : ResponseRefs) (i : Option ℕ) (w : World S)
      → (handle_cache_miss env req key refs i w).1.pending ≡ w.pending
  unfolding handle_cache_miss
  pending-handle_cache_miss req key refs i w = ground (
    arith,
    pending-round_trip_timed req w,
    pending-after_miss req key refs i (round_trip_timed env req w).0 (round_trip_timed env req w).1,
  )

  pub pending-handle_unrecognized_method :
      (req : Request) (key : Bytes) (w : World S)
      → (handle_unrecognized_method env req key w).1.pending ≡ w.pending
  unfolding handle_unrecognized_method send
  pending-handle_unrecognized_method req key w = ground arith

  pub pending-after_background :
      (moment : Moment) (task : Task) (t : Option Timed) (w : World S)
      → (after_background env moment task t w).1.pending ≡ w.pending
  pending-after_background moment task none w = refl
  pending-after_background context_done task (some t) w = refl
  pending-after_background (body_left left closed) task (some t) w =
      pending-handle_validation_response _ _ _ w

  pub pending-background_revalidate :
      (moment : Moment) (task : Task) (w : World S)
      → (background_revalidate env moment task w).1.pending ≡ w.pending
  unfolding background_revalidate
  pending-background_revalidate moment task w =
      pending-after_background moment task (round_trip_timed env task.request w).0 _
      ∙ pending-round_trip_timed task.request w
