-- ===== src/System/Outage.antt =====
-- A transport in use while its origin cannot be reached.
use httpcache.Base.{ℕ, ◌≡◌, refl, ◌∙◌, List, ◌++◌, none}
use httpcache.Http.{Request}
use httpcache.System.{Run, start, after_request, after_task, finish}
use httpcache.Transport.{background_revalidate, round_trip_timed}
use httpcache.Transport.Failure.{timed-none, store-round_trip_of_down}
use httpcache.Transport.Frames.{store-round_trip_timed}
use httpcache.World.{Env, World, Task, send, Moment}

module _ {S : Type 0} (env : Env S)
    (down : (sent : List Request) (r : Request) → env.origin sent r ≡ none) where
  -- A revalidation in the background changes nothing that is stored.
  store-finish :
      (moment : Moment) (before after : List Task) (t : Task) (w : World S)
      → (finish env moment before t after w).store ≡ w.store
  unfolding background_revalidate round_trip_timed send
  store-finish moment before after t w =
      let w₀ : World S = record w { pending = before ++ after } in
      rw (timed-none env down t.request w₀) (store-round_trip_timed env t.request w₀)

  -- While the origin cannot be reached, no sequence of requests and background revalidations, in
  -- any order, changes what is stored.
  pub Run-store : {w : World S} {n k : ℕ} {w' : World S} → Run env w n k w' → w'.store ≡ w.store
  Run-store start = refl
  Run-store (after_request {n} {k} {u} req r) =
      store-round_trip_of_down env down req u ∙ Run-store r
  Run-store (after_task {n} {k} {u} moment before after t r e) =
      store-finish moment before after t u ∙ Run-store r
