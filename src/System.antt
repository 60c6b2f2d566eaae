-- ===== src/System.antt =====
-- A transport in use: clients' requests and the background revalidations, one after another in any
-- order. A request, like the run of a goroutine, is one step.
pub mod Bounds
pub mod Outage
pub mod Interleaved
pub mod Provenance
use httpcache.Base.{ℕ, zero, suc, ◌≡◌, Bool, false, List, [], ◌∷◌, ◌++◌}
use httpcache.Http.{Request}
use httpcache.Transport.{round_trip, background_revalidate}
use httpcache.World.{Env, World, Task, Moment, context_done, body_left}

module _ {S : Type 0} (env : Env S) where
  -- A revalidation in the background runs, whichever it is; and however it goes on when the origin
  -- has answered.
  abbrev pub finish : Moment → List Task → Task → List Task → World S → World S
  finish moment before t after w =
      (background_revalidate env moment t (record w { pending = before ++ after })).1

  -- `Run n k w w'`: a run from `w` to `w'` with `n` requests of clients and `k` revalidations.
  pub data Run (w : World S) : ℕ → ℕ → World S → Type 0 where
    start : Run w zero zero w
    after_request :
        {n k : ℕ} {u : World S} (req : Request)
        → Run w n k u
        → Run w (suc n) k (round_trip env req u).1
    after_task :
        {n k : ℕ} {u : World S} (moment : Moment) (before after : List Task) (t : Task)
        → Run w n k u
        → u.pending ≡ before ++ t ∷ after
        → Run w n (suc k) (finish moment before t after u)

  -- The tasks that are there run one after another, until none is left, each going on in
  -- its way.
  unfoldable pub drain : (Task → Moment) → List Task → World S → World S
  drain moment [] w = w
  drain moment (t ∷ ts) w = drain moment ts (finish (moment t) [] t ts w)
