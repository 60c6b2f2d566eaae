-- ===== src/System/Bounds.antt =====
-- How many requests reach the origin in a run, and the end of the background work.
use httpcache.Base.{
  ℕ, suc, ◌+◌, ◌≤◌, ◌≡◌, refl, ap, List, [], ◌∷◌, ◌++◌, arith, length, length-append,
}
use httpcache.System.{Run, start, after_request, after_task, finish, drain}
use httpcache.Transport.Load.{load, round_trip-AddsOne, sent-background_revalidate}
use httpcache.Transport.Pending.{pending-background_revalidate}
use httpcache.World.{Env, World, Task, Moment}

module _ {S : Type 0} (env : Env S) where
  -- Running a task takes it off the list, and sends one request.
  length-finish :
      (moment : Moment) (before after : List Task) (t : Task) (w : World S)
      → w.pending ≡ before ++ t ∷ after
      → let w' = finish env moment before t after w in
        (suc (length w'.pending) ≡ length w.pending) × (length w'.sent ≡ suc (length w.sent))
  length-finish moment before after t w e =
      let w₀ : World S = record w { pending = before ++ after } in
      let s = ap length (sent-background_revalidate env moment t w₀) in
      let p = ap length (pending-background_revalidate env moment t w₀) in
      (
        omega (arith, p, ap length e, length-append before after, length-append before (t ∷ after)),
        omega (arith, s, length-append w.sent (t.request ∷ [])),
      )

  -- However requests and revalidations alternate, the requests that the origin has had, and those
  -- still to be sent in the background, are at most as many more as clients have made.
  pub Run-load : {w : World S} {n k : ℕ} {w' : World S} → Run env w n k w' → load w' ≤ n + load w
  Run-load start = omega arith
  Run-load (after_request {n} {k} {u} req r) =
      omega (arith, Run-load r, round_trip-AddsOne env req u)
  Run-load (after_task {n} {k} {u} moment before after t r e) =
      let (p, s) = length-finish moment before after t u e in omega (arith, Run-load r, p, s)

  -- Without requests of clients, each revalidation that runs leaves one fewer and sends one request:
  -- so no more than are there can run, in any order.
  pub Run-pending :
      {w : World S} {k : ℕ} {w' : World S}
      → Run env w 0 k w'
      → (k + length w'.pending ≡ length w.pending) × (length w'.sent ≡ k + length w.sent)
  Run-pending start = (omega arith, omega arith)
  Run-pending (after_task {n} {k} {u} moment before after t r e) =
      let (p, s) = length-finish moment before after t u e in
      let (q, m) = Run-pending r in (omega (arith, p, q), omega (arith, s, m))

  drain-Run :
      (moment : Task → Moment) (ts : List Task) (n k : ℕ) (w u : World S)
      → Run env w n k u
      → u.pending ≡ ts
      → Run env w n (length ts + k) (drain env moment ts u) × ((drain env moment ts u).pending ≡ [])
  unfolding drain
  drain-Run moment [] n k w u r e = let done : 0 + k ≡ k = omega arith in (rw done r, e)
  drain-Run moment (t ∷ ts) n k w u r e =
      let u' = finish env (moment t) [] t ts u in
      let (run, empty) =
        drain-Run moment ts n (suc k) w u' (after_task (moment t) [] ts t r e)
          (pending-background_revalidate env (moment t) t (record u { pending = ts })) in
      let steps : length ts + suc k ≡ suc (length ts) + k = omega arith in (rw steps at run, empty)

  -- The background work comes to its end: from any state the revalidations that are there can run,
  -- with no request of a client, until none is left, and the origin has had one request for each,
  -- however each goes on when the origin has answered.
  pub drain_lem :
      (moment : Task → Moment) (w : World S)
      → let w' = drain env moment w.pending w in
        Run env w 0 (length w.pending) w'
        × (w'.pending ≡ [])
        × (length w'.sent ≡ length w.pending + length w.sent)
  drain_lem moment w =
      let (run, empty) = drain-Run moment w.pending 0 0 w w start refl in
      let none_more : length w.pending + 0 ≡ length w.pending = omega arith in
      let r = rw none_more at run in (r, empty, (Run-pending r).1)
