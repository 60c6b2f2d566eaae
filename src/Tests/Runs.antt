-- ===== src/Tests/Runs.antt =====
-- A transport in use at a concrete one: a request, and a revalidation in the background.
use httpcache.Base.{◌+◌, ◌≡◌, refl, [], ◌∷◌, length}
use httpcache.Memcache.{MemCache}
use httpcache.System.{Run, start, after_task, finish, drain}
use httpcache.System.Bounds.{drain_lem}
use httpcache.Tests.{env, task, world}
use httpcache.World.{World, context_done}

-- Two revalidations are to run.
abbrev busy : World MemCache
busy = record world { pending = task ∷ task ∷ [] }

abbrev less_busy : World MemCache
less_busy = finish env context_done [] task (task ∷ []) busy

one_task : Run env busy 0 1 less_busy
one_task = after_task context_done [] (task ∷ []) task start refl

drain_lem_example :
    let w' = drain env (λ _. context_done) busy.pending busy in
    Run env busy 0 (length busy.pending) w'
    × (w'.pending ≡ [])
    × (length w'.sent ≡ length busy.pending + length busy.sent)
drain_lem_example = drain_lem env (λ _. context_done) busy
