-- ===== src/System/Interleaved.antt =====
-- A transport in use by several goroutines: clients' requests and background revalidations that
-- interleave at their calls of the origin. The origin may answer them in any order, and in any way.
pub mod Work
pub mod Outages
use httpcache.Base.{ℕ, zero, suc, ◌≡◌, Bool, List, [], ◌∷◌, ◌++◌, Option}
use httpcache.Http.{Request, Response}
use httpcache.Transport.Split.{Waiting, Progress, answered, waits, begin, begin_background, resume}
use httpcache.World.{Env, World, Task, Moment, context_done, body_left}

-- The state that the goroutines share, and those that wait for the origin.
pub record Busy (S : Type 0) : Type 0 where
  pub world : World S
  pub waiting : List Waiting

-- What has begun waits, unless it has been answered.
unfoldable pub join : {S : Type 0} → List Waiting → Progress × World S → Busy S
join waiting (answered answer, w) = record { world = w; waiting = waiting }
join waiting (waits p, w) = record { world = w; waiting = waiting ++ p ∷ [] }

module _ {S : Type 0} (env : Env S) where
  abbrev pub arrive : Request → Busy S → Busy S
  arrive req b = join b.waiting (begin env req b.world)

  -- The goroutine of a background revalidation begins.
  abbrev pub start_task : List Task → Task → List Task → Busy S → Busy S
  start_task before t after b =
      join b.waiting (begin_background env t (record b.world { pending = before ++ after }))

  abbrev pub answer_to :
      Moment → Option Response → List Waiting → Waiting → List Waiting → Busy S → Busy S
  answer_to moment answer before p after b = record {
    world = (resume env moment p answer b.world).1;
    waiting = before ++ after;
  }

  -- `Steps b n k answers c`: from `b` to `c`, with `n` requests of clients, `k` background
  -- revalidations that begin, and the origin's answers to those that wait, the last one first.
  pub data Steps (b : Busy S) : ℕ → ℕ → List (Waiting × Option Response) → Busy S → Type 0 where
    start : Steps b zero zero [] b
    arrives :
        {n k : ℕ} {answers : List (Waiting × Option Response)} {c : Busy S} (req : Request)
        → Steps b n k answers c
        → Steps b (suc n) k answers (arrive req c)
    begins :
        {n k : ℕ} {answers : List (Waiting × Option Response)} {c : Busy S}
        (before after : List Task) (t : Task)
        → Steps b n k answers c
        → c.world.pending ≡ before ++ t ∷ after
        → Steps b n (suc k) answers (start_task before t after c)
    answers_to :
        {n k : ℕ} {answers : List (Waiting × Option Response)} {c : Busy S} (moment : Moment)
        (answer : Option Response) (before after : List Waiting) (p : Waiting)
        → Steps b n k answers c
        → c.waiting ≡ before ++ p ∷ after
        → Steps b n k ((p, answer) ∷ answers) (answer_to moment answer before p after c)
