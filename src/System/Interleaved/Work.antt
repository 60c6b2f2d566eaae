-- ===== src/System/Interleaved/Work.antt =====
-- How many requests reach the origin while others wait, and what becomes of them.
use httpcache.Base.{
  ℕ, suc, ◌+◌, ◌≤◌, ◌≡◌, refl, ap, List, [], ◌∷◌, ◌++◌, Option, arith, length, length-append,
}
use httpcache.Http.{Request, Response}
use httpcache.System.Interleaved.{
  Busy, Steps, start, arrives, begins, answers_to, join, start_task, arrive,
}
use httpcache.Time.{now}
use httpcache.Transport.Load.{load}
use httpcache.Transport.Split.{
  Waiting, renewing, Progress, answered, waits, request_of, begin, begin_background,
}
use httpcache.Transport.Split.Answers.{resume-SameWork, load-begin}
use httpcache.Transport.Split.Frames.{HasBegun, begin-HasBegun}
use httpcache.World.{Env, World, Task}

pub world-join : {S : Type 0} (ps : List Waiting) (r : Progress × World S) → (join ps r).world ≡ r.1
unfolding join
world-join ps (answered answer, w) = refl
world-join ps (waits p, w) = refl

-- What begins adds to the requests sent what it adds to the calls that wait.
length-join :
    {S : Type 0} (ps : List Waiting) (w : World S) (r : Progress × World S)
    → HasBegun w r
    → length (join ps r).world.sent + length ps ≡ length w.sent + length (join ps r).waiting
unfolding join
length-join ps w (answered answer, w') (_, s) = omega (arith, ap length s)
length-join ps w (waits p, w') (_, s) =
    omega (arith, ap length s, length-append w.sent (request_of p ∷ []), length-append ps (p ∷ []))

module _ {S : Type 0} (env : Env S) where
  load-arrive : (req : Request) (b : Busy S) → load (arrive env req b).world ≤ suc (load b.world)
  load-arrive req b =
      omega
        (arith, ap load (world-join b.waiting (begin env req b.world)), load-begin env req b.world)

  -- A background revalidation that begins goes from the list to the origin.
  length-start_task :
      (before after : List Task) (t : Task) (b : Busy S)
      → b.world.pending ≡ before ++ t ∷ after
      → let c = start_task env before t after b in
        (load c.world ≡ load b.world)
        × (length c.world.sent ≡ suc (length b.world.sent))
        × (length c.waiting ≡ suc (length b.waiting))
  unfolding begin_background join
  length-start_task before after t b e =
      let s = length-append b.world.sent (t.request ∷ []) in
      (
        omega (arith, s, ap length e, length-append before after, length-append before (t ∷ after)),
        omega (arith, s),
        omega
            (arith, length-append b.waiting (renewing t (now env.cal.clock b.world.reads).0 ∷ [])),
      )

  -- However requests, background revalidations and the origin's answers interleave, the requests that
  -- the origin has had, and those still to be sent in the background, are at most as many more as
  -- clients have made; and each request that the origin has had waits for its answer or has had one
  -- answer, so that none is lost and none answered twice.
  pub Steps-load :
      {b : Busy S} {n k : ℕ} {answers : List (Waiting × Option Response)} {c : Busy S}
      → Steps env b n k answers c
      → (load c.world ≤ n + load b.world)
        × (length c.world.sent + length b.waiting
            ≡ length b.world.sent + length c.waiting + length answers)
  Steps-load start = (omega arith, omega arith)
  Steps-load (arrives {n} {k} {answers} {c} req r) =
      let (l, q) = Steps-load r in
      let added =
        length-join c.waiting c.world (begin env req c.world) (begin-HasBegun env req c.world) in
      (omega (arith, l, load-arrive req c), omega (arith, q, added))
  Steps-load (begins {n} {k} {answers} {c} before after t r e) =
      let (l, q) = Steps-load r in
      let (l', s, m) = length-start_task before after t c e in
      (omega (arith, l, l'), omega (arith, q, s, m))
  Steps-load (answers_to {n} {k} {answers} {c} moment answer before after p r e) =
      let (l, q) = Steps-load r in
      let (s, m) = resume-SameWork env moment p answer c.world in
      let w = length-append before (p ∷ after) in
      let w' = length-append before after in
      (
        omega (arith, l, ap length s, ap length m),
        omega (arith, q, ap length s, ap length e, w, w'),
      )
