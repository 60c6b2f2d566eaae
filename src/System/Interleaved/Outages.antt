-- ===== src/System/Interleaved/Outages.antt =====
-- Several goroutines while the origin gives no answer.
use httpcache.Base.{ℕ, ◌≡◌, refl, ◌∙◌, ap, List, Option, none, All}
use httpcache.Http.{Response}
use httpcache.System.Interleaved.{Busy, Steps, start, arrives, begins, answers_to, join}
use httpcache.Transport.Split.{Waiting, begin, begin_background}
use httpcache.Transport.Split.Answers.{store-resume-none}
use httpcache.Transport.Split.Frames.{begin-HasBegun}
use httpcache.System.Interleaved.Work.{world-join}
use httpcache.World.{Env, World}

module _ {S : Type 0} (env : Env S) where
  -- While the origin answers no request, nothing that is stored changes, whatever requests and
  -- background revalidations begin and end, in any order.
  pub Steps-store :
      {b : Busy S} {n k : ℕ} {answers : List (Waiting × Option Response)} {c : Busy S}
      → Steps env b n k answers c
      → All (λ a. a.1 ≡ none) answers
      → c.world.store ≡ b.world.store
  unfolding begin_background join
  Steps-store start down = refl
  Steps-store (arrives {n} {k} {answers} {c} req r) down =
      ap (λ (w : World S). w.store) (world-join c.waiting (begin env req c.world))
      ∙ ((begin-HasBegun env req c.world).0 ∙ Steps-store r down)
  Steps-store (begins before after t r e) down = Steps-store r down
  Steps-store (answers_to {n} {k} {answers} {c} moment answer before after p r e) (h, down) =
      rw h (store-resume-none env moment p c.world) ∙ Steps-store r down
