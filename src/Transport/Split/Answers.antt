-- ===== src/Transport/Split/Answers.antt =====
-- roundtripper.go: what follows the origin's answer, and what it leaves as it was.
use httpcache.Base.{
  ◌≡◌, refl, Option, none, some, ◌≤◌, arith, ap, length, suc, Bool-cases, inl, inr,
}
use httpcache.Bytes.{Bytes}
use httpcache.Http.{Request, Response}
use httpcache.Message.{is_unsafe_method, is_non_error_status}
use httpcache.Transport.{after_miss, after_unsafe, after_safe}
use httpcache.Transport.Frames.{sent-after_miss, sent-validated}
use httpcache.Transport.Load.{load, round_trip-AddsOne, sent-after_background}
use httpcache.Transport.Pending.{pending-after_miss, pending-validated, pending-after_background}
use httpcache.Transport.Split.{Waiting, Progress, answered, waits, request_of, begin, resume}
use httpcache.Transport.Split.Serial.{deliver, deliver-begin}
use httpcache.World.{Env, World, Moment, context_done}

-- The requests that the origin has had and the background revalidations are the same.
abbrev SameWork : {S : Type 0} → World S → World S → Type 0
SameWork w w' = (w'.sent ≡ w.sent) × (w'.pending ≡ w.pending)

module _ {S : Type 0} (env : Env S) where
  pub resume-SameWork :
      (moment : Moment) (p : Waiting) (answer : Option Response) (w : World S)
      → SameWork w (resume env moment p answer w).1
  unfolding resume
  resume-SameWork moment (Waiting.passing req key) answer w =
      elim (Bool-cases (is_unsafe_method req.method)) [
        | inl unsafe ↦ rw unsafe (after_unsafe_same req key answer w)
        | inr safe ↦ rw safe (after_safe_same req key answer w)
      ]
    where
      after_safe_same :
          (req : Request) (key : Bytes) (answer : Option Response) (w : World S)
          → SameWork w (after_safe env req key answer w).1
      after_safe_same req key none w = (refl, refl)
      after_safe_same req key (some r) w = (refl, refl)

      after_unsafe_same :
          (req : Request) (key : Bytes) (answer : Option Response) (w : World S)
          → SameWork w (after_unsafe env req key answer w).1
      after_unsafe_same req key none w = (refl, refl)
      after_unsafe_same req key (some r) w = elim (Bool-cases (is_non_error_status r.status_code)) [
        | inl good ↦ rw good (refl, refl)
        | inr bad ↦ rw bad (refl, refl)
      ]
  resume-SameWork moment (Waiting.missing req key refs i start) answer w =
      (sent-after_miss env req key refs i _ _, pending-after_miss env req key refs i _ _)
  resume-SameWork moment (Waiting.validating req stored key refs i f start) answer w = (
    sent-validated env req stored key refs i f _ _,
    pending-validated env req stored key refs i f _ _,
  )
  resume-SameWork moment (Waiting.renewing task start) answer w =
      (sent-after_background env moment task _ _, pending-after_background env moment task _ _)

  -- Without an answer nothing is stored.
  pub store-resume-none :
      (moment : Moment) (p : Waiting) (w : World S) → (resume env moment p none w).1.store ≡ w.store
  unfolding resume after_miss
  store-resume-none moment (Waiting.passing req key) w =
      elim (Bool-cases (is_unsafe_method req.method)) [
        | inl unsafe ↦ rw unsafe
        | inr safe ↦ rw safe
      ]
  store-resume-none moment (Waiting.missing req key refs i start) w = refl
  store-resume-none moment (Waiting.validating req stored key refs i f start) w = refl
  store-resume-none moment (Waiting.renewing task start) w = refl

  load-deliver :
      (w : World S) (p : Progress × World S) → load (deliver env context_done w.sent p).1 ≡ load p.1
  unfolding deliver
  load-deliver w (answered answer, w') = refl
  load-deliver w (waits p, w') =
      let (s, q) = resume-SameWork context_done p (env.origin w.sent (request_of p)) w' in
      omega (arith, ap length s, ap length q)

  -- A request that has begun has added one at most to the work.
  pub load-begin : (req : Request) (w : World S) → load (begin env req w).1 ≤ suc (load w)
  load-begin req w = omega (
    arith,
    load-deliver w (begin env req w),
    ap (λ (r : Option Response × World S). load r.1) (deliver-begin env req w),
    round_trip-AddsOne env req w,
  )
