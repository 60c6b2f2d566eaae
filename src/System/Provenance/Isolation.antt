-- ===== src/System/Provenance/Isolation.antt =====
-- A transport in use by several goroutines: which bodies its clients are given.
use mathlib.Core.List.Sublist
use mathlib.Core.List.{Sublist}
use httpcache.Base.{
  ℕ, ◌≡◌, refl, List, [], ◌∷◌, ◌++◌, All, All-append, Option, none, some, ◌⊎◌, inl, inr,
}
use httpcache.Bytes.{Bytes}
use httpcache.Cache
use httpcache.Http.{Request, Response}
use httpcache.Store.{IsConn, not_exist}
use httpcache.System.Interleaved.{Busy, Steps, start, arrives, begins, answers_to, join}
use httpcache.System.Provenance.{
  IsCodec, IsKey, IsShared, Leaves, ServesOwn, KeepsOwn, WaitsOwn, ProgressOwn, AnswersOwn,
  WorldOwn, key_of,
}
use httpcache.System.Provenance.Answers.{resume-Own}
use httpcache.System.Provenance.Begins.{Own, begin-Own}
use httpcache.Transport.Split.{Waiting, Progress, answered, waits, begin, begin_background, resume}
use httpcache.Vary.{make_vary_key}
use httpcache.World.{Env, World, Moment}

All-split {ℓ κ} :
    {A : Type ℓ} (P : A → Type κ) (xs ys : List A) → All P (xs ++ ys) → All P xs × All P ys
All-split P [] ys h = (tt, h)
All-split P (x ∷ xs) ys (p, h) = let (a, b) = All-split P xs ys h in ((p, a), b)

-- An element that is taken out of a list, and the rest.
All-take_out {ℓ κ} :
    {A : Type ℓ} (P : A → Type κ) (xs ys : List A) (y : A)
    → All P (xs ++ y ∷ ys)
    → P y × All P (xs ++ ys)
All-take_out P xs ys y h =
    let (a, (p, b)) = All-split P xs (y ∷ ys) h in (p, All-append P xs ys a b)

-- In a run the keys of the clients' requests are words in ASCII, and a background revalidation finds
-- some of the bytes of its body, in their order.
abbrev pub IsPlausible :
    {S : Type 0} (env : Env S) {b : Busy S} {n k : ℕ} {answers : List (Waiting × Option Response)}
    {c : Busy S}
    → Steps env b n k answers c
    → Type 0
IsPlausible env start = Unit {0}
IsPlausible env (arrives req r) = IsKey (env.urls.url_key req.url) × IsPlausible env r
IsPlausible env (begins before after t r e) = IsPlausible env r
IsPlausible env (answers_to moment answer before after p r e) = Leaves moment p × IsPlausible env r

module _ {S : Type 0} (env : Env S) (laws : IsConn env.conn) (told : IsCodec env.codec)
    (P : Bytes → Bytes → Type 0) (shared : IsShared P) where
  abbrev BusyOwn : Busy S → Type 0
  BusyOwn b = WorldOwn P env b.world × All (WaitsOwn P) b.waiting

  join-Own :
      (key : Bytes) (ps : List Waiting) (r : Progress × World S)
      → Own env P key r
      → All (WaitsOwn P) ps
      → BusyOwn (join ps r)
  unfolding join
  join-Own key ps (answered answer, w) (_, h) hs = (h, hs)
  join-Own key ps (waits p, w) ((o, _), h) hs = (h, All-append (WaitsOwn P) ps (p ∷ []) hs (o, tt))

  -- Each body stays with its URL in every run in which the origin's answers are for the URLs that
  -- they are asked for.
  pub Steps-Own :
      {b : Busy S} {n k : ℕ} {answers : List (Waiting × Option Response)} {c : Busy S}
      (r : Steps env b n k answers c)
      → IsPlausible env r
      → All (AnswersOwn P) answers
      → BusyOwn b
      → BusyOwn c
  unfolding begin_background join
  Steps-Own start words good h = h
  Steps-Own (arrives {n} {k} {answers} {c} req r) (word, words) good h =
      let (h', hs) = Steps-Own r words good h in
      join-Own (env.urls.url_key req.url) c.waiting (begin env req c.world)
        (begin-Own env P req c.world word h') hs
  Steps-Own (begins {n} {k} {answers} {c} before after t r e) words good h =
      let ((store, tasks), hs) = Steps-Own r words good h in
      let (own, rest) = All-take_out (KeepsOwn P) before after t (rw e at tasks) in
      ((store, rest), All-append (WaitsOwn P) c.waiting (_ ∷ []) hs (own, tt))
  Steps-Own (answers_to {n} {k} {answers} {c} moment answer before after p r e) (part, words)
        (a, good) h =
      let (h', hs) = Steps-Own r words good h in
      let (own, rest) = All-take_out (WaitsOwn P) before after p (rw e at hs) in
      ((resume-Own env laws told P shared moment p answer c.world own part a h').1, rest)

-- The origin has given the body in an answer to a call for the URL.
abbrev pub Given : List (Waiting × Option Response) → Bytes → Bytes → Type 0
Given [] key body = ⊥
Given ((p, none) ∷ answers) key body = Given answers key body
Given ((p, some resp) ∷ answers) key body =
    ((key_of p ≡ key) × (resp.body ≡ body)) ⊎ Given answers key body

-- Some of the bytes of such a body, in their order.
abbrev pub GivenPart : List (Waiting × Option Response) → Bytes → Bytes → Type 0
GivenPart answers key part = (body : Bytes) × Given answers key body × Sublist part body

GivenPart-IsShared : (answers : List (Waiting × Option Response)) → IsShared (GivenPart answers)
GivenPart-IsShared answers key body part (whole, given, s) t = (whole, given, Sublist.trans t s)

GivenPart-of_Given :
    (answers : List (Waiting × Option Response)) (key body : Bytes)
    → Given answers key body
    → GivenPart answers key body
GivenPart-of_Given answers key body g = (body, g, Sublist.refl body)

Given-All :
    (answers : List (Waiting × Option Response)) (P : Bytes → Bytes → Type 0)
    → ((key body : Bytes) → Given answers key body → P key body)
    → All (AnswersOwn P) answers
Given-All [] P h = tt
Given-All ((p, none) ∷ answers) P h = (tt, Given-All answers P h)
Given-All ((p, some resp) ∷ answers) P h = (
  h (key_of p) resp.body (inl (refl, refl)),
  Given-All answers P (λ key body g. h key body (inr g)),
)

-- Nothing is stored, waits or is to run.
pub record IsEmpty {S : Type 0} (env : Env S) (b : Busy S) : Type 0 where
  pub nothing_stored : (k : Bytes) → env.conn.get k b.world.store ≡ not_exist
  pub nothing_pending : b.world.pending ≡ []
  pub nothing_waits : b.waiting ≡ []

module _ {S : Type 0} (env : Env S) (laws : IsConn env.conn) (told : IsCodec env.codec) where
  IsEmpty-Own :
      (P : Bytes → Bytes → Type 0) (shared : IsShared P) {b : Busy S}
      → IsEmpty env b
      → BusyOwn env laws told P shared b
  unfolding Cache.get Cache.get_refs
  IsEmpty-Own P shared e = (
    (
      record {
        refs_own =
            λ key refs r. let absent : none ≡ some refs = rw (e.nothing_stored key) at r in cc;
        entry_from = λ key d reader entry r.
            let absent : none ≡ some entry = rw (e.nothing_stored (make_vary_key key d)) at r in cc;
      },
      rw e.nothing_pending tt,
    ),
    rw e.nothing_waits tt,
  )

  -- From an empty cache on, however requests, background revalidations and the origin's answers
  -- interleave, a client is only given bytes that the origin has given for the client's own URL, or
  -- the answer to `only-if-cached`, or an error: a request that is answered at once, and a call that
  -- waits and is answered. The bytes are some of those of one body, in their order, since a client
  -- and a background revalidation can read one body at the same time; a revalidation finds
  -- some of the bytes of its body, in their order. The backend keeps its laws, the keys of the URLs
  -- are words in ASCII, and the encodings are told apart and read back no more than the body, and
  -- identifiers in ASCII.
  pub Steps-ServesOwn :
      {b : Busy S} {n k : ℕ} {answers : List (Waiting × Option Response)} {c : Busy S}
      (req : Request) (moment : Moment) (answer : Option Response) (before after : List Waiting)
      (p : Waiting) (r : Steps env b n k answers c)
      → IsPlausible env r
      → IsKey (env.urls.url_key req.url)
      → IsEmpty env b
      → c.waiting ≡ before ++ p ∷ after
      → Leaves moment p
      → ProgressOwn (GivenPart answers) (env.urls.url_key req.url) (begin env req c.world).0
        × ServesOwn
            (GivenPart ((p, answer) ∷ answers))
            (key_of p)
            (resume env moment p answer c.world).0
  Steps-ServesOwn {b} {n} {k} {answers} {c} req moment answer before after p r words word empty e
        part =
      let P = GivenPart answers in
      let Q = GivenPart ((p, answer) ∷ answers) in
      let p_shared = GivenPart-IsShared answers in
      let q_shared = GivenPart-IsShared ((p, answer) ∷ answers) in
      let all = Given-All answers P (GivenPart-of_Given answers) in
      let (now_own, more) =
        Given-All ((p, answer) ∷ answers) Q (GivenPart-of_Given ((p, answer) ∷ answers)) in
      let (h, _) = Steps-Own env laws told P p_shared r words all (IsEmpty-Own P p_shared empty) in
      let (h', hs) =
        Steps-Own env laws told Q q_shared r words more (IsEmpty-Own Q q_shared empty) in
      let (own, _) = All-take_out (WaitsOwn Q) before after p (rw e at hs) in
      (
        (begin-Own env P req c.world word h).0,
        (resume-Own env laws told Q q_shared moment p answer c.world own part now_own h').0,
      )
