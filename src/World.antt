-- ===== src/World.antt =====
-- What a transport works on (roundtripper.go): its configuration, its state, and actions on it.
use httpcache.Base.{ℕ, Bool, List, [], ◌∷◌, ◌++◌, Option}
use httpcache.Base.Int.{ℤ}
use httpcache.Bytes.{Bytes}
use httpcache.Cache.{Codec}
use httpcache.Directives.{Directives}
use httpcache.Entry.{Stored}
use httpcache.Freshness.{Freshness, Calendar}
use httpcache.Http.{Request, Response}
use httpcache.Invalidator.{Urls}
use httpcache.Log.Calls.{LogCall}
use httpcache.Store.{Conn}
use httpcache.Time.{Duration, Clocked}

-- The fields of `transport` and what they call outside the repository. The origin's answer depends
-- on the requests that it has had; `none` is an error of the upstream round tripper.
pub record Env (S : Type 0) : Type 0 where
  pub conn : Conn S
  pub codec : Codec
  pub cal : Calendar
  pub urls : Urls
  pub normalize : Bytes → Bytes → Bytes
  pub whole_seconds : Duration → ℤ
  pub origin : List Request → Request → Option Response

-- The arguments of backgroundRevalidate. The stored response is the one that the client is given.
pub record Task : Type 0 where
  pub request : Request
  pub stored : Stored
  pub url_key : Bytes
  pub freshness : Freshness
  pub cc_req : Directives

-- How a background revalidation goes on when the origin has answered: not at all, since its context
-- is done; or with what is left of the stored response's body, and whether that has been closed. The
-- client has been given the same response, and reads its body at the same time.
pub data Moment : Type 0 where
  context_done : Moment
  body_left : Bytes → Bool → Moment

-- The stored response as the goroutine finds it.
abbrev pub as_left : Bytes → Bool → Stored → Stored
as_left left closed stored = record stored {
  response = record stored.response { body = left; closed = closed };
}

-- The backend's state, the readings made of the clock, the requests that the origin has had, the
-- revalidations that run in the background, and the calls made of the logger.
pub record World (S : Type 0) : Type 0 where
  pub store : S
  pub reads : ℕ
  pub sent : List Request
  pub pending : List Task
  pub logged : List LogCall

abbrev pub Action : Type 0 → Type 0 → Type 0
Action S A = World S → A × World S

module _ {S A : Type 0} where
  abbrev pub pure : A → Action S A
  pure a w = (a, w)

  abbrev pub clocked : Clocked A → Action S A
  clocked f w = let (a, n) = f w.reads in (a, record w { reads = n })

module _ {S A B : Type 0} where
  infixl 5 ◌>>=◌ ◌>>◌
  abbrev pub ◌>>=◌ : Action S A → (A → Action S B) → Action S B
  ◌>>=◌ m f w = let (a, w') = m w in f a w'

  abbrev pub ◌>>◌ : Action S A → Action S B → Action S B
  m >> k = m >>= λ _. k

module _ {S : Type 0} where
  abbrev pub on_store : (S → S) → Action S (Unit {0})
  on_store f w = (tt, record w { store = f w.store })

  -- `upstream.RoundTrip`
  unfoldable pub send : Env S → Request → Action S (Option Response)
  send env req w = (env.origin w.sent req, record w { sent = w.sent ++ req ∷ [] })

  -- A goroutine is started.
  abbrev pub spawn : Task → Action S (Unit {0})
  spawn t w = (tt, record w { pending = w.pending ++ t ∷ [] })

  -- A call of the logger.
  abbrev pub log : LogCall → Action S (Unit {0})
  log c w = (tt, record w { logged = w.logged ++ c ∷ [] })
