-- ===== src/System/Provenance.antt =====
-- Where what is stored comes from: `P key body` says that `body` may be served for the URL with the
-- key, such as that the origin has given it in answer to a request for that URL.
pub mod Names
pub mod Stores
pub mod Deletes
pub mod Answers
pub mod Begins
pub mod Isolation
use mathlib.Core.List.{Sublist}
use httpcache.Base.{◌≡◌, true, ltb, ◌⊎◌, All, List, [], ◌∷◌, Option, none, some}
use httpcache.Bytes.{Bytes}
use httpcache.Cache
use httpcache.Cache.{Codec}
use httpcache.Dict.{Dict}
use httpcache.Entry.{Stored, ResponseRef, ResponseRefs, response_ids}
use httpcache.Entry.Encoding.{IsWord}
use httpcache.Http.{Request, Response}
use httpcache.Message.{gateway_timeout}
use httpcache.Store.{Conn}
use httpcache.Transport.Split.{Waiting, Progress, answered, waits}
use httpcache.World.{Env, World, Task, Moment, context_done, body_left}
use httpcache.Vary.{make_vary_key}

-- The identifier is one of an entry of the URL.
abbrev pub Owns : Bytes → Bytes → Type 0
Owns key id = (d : Dict Bytes) × (id ≡ make_vary_key key d)

abbrev pub OwnRefs : Bytes → ResponseRefs → Type 0
OwnRefs key refs = All (λ r. Owns key r.response_id) refs

abbrev pub IsAscii : Bytes → Type 0
IsAscii s = All (λ c. ltb c 128 ≡ true) s

-- The key of a URL: a word in ASCII.
pub record IsKey (key : Bytes) : Type 0 where
  pub word : IsWord key
  pub ascii : IsAscii key

-- The two encodings are told apart. An entry whose identifier is a word is read back with no more
-- than its body (an answer to HEAD is read without one), and references whose identifiers are ASCII
-- with these identifiers.
pub record IsCodec (codec : Codec) : Type 0 where
  pub body_kept :
      (e e' : Stored) (bytes : Bytes) (reader : Request)
      → IsWord e.id
      → codec.marshal e ≡ some bytes
      → codec.parse bytes reader ≡ some e'
      → Sublist e'.response.body e.response.body
  pub ids_kept :
      (refs refs' : ResponseRefs) (bytes : Bytes)
      → All IsAscii (response_ids refs)
      → codec.marshal_refs refs ≡ some bytes
      → codec.unmarshal_refs bytes ≡ some refs'
      → response_ids refs' ≡ response_ids refs
  pub refs_no_entry :
      (refs : ResponseRefs) (bytes : Bytes) (reader : Request)
      → codec.marshal_refs refs ≡ some bytes
      → codec.parse bytes reader ≡ none
  pub entry_no_refs :
      (e : Stored) (bytes : Bytes)
      → codec.marshal e ≡ some bytes
      → codec.unmarshal_refs bytes ≡ none

-- The references of a URL name entries of it, and an entry of a URL has a body for it.
pub record Holds {S : Type 0} (conn : Conn S) (codec : Codec) (P : Bytes → Bytes → Type 0) (s : S)
    : Type 0 where
  pub refs_own :
      (key : Bytes) (refs : ResponseRefs)
      → Cache.get_refs conn codec key s ≡ some refs
      → OwnRefs key refs
  pub entry_from :
      (key : Bytes) (d : Dict Bytes) (reader : Request) (e : Stored)
      → Cache.get conn codec (make_vary_key key d) reader s ≡ some e
      → P key e.response.body

-- The URL that a call is about.
abbrev pub key_of : Waiting → Bytes
key_of (Waiting.passing req key) = key
key_of (Waiting.missing req key refs i start) = key
key_of (Waiting.validating req stored key refs i f start) = key
key_of (Waiting.renewing task start) = task.url_key

-- A background revalidation finds some of the bytes of the body, in their order.
abbrev pub LeavesOf : Moment → Task → Type 0
LeavesOf context_done task = Unit {0}
LeavesOf (body_left left closed) task = Sublist left task.stored.response.body

abbrev pub Leaves : Moment → Waiting → Type 0
Leaves moment (Waiting.passing req key) = Unit {0}
Leaves moment (Waiting.missing req key refs i start) = Unit {0}
Leaves moment (Waiting.validating req stored key refs i f start) = Unit {0}
Leaves moment (Waiting.renewing task start) = LeavesOf moment task

-- What holds of a body holds of some of its bytes in their order.
abbrev pub IsShared : (Bytes → Bytes → Type 0) → Type 0
IsShared P = (key body part : Bytes) → P key body → Sublist part body → P key part

module _ (P : Bytes → Bytes → Type 0) where
  -- What a client is given for the URL: an error, the answer to `only-if-cached`, or such a body.
  abbrev pub ServesOwn : Bytes → Option Response → Type 0
  ServesOwn key none = Unit {0}
  ServesOwn key (some resp) = (resp ≡ gateway_timeout) ⊎ P key resp.body

  abbrev pub KeepsOwn : Task → Type 0
  KeepsOwn task = IsKey task.url_key × P task.url_key task.stored.response.body

  abbrev pub ReadsOwn : Waiting → Type 0
  ReadsOwn (Waiting.passing req key) = Unit {0}
  ReadsOwn (Waiting.missing req key refs i start) = OwnRefs key refs
  ReadsOwn (Waiting.validating req stored key refs i f start) =
      OwnRefs key refs × P key stored.response.body
  ReadsOwn (Waiting.renewing task start) = P task.url_key task.stored.response.body

  -- The key of a call is a word, and what it has read is of its URL.
  abbrev pub WaitsOwn : Waiting → Type 0
  WaitsOwn p = IsKey (key_of p) × ReadsOwn p

  abbrev pub ProgressOwn : Bytes → Progress → Type 0
  ProgressOwn key (answered answer) = ServesOwn key answer
  ProgressOwn key (waits p) = WaitsOwn p × (key_of p ≡ key)

  -- The origin's answer to a call is one for its URL.
  abbrev pub AnswersOwn : Waiting × Option Response → Type 0
  AnswersOwn (p, none) = Unit {0}
  AnswersOwn (p, some resp) = P (key_of p) resp.body

  abbrev pub WorldOwn : {S : Type 0} → Env S → World S → Type 0
  WorldOwn env w = Holds env.conn env.codec P w.store × All KeepsOwn w.pending
