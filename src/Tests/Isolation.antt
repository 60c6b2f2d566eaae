-- ===== src/Tests/Isolation.antt =====
-- Two requests for a URL on a backend that is empty, of which the first is answered.
use mathlib.Core.List.Sublist
use httpcache.Base.{
  ℕ, ◌≡◌, refl, ap, sym, ◌∙◌, none, some, Option, [], ◌∷◌, ◌==◌, if◌then◌else◌, arith,
}
use httpcache.Bytes.{Bytes, codes}
use httpcache.Cache
use httpcache.Cache.{Codec}
use httpcache.Entry.{Stored, ResponseRefs, response_ids}
use httpcache.Http.{Request, Response}
use httpcache.Memcache.{MemCache, conn-IsConn}
use httpcache.System.Interleaved.{Busy, Steps, start, arrives, answers_to, answer_to, arrive, join}
use httpcache.System.Provenance.{IsCodec, IsKey, ServesOwn, ProgressOwn, key_of}
use httpcache.System.Provenance.Isolation.{GivenPart, IsEmpty, Steps-ServesOwn}
use httpcache.Tests
use httpcache.Tests.{get_request, answer, entry, ref_of, world}
use httpcache.Time.{now}
use httpcache.Transport.Split.{Waiting, begin, resume}
use httpcache.World.{Env, context_done}

-- Entries and references with a letter in front; more than one reference is not encoded.
abbrev read_entry : Bytes → Option Stored
read_entry [] = none
read_entry (c ∷ b) =
    if c == b'e' then some (record entry { response = record answer { body = b } }) else none

abbrev write_refs : ResponseRefs → Option Bytes
write_refs [] = none
write_refs (r ∷ []) = some (b'r' ∷ r.response_id)
write_refs (r ∷ q ∷ refs) = none

abbrev read_refs : Bytes → Option ResponseRefs
read_refs [] = none
read_refs (c ∷ id) = if c == b'r' then some (ref_of id ∷ []) else none

abbrev letters : Codec
letters = record {
  marshal = λ e. some (b'e' ∷ e.response.body);
  parse = λ b _. read_entry b;
  marshal_refs = write_refs;
  unmarshal_refs = read_refs;
}

kept_body :
    (e e' : Stored) (bytes : Bytes)
    → some (b'e' ∷ e.response.body) ≡ some bytes
    → read_entry bytes ≡ some e'
    → e'.response.body ≡ e.response.body
kept_body e e' [] m p = cc
kept_body e e' (c ∷ b) m p = ground arith

kept_ids :
    (refs refs' : ResponseRefs) (bytes : Bytes)
    → write_refs refs ≡ some bytes
    → read_refs bytes ≡ some refs'
    → response_ids refs' ≡ response_ids refs
unfolding response_ids
kept_ids [] refs' bytes m p = cc
kept_ids (r ∷ []) refs' [] m p = cc
kept_ids (r ∷ []) refs' (c ∷ id) m p =
    let same : c ∷ id ≡ b'r' ∷ r.response_id = cc in
    let read : some (ref_of r.response_id ∷ []) ≡ some refs' = ap read_refs (sym same) ∙ p in
    let refs : ref_of r.response_id ∷ [] ≡ refs' = cc in rw (← refs) refl
kept_ids (r ∷ q ∷ refs) refs' bytes m p = cc

refs_unlike_entry :
    (refs : ResponseRefs) (bytes : Bytes) → write_refs refs ≡ some bytes → read_entry bytes ≡ none
refs_unlike_entry [] bytes m = cc
refs_unlike_entry (r ∷ []) [] m = cc
refs_unlike_entry (r ∷ []) (c ∷ b) m = ground arith
refs_unlike_entry (r ∷ q ∷ refs) bytes m = cc

entry_unlike_refs :
    (e : Stored) (bytes : Bytes)
    → some (b'e' ∷ e.response.body) ≡ some bytes
    → read_refs bytes ≡ none
entry_unlike_refs e [] m = cc
entry_unlike_refs e (c ∷ b) m = ground arith

letters-IsCodec : IsCodec letters
letters-IsCodec = record {
  body_kept =
      λ e e' bytes reader word m p. rw (kept_body e e' bytes m p) (Sublist.refl e.response.body);
  ids_kept = λ refs refs' bytes ascii m p. kept_ids refs refs' bytes m p;
  refs_no_entry = λ refs bytes reader m. refs_unlike_entry refs bytes m;
  entry_no_refs = entry_unlike_refs;
}

abbrev env : Env MemCache
env = record Tests.env { codec = letters }

abbrev idle : Busy MemCache
idle = record { world = record world { store = [] }; waiting = [] }

abbrev waiting_from : ℕ → Waiting
waiting_from n = Waiting.missing get_request (codes "/a") [] none (now env.cal.clock n).0

abbrev both_wait : Busy MemCache
both_wait = arrive env get_request (arrive env get_request idle)

two_requests : Steps env idle 2 0 [] both_wait
two_requests = arrives get_request (arrives get_request start)

both_are_there : both_wait.waiting ≡ waiting_from 0 ∷ waiting_from 1 ∷ []
unfolding join begin httpcache.Message.is_request_method_understood httpcache.Bytes.str_eq
    httpcache.Http.get httpcache.Dict.get Cache.get_refs Tests.Memcache.get
    httpcache.Transport.Split.begin_miss httpcache.Directives.only_if_cached
    httpcache.Directives.parse_cc_directives now
both_are_there = refl

abbrev one_answered : Busy MemCache
one_answered =
    answer_to env context_done (some answer) [] (waiting_from 0) (waiting_from 1 ∷ []) both_wait

first_answer : Steps env idle 2 0 ((waiting_from 0, some answer) ∷ []) one_answered
first_answer =
    answers_to context_done (some answer) [] (waiting_from 1 ∷ []) (waiting_from 0) two_requests
      both_are_there

idle-IsEmpty : IsEmpty env idle
unfolding httpcache.Memcache.get httpcache.Dict.get
idle-IsEmpty = record { nothing_stored = λ k. refl; nothing_pending = refl; nothing_waits = refl }

a-IsKey : IsKey (codes "/a")
unfolding httpcache.Text.is_space
a-IsKey = record {
  word = record { filled = λ e. cc e; no_space = (refl, (refl, tt)) };
  ascii = (refl, (refl, tt));
}

Steps-ServesOwn_example :
    ProgressOwn
      (GivenPart ((waiting_from 0, some answer) ∷ []))
      (codes "/a")
      (begin env get_request one_answered.world).0
    × ServesOwn
        (GivenPart ((waiting_from 1, some answer) ∷ (waiting_from 0, some answer) ∷ []))
        (key_of (waiting_from 1))
        (resume env context_done (waiting_from 1) (some answer) one_answered.world).0
unfolding first_answer two_requests
Steps-ServesOwn_example =
    Steps-ServesOwn env conn-IsConn letters-IsCodec get_request context_done (some answer) [] []
      (waiting_from 1) first_answer (tt, (a-IsKey, (a-IsKey, tt))) a-IsKey idle-IsEmpty refl tt
