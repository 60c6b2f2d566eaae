-- ===== src/Tests/Interleaved.antt =====
-- Requests that interleave at their calls of the origin, on the concrete transport.
use httpcache.Base.{List, Option, ◌+◌, ◌≤◌, ◌≡◌, refl, true, false, none, some, [], ◌∷◌, length}
use httpcache.Bytes.{codes}
use httpcache.Cache
use httpcache.Cacheability.{can_store_response}
use httpcache.Directives.{parse_cc_directives, only_if_cached}
use httpcache.Entry.{Stored, ResponseRef}
use httpcache.Http.{Response}
use httpcache.Memcache.{MemCache, conn-IsConn}
use httpcache.Message.{is_request_method_understood}
use httpcache.System.Interleaved.{
  Busy, Steps, start, arrives, begins, answers_to, start_task, answer_to, arrive, join,
}
use httpcache.System.Interleaved.Outages.{Steps-store}
use httpcache.System.Interleaved.Work.{Steps-load}
use httpcache.Tests.{env, codec, get_request, put_request, answer, task, world}
use httpcache.Time.{now}
use httpcache.Transport.Load.{load}
use httpcache.Transport.Split.{Waiting, begin, begin_background}
use httpcache.Transport.Split.Overwrites.{complete, arrived, own_entry, get_refs-complete_cold}
use httpcache.World.{World, context_done}

-- A client's request waits, and a background revalidation is to run.
abbrev waiting_get : Waiting
waiting_get = Waiting.missing get_request (codes "/a") [] none (now env.cal.clock 0).0

abbrev busy : Busy MemCache
busy = record { world = record world { pending = task ∷ [] }; waiting = waiting_get ∷ [] }

abbrev renewing_too : Busy MemCache
renewing_too = start_task env [] task [] busy

abbrev renewing_task : Waiting
renewing_task = Waiting.renewing task (now env.cal.clock 0).0

begun : Steps env busy 0 1 [] renewing_too
begun = begins [] [] task start refl

both_wait : renewing_too.waiting ≡ waiting_get ∷ renewing_task ∷ []
unfolding join begin_background
both_wait = refl

-- The request fails, and then another comes.
abbrev after_failure : Busy MemCache
after_failure = answer_to env context_done none [] waiting_get (renewing_task ∷ []) renewing_too

abbrev no_answer : List (Waiting × Option Response)
no_answer = (waiting_get, none) ∷ []

failed_then_put : Steps env busy 1 1 no_answer (arrive env put_request after_failure)
failed_then_put =
    arrives put_request
      (answers_to context_done none [] (renewing_task ∷ []) waiting_get begun both_wait)

Steps-load_example :
    let c = arrive env put_request after_failure in
    (load c.world ≤ 1 + load busy.world)
    × (length c.world.sent + length busy.waiting
        ≡ length busy.world.sent + length c.waiting + length no_answer)
Steps-load_example = Steps-load env failed_then_put

Steps-store_example : (arrive env put_request after_failure).world.store ≡ busy.world.store
Steps-store_example = Steps-store env failed_then_put (refl, tt)

-- Nothing is stored when the request is sent; when its answer comes, another has stored a variant.
abbrev cold : World MemCache
cold = record world { store = [] }

abbrev warm : World MemCache
warm = record world { store = (codes "/a", codes "/a#7") ∷ (codes "/a#7", codes "other") ∷ [] }

get_is_understood : is_request_method_understood get_request ≡ true
unfolding is_request_method_understood httpcache.Bytes.str_eq httpcache.Http.get httpcache.Dict.get
get_is_understood = refl

not_only_cached : only_if_cached (parse_cc_directives get_request.header) ≡ false
unfolding only_if_cached parse_cc_directives httpcache.Http.get
not_only_cached = refl

nothing_stored : Cache.get_refs env.conn env.codec (env.urls.url_key get_request.url) [] ≡ none
unfolding Cache.get_refs httpcache.Memcache.get httpcache.Dict.get
nothing_stored = refl

may_be_stored :
    can_store_response
      (arrived env cold warm answer).response
      (parse_cc_directives get_request.header)
      (parse_cc_directives (arrived env cold warm answer).response.header)
    ≡ true
unfolding can_store_response httpcache.Directives.must_understand parse_cc_directives
    httpcache.Http.get httpcache.Time.fix_date_header httpcache.Time.raw_time httpcache.Bytes.str_eq
    httpcache.Http.canonical_key httpcache.Http.set httpcache.Dict.put
    httpcache.Directives.parse_directives httpcache.Directives.no_store httpcache.Directives.public
    httpcache.Directives.max_age_present
may_be_stored = refl

abbrev own : Stored × ResponseRef
own = own_entry env get_request (arrived env cold warm answer)

own_entry_encoded : codec.marshal own.0 ≡ some (codes "hello")
unfolding httpcache.Storer.new_entry httpcache.Message.remove_hop_by_hop_headers
own_entry_encoded = refl

own_ref_encoded : codec.marshal_refs (own.1 ∷ []) ≡ some own.1.response_id
unfolding httpcache.Storer.new_entry httpcache.Text.join
own_ref_encoded = refl

get_refs-complete_cold_example :
    let s = (complete env (begin env get_request cold).0 answer warm).store in
    (Cache.get env.conn env.codec own.0.id get_request s ≡ codec.parse (codes "hello") get_request)
    × (Cache.get_refs env.conn env.codec (env.urls.url_key get_request.url) s
        ≡ codec.unmarshal_refs own.1.response_id)
get_refs-complete_cold_example =
    get_refs-complete_cold env conn-IsConn get_request cold warm answer (codes "hello")
      own.1.response_id get_request get_is_understood not_only_cached nothing_stored may_be_stored
      own_entry_encoded own_ref_encoded
