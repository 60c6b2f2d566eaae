-- ===== src/Tests/Rounds.antt =====
-- The theorems on the transport at a concrete one.
use httpcache.Base.{◌≡◌, refl, ◌⊎◌, inl, true, false, [], ◌∷◌, none, some}
use httpcache.Base.Int.{pos}
use httpcache.Bytes.{codes, str_eq}
use httpcache.Cache
use httpcache.Dict
use httpcache.Directives.{
  parse_cc_directives, parse_directives, must_revalidate, immutable, request_no_cache,
  response_no_cache, only_if_cached, no_store,
}
use httpcache.Entry.{response_ids}
use httpcache.Http
use httpcache.Http.{Request, canonical_key}
use httpcache.Memcache
use httpcache.Memcache.{conn-IsConn}
use httpcache.Message.{
  with_conditional_headers, is_unsafe_method, is_non_error_status, contains,
  remove_hop_by_hop_headers, merge_response_headers, merge_fields, trimmed_csv_canonical,
  remove_all, hop_by_hop_headers,
}
use httpcache.Storer.{new_entry}
use httpcache.Vary.{make_vary_key, normalized_vary_header, resolve_fields}
use httpcache.Text.Csv.{trimmed_csv}
use httpcache.Text.{join}
use httpcache.Store.{not_exist}
use httpcache.Tests.{
  get_request, put_request, private_request, answer, confirmation, codec, env, world, entry,
  strict_entry, fresh, stale, task, store,
}
use httpcache.Transport.{
  Timed, decide_cache_hit, round_trip, handle_cache_miss, serve_from_cache, after_background,
}
use httpcache.Transport.Background.{after_background_lem, renewed_entry}
use httpcache.Transport.Contact.{AsksAtMostOnce, round_trip-AsksAtMostOnce}
use httpcache.Transport.NoStore.{store-handle_cache_miss_of_no_store}
use httpcache.Transport.Reuse.{MustConfirm, MayReuse, sent-decide_of_MustConfirm, MayReuse_of_sent}
use httpcache.Transport.Reports.Requests.{ReportsMaybe, round_trip-Reports}
use httpcache.Transport.Unsafe.{known_refs, get-round_trip_of_unsafe}
use httpcache.World.{body_left}

fresh_hit_is_local :
    (decide_cache_hit env get_request entry (codes "/a") [] (some 0) fresh world).1.sent
    ≡ world.sent
unfolding decide_cache_hit serve_from_cache parse_cc_directives parse_directives Http.get
    canonical_key Dict.get str_eq immutable must_revalidate response_no_cache only_if_cached
    request_no_cache
fresh_hit_is_local = refl

MayReuse_of_sent_example :
    MayReuse env get_request entry (codes "/a") [] (some 0) fresh world
    × (¬ MustConfirm get_request entry fresh)
MayReuse_of_sent_example =
    MayReuse_of_sent env get_request entry (codes "/a") [] (some 0) fresh world fresh_hit_is_local

strict-MustConfirm : MustConfirm get_request strict_entry stale
unfolding parse_cc_directives parse_directives must_revalidate Http.get canonical_key Dict.get
    str_eq
strict-MustConfirm = inl (refl, refl)

sent-decide_of_MustConfirm_example :
    (decide_cache_hit env get_request strict_entry (codes "/a") [] (some 0) stale world).1.sent
    ≡ with_conditional_headers get_request strict_entry.response.header ∷ []
sent-decide_of_MustConfirm_example =
    sent-decide_of_MustConfirm env get_request strict_entry (codes "/a") [] (some 0) stale world
      strict-MustConfirm

round_trip-AsksAtMostOnce_example : AsksAtMostOnce [] (round_trip env get_request world).1.sent
round_trip-AsksAtMostOnce_example = round_trip-AsksAtMostOnce env get_request world

round_trip-Reports_example :
    ReportsMaybe get_request
      (env.urls.url_key get_request.url)
      world.logged
      (round_trip env get_request world).1.logged
      (round_trip env get_request world).0
round_trip-Reports_example = round_trip-Reports env get_request world

put_is_unsafe : is_unsafe_method put_request.method ≡ true
unfolding is_unsafe_method str_eq
put_is_unsafe = refl

answer_is_fine : is_non_error_status answer.status_code ≡ true
unfolding is_non_error_status
answer_is_fine = refl

get-round_trip_of_unsafe_example :
    let s = (round_trip env put_request world).1.store in
    (contains (codes "/a" ∷ response_ids (known_refs env put_request answer world)) (codes "/a#0")
        ≡ true
      → Memcache.get (codes "/a#0") s ≡ not_exist)
    × ((Memcache.get (codes "/a#0") s ≡ not_exist)
        ⊎ (Memcache.get (codes "/a#0") s ≡ Memcache.get (codes "/a#0") store))
get-round_trip_of_unsafe_example =
    get-round_trip_of_unsafe env put_request answer world conn-IsConn put_is_unsafe refl
      answer_is_fine (codes "/a#0")

private_has_no_store : no_store (parse_cc_directives private_request.header) ≡ true
unfolding parse_cc_directives parse_directives no_store Http.get canonical_key Dict.get str_eq
private_has_no_store = refl

store-handle_cache_miss_of_no_store_example :
    (handle_cache_miss env private_request (codes "/a") [] none world).1.store ≡ store
store-handle_cache_miss_of_no_store_example =
    store-handle_cache_miss_of_no_store env private_request (codes "/a") [] none world
      (inl private_has_no_store)

abbrev confirmed : Timed
confirmed = record { response = confirmation; start = pos 5; end = pos 6 }

confirmed_encoded :
    codec.marshal (renewed_entry env conn-IsConn task confirmed (codes "lo") false world).0
    ≡ some (codes "lo")
unfolding new_entry remove_hop_by_hop_headers merge_response_headers
confirmed_encoded = refl

confirmed_ref_encoded :
    codec.marshal_refs
      ((renewed_entry env conn-IsConn task confirmed (codes "lo") false world).1 ∷ [])
    ≡ some (codes "/a#0")
unfolding new_entry remove_hop_by_hop_headers merge_response_headers merge_fields join make_vary_key
    normalized_vary_header resolve_fields trimmed_csv_canonical trimmed_csv Http.values Dict.get
    remove_all hop_by_hop_headers Http.get str_eq canonical_key Dict.remove Dict.put contains
confirmed_ref_encoded = refl

after_background_lem_example :
    let s =
      (after_background env (body_left (codes "lo") false) task (some confirmed) world).1.store in
    (Cache.get env.conn env.codec
        (renewed_entry env conn-IsConn task confirmed (codes "lo") false world).0.id
        get_request
        s
      ≡ env.codec.parse (codes "lo") get_request)
    × (Cache.get_refs env.conn env.codec (codes "/a") s ≡ env.codec.unmarshal_refs (codes "/a#0"))
after_background_lem_example =
    after_background_lem env conn-IsConn task confirmed (codes "lo") false world (codes "lo")
      (codes "/a#0") refl refl confirmed_encoded confirmed_ref_encoded get_request
