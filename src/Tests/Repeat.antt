-- ===== src/Tests/Repeat.antt =====
-- A repeated request at a concrete transport whose backend is empty.
use httpcache.Base.{ℕ, ◌≡◌, refl, true, false, [], ◌∷◌, none, some}
use httpcache.Base.Int.{pos}
use httpcache.Bytes.{codes, str_eq}
use httpcache.Dict
use httpcache.Entry.{date_header}
use httpcache.Http
use httpcache.Http.{canonical_key}
use httpcache.Memcache
use httpcache.Memcache.{conn-IsConn}
use httpcache.Message.{
  is_request_method_understood, remove_hop_by_hop_headers, trimmed_csv_canonical, remove_all,
  hop_by_hop_headers,
}
use httpcache.Storer.{new_entry}
use httpcache.Tests.{get_request, answer, codec, env, world, ref_of}
use httpcache.Text.{join}
use httpcache.Text.Csv.{trimmed_csv}
use httpcache.Time.{raw_time}
use httpcache.Cache
use httpcache.Cacheability.{can_store_response}
use httpcache.Directives.{parse_cc_directives, only_if_cached}
use httpcache.Transport.{Timed, round_trip_timed, round_trip, handle_cache_hit}
use httpcache.Wiring.{Json, Outside, wire_codec, wired}
use httpcache.Wiring.Repeat.{kept, round_trip-round_trip_encoded}
use httpcache.Tests.Around.{wire, wire-IsWire}
use httpcache.Tests.Values.{quality}
use httpcache.Text.{is_space}
use httpcache.Entry.Encoding.{IsWord}
use httpcache.Vary.{make_vary_key, normalized_vary_header, resolve_fields}
use httpcache.World.{World}

abbrev json : Json
json = record { marshal_refs = codec.marshal_refs; unmarshal_refs = codec.unmarshal_refs }

abbrev outside : Outside ℕ
outside = record {
  wire = wire;
  json = json;
  quality = quality;
  cal = env.cal;
  urls = env.urls;
  whole_seconds = env.whole_seconds;
  origin = env.origin;
}

abbrev first_world : World Memcache.MemCache
first_world = record world { store = Memcache.empty }

-- The answer of the origin to the first request, with a Date.
abbrev first_answer : Timed
first_answer = record {
  response = record answer {
    header =
        (codes "Cache-Control", codes "max-age=60" ∷ [])
        ∷ (codes "Date", codes "Thu, 01 Jan 1970 00:00:00 GMT" ∷ [])
        ∷ [];
  };
  start = pos 0;
  end = pos 1_000_000_000;
}

get_is_understood : is_request_method_understood get_request ≡ true
unfolding is_request_method_understood Http.get canonical_key Dict.get str_eq
get_is_understood = refl

first_vary :
    str_eq
      (kept outside Memcache.conn conn-IsConn get_request first_answer first_world).1.vary
      (codes "*")
    ≡ false
unfolding new_entry remove_hop_by_hop_headers join Http.values Dict.get remove_all
    hop_by_hop_headers trimmed_csv_canonical trimmed_csv Http.get str_eq canonical_key Dict.remove
first_vary = refl

first_ref :
    (kept outside Memcache.conn conn-IsConn get_request first_answer first_world).1
    ≡ ref_of (codes "/a#0")
unfolding new_entry remove_hop_by_hop_headers join make_vary_key normalized_vary_header
    resolve_fields trimmed_csv_canonical trimmed_csv Http.values Dict.get remove_all
    hop_by_hop_headers Http.get str_eq canonical_key Dict.remove date_header raw_time
first_ref = refl

first_ref_encoded :
    json.marshal_refs
      ((kept outside Memcache.conn conn-IsConn get_request first_answer first_world).1 ∷ [])
    ≡ some (codes "/a#0")
unfolding join
first_ref_encoded = rw first_ref refl

first_ref_decoded :
    json.unmarshal_refs (codes "/a#0")
    ≡ some ((kept outside Memcache.conn conn-IsConn get_request first_answer first_world).1 ∷ [])
unfolding trimmed_csv
first_ref_decoded = rw first_ref refl

first_is_answered :
    (round_trip_timed (wired outside Memcache.conn) get_request first_world).0 ≡ some first_answer
unfolding round_trip_timed httpcache.World.send httpcache.Time.fix_date_header httpcache.Time.now
    raw_time Http.get Dict.get str_eq canonical_key Http.set Dict.put
first_is_answered = refl

first_may_be_stored :
    can_store_response first_answer.response
      (parse_cc_directives get_request.header)
      (parse_cc_directives first_answer.response.header)
    ≡ true
unfolding can_store_response httpcache.Directives.must_understand parse_cc_directives Http.get
    str_eq canonical_key httpcache.Directives.parse_directives httpcache.Directives.no_store
    httpcache.Directives.public httpcache.Directives.max_age_present
first_may_be_stored = refl

first_has_no_refs :
    Cache.get_refs Memcache.conn (wire_codec wire json) (codes "/a") first_world.store ≡ none
unfolding Cache.get_refs Memcache.get Dict.get Memcache.empty
first_has_no_refs = refl

not_only_cached : only_if_cached (parse_cc_directives get_request.header) ≡ false
unfolding only_if_cached parse_cc_directives Http.get
not_only_cached = refl

path-IsWord : IsWord (codes "/a")
unfolding is_space
path-IsWord = record { filled = λ e. cc e; no_space = (refl, (refl, tt)) }

first_dumped :
    wire.dump_response
      (kept outside Memcache.conn conn-IsConn get_request first_answer first_world).0.response
    ≡ some (codes "hello")
unfolding new_entry remove_hop_by_hop_headers
first_dumped = refl

round_trip-round_trip_encoded_example :
    let (stored, ref) =
      kept outside Memcache.conn conn-IsConn get_request first_answer first_world in
    let env = wired outside Memcache.conn in
    let w' = (round_trip env get_request first_world).1 in
    round_trip env get_request w'
    ≡ handle_cache_hit env get_request
        (record stored { response = answer })
        (codes "/a")
        (ref ∷ [])
        (some 0)
        w'
round_trip-round_trip_encoded_example =
    round_trip-round_trip_encoded outside Memcache.conn conn-IsConn get_request first_answer
      first_world (codes "hello") (codes "/a#0") answer wire-IsWire path-IsWord get_is_understood
      first_has_no_refs not_only_cached first_is_answered first_may_be_stored first_vary
      first_dumped refl first_ref_encoded first_ref_decoded
