-- ===== src/Tests/Parts.antt =====
-- The theorems on the parts of the cache at concrete arguments.
use mathlib.Core.List.{Perm}
use httpcache.Base.{◌≡◌, ◌↔◌, ◌⊎◌, refl, true, false, [], ◌∷◌, none, some, arith, if◌then◌else◌}
use httpcache.Base.Int.{pos, negsuc, ◌<ℤ◌}
use httpcache.Bytes.{codes, str_eq}
use httpcache.Cache
use httpcache.Cacheability.{can_store_response}
use httpcache.Cacheability.Rules.{MayStore, can_store_response_iff}
use httpcache.Dict
use httpcache.Directives.{parse_cc_directives, raw_delta_seconds, max_age, min_fresh, max_stale}
use httpcache.Directives.Seconds.{raw_delta_seconds_lem}
use httpcache.Entry.{ResponseRefs, response_ids}
use httpcache.Freshness.{judge}
use httpcache.Freshness.Staleness.{Below, StaysFresh, judge-fresh}
use httpcache.Http
use httpcache.Text.{is_ascii_space}
use httpcache.Text.Csv.Parts.{IsPart}
use httpcache.Http.{Response, Header, canonical_key}
use httpcache.Invalidator.{invalidate_cache}
use httpcache.Invalidator.Removes.{get-invalidate_cache, get-invalidate_cache_foreign, IsForeign}
use httpcache.Memcache
use httpcache.Memcache.{conn-IsConn}
use httpcache.Message.{
  contains, trimmed_csv_canonical, remove_all, hop_by_hop_headers, remove_hop_by_hop_headers,
  merge_response_headers,
}
use httpcache.Message.Hops.{get-remove_hop_by_hop_headers, get-merge_response_headers}
use httpcache.Store.{not_exist, done}
use httpcache.Storer.{store_response, new_entry, place_ref}
use httpcache.Storer.Lookup.{store_response_lem, entry_ref}
use httpcache.Tests.{
  env, codec, dates, cal, urls, url, get_request, answer, confirmation, store, ref_of, young,
  minute, field,
}
use httpcache.Text.{join}
use httpcache.Text.Csv.{trimmed_csv}
use httpcache.Text.Decimal.{itoa}
use httpcache.Vary.{
  make_vary_key, resolve_fields, vary_headers_match, fields_match, normalized_vary_header,
}
use httpcache.Vary.Match.{IsFirst, fields_match-normalized_vary_header}
use httpcache.Vary.Order.{IsSorted, vary_headers_match_lem}

can_store_response_iff_example :
    (can_store_response answer [] (parse_cc_directives answer.header) ≡ true)
    ↔ MayStore answer [] (parse_cc_directives answer.header)
can_store_response_iff_example =
    can_store_response_iff answer [] (parse_cc_directives answer.header)

no_max_stale : max_stale [] ≡ none
unfolding max_stale
no_max_stale = refl

young_is_fresh : (judge cal young minute []).is_stale ≡ false
unfolding judge max_stale max_age min_fresh
young_is_fresh = refl

judge-fresh_example :
    (young.value <ℤ minute)
    × Below young.value (max_age [])
    × StaysFresh young.value (judge cal young minute []).useful_life (min_fresh [])
judge-fresh_example =
    judge-fresh cal young minute [] (omega arith)
      (record { above = omega arith; below = omega arith }) (omega arith)
      (record { above = omega arith; below = omega arith }) no_max_stale young_is_fresh

raw_delta_seconds_lem_example :
    raw_delta_seconds (itoa (pos 9_223_372_037)) ≡ some (negsuc 9_223_372_036_709_551_615)
raw_delta_seconds_lem_example = raw_delta_seconds_lem 9_223_372_037 (omega arith)

-- Connection lists the field Etag.
abbrev connected : Response
connected = record confirmation {
  header = (codes "Connection", codes "etag" ∷ []) ∷ confirmation.header;
}

etag-IsPart : IsPart (codes "etag")
unfolding is_ascii_space
etag-IsPart = record {
  trimmed = record { filled = λ e. cc e; head_plain = refl; last_plain = refl };
  whole = refl;
}

connection_read :
    Http.get (codes "Connection") connected.header ≡ join (codes ",") (codes "etag" ∷ [])
unfolding Http.get canonical_key Dict.get str_eq join
connection_read = refl

get-remove_hop_by_hop_headers_example :
    Dict.get (codes "Etag") (remove_hop_by_hop_headers connected).header ≡ none
unfolding contains canonical_key str_eq
get-remove_hop_by_hop_headers_example =
    get-remove_hop_by_hop_headers connected (codes "etag" ∷ []) (codes "Etag") connection_read
      (etag-IsPart, tt)

get-merge_response_headers_example :
    Dict.get (codes "Etag") (merge_response_headers answer confirmation.header).header
    ≡ some (codes "v1" ∷ [])
unfolding contains hop_by_hop_headers trimmed_csv_canonical trimmed_csv Http.get canonical_key
    Dict.get str_eq
get-merge_response_headers_example =
    get-merge_response_headers answer confirmation.header (codes "Etag") (refl, tt)

fields_match-normalized_vary_header_example :
    fields_match env.normalize
      (normalized_vary_header env.normalize (codes "Accept") (field (codes "Accept") (codes "a/b")))
      (field (codes "Accept") (codes "a/b"))
    ≡ true
fields_match-normalized_vary_header_example =
    fields_match-normalized_vary_header env.normalize (field (codes "Accept") (codes "a/b"))
      (codes "Accept")

abbrev two_refs : ResponseRefs
two_refs = record (ref_of (codes "/a#1")) { vary = codes "*" } ∷ ref_of (codes "/a#0") ∷ []

vary_headers_match_lem_example :
    let (sorted, found) = vary_headers_match env.normalize two_refs [] in
    Perm sorted two_refs × IsSorted sorted × IsFirst env.normalize [] sorted found
vary_headers_match_lem_example = vary_headers_match_lem env.normalize [] two_refs

get-invalidate_cache_example :
    let s =
      invalidate_cache env.conn codec urls url answer.header
        (ref_of (codes "/a#0") ∷ [])
        (codes "/a")
        store in
    (contains (codes "/a" ∷ response_ids (ref_of (codes "/a#0") ∷ [])) (codes "/b") ≡ true
      → Memcache.get (codes "/b") s ≡ not_exist)
    × ((Memcache.get (codes "/b") s ≡ not_exist)
        ⊎ (Memcache.get (codes "/b") s ≡ Memcache.get (codes "/b") store))
get-invalidate_cache_example =
    get-invalidate_cache env.conn codec urls conn-IsConn store url answer.header
      (ref_of (codes "/a#0") ∷ []) (codes "/a") (codes "/b")

no_location :
    IsForeign env.conn codec urls conn-IsConn store url (Http.get (codes "Location") answer.header)
    × IsForeign env.conn codec urls conn-IsConn store url
        (Http.get (codes "Content-Location") answer.header)
unfolding Http.get canonical_key Dict.get str_eq
no_location = (tt, tt)

get-invalidate_cache_foreign_example :
    Memcache.get (codes "/b") (
      invalidate_cache env.conn codec urls url answer.header
        (ref_of (codes "/a#0") ∷ [])
        (codes "/a")
        store)
    ≡ (if contains (codes "/a" ∷ response_ids (ref_of (codes "/a#0") ∷ [])) (codes "/b")
        then not_exist
        else Memcache.get (codes "/b") store)
get-invalidate_cache_foreign_example =
    get-invalidate_cache_foreign env.conn codec urls conn-IsConn store url answer.header
      (ref_of (codes "/a#0") ∷ []) (codes "/a") (codes "/b") no_location.0 no_location.1

answer_encoded :
    codec.marshal
      (new_entry env.conn codec dates env.normalize get_request
        (remove_hop_by_hop_headers answer)
        (codes "/a")
        (pos 5)
        (pos 5)).0
    ≡ some (codes "hello")
unfolding new_entry remove_hop_by_hop_headers
answer_encoded = refl

ref_encoded :
    codec.marshal_refs (
      place_ref [] none
        (new_entry env.conn codec dates env.normalize get_request
          (remove_hop_by_hop_headers answer)
          (codes "/a")
          (pos 5)
          (pos 5)).1)
    ≡ some (codes "/a#0")
unfolding new_entry place_ref remove_hop_by_hop_headers join make_vary_key normalized_vary_header
    resolve_fields trimmed_csv_canonical trimmed_csv Http.values Dict.get remove_all
    hop_by_hop_headers Http.get str_eq canonical_key Dict.remove
ref_encoded = refl

store_response_lem_example :
    let kept =
      store_response env.conn codec dates env.normalize get_request answer
        (codes "/a")
        []
        (pos 5)
        (pos 5)
        none
        store in
    (kept.error ≡ done)
    × (Cache.get env.conn codec
          (entry_ref env.conn codec conn-IsConn dates env.normalize get_request answer
            (codes "/a")
            []
            (pos 5)
            (pos 5)
            none
            store).0.id
          get_request
          kept.state
        ≡ codec.parse (codes "hello") get_request)
    × (Cache.get_refs env.conn codec (codes "/a") kept.state ≡ codec.unmarshal_refs (codes "/a#0"))
    × (str_eq
            (entry_ref env.conn codec conn-IsConn dates env.normalize get_request answer
              (codes "/a")
              []
              (pos 5)
              (pos 5)
              none
              store).0.id
            (codes "/b")
          ≡ false
        → str_eq (codes "/a") (codes "/b") ≡ false
        → Memcache.get (codes "/b") kept.state ≡ Memcache.get (codes "/b") store)
store_response_lem_example =
    store_response_lem env.conn codec conn-IsConn dates env.normalize get_request answer
      (codes "/a") [] (pos 5) (pos 5) none store (codes "hello") (codes "/a#0") get_request
      (codes "/b") answer_encoded ref_encoded
