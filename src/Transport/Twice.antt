-- ===== src/Transport/Twice.antt =====
-- A request and its repetition.
use httpcache.Base.{◌≡◌, refl, ◌∙◌, true, false, [], ◌∷◌, none, some}
use httpcache.Bytes.{Bytes, codes, str_eq}
use httpcache.Cache
use httpcache.Cacheability.{can_store_response}
use httpcache.Directives.{parse_cc_directives, only_if_cached}
use httpcache.Entry.{Stored, ResponseRef}
use httpcache.Http.{Request}
use httpcache.Message.{is_request_method_understood}
use httpcache.Store.{IsConn}
use httpcache.Storer.{store_response}
use httpcache.Transport.{
  Timed, round_trip_timed, after_miss, handle_cache_miss, handle_cache_hit, round_trip,
}
use httpcache.Transport.Frames.{store-round_trip_timed}
use httpcache.Transport.Repeat.{written, later, round_trip-same_store}
use httpcache.Validation.{store_response_at}
use httpcache.World.{Env, World}

module _ {S : Type 0} (env : Env S) (laws : IsConn env.conn) (req : Request) (t : Timed)
    (w : World S) where
  abbrev key : Bytes
  key = env.urls.url_key req.url

  -- The entry and the reference that the first request leaves.
  abbrev kept : Stored × ResponseRef
  kept = written env laws req t.response t.start t.end w

  store-after_miss :
      (w' : World S)
      → can_store_response t.response
          (parse_cc_directives req.header)
          (parse_cc_directives t.response.header)
        ≡ true
      → (after_miss env req key [] none (some t) w').1.store
        ≡ (store_response env.conn env.codec env.cal.dates env.normalize req t.response key []
            t.start t.end none w'.store).state
  unfolding after_miss store_response_at
  store-after_miss w' h = rw h refl

  -- A miss leaves what StoreResponse writes.
  store-first :
      is_request_method_understood req ≡ true
      → Cache.get_refs env.conn env.codec key w.store ≡ none
      → only_if_cached (parse_cc_directives req.header) ≡ false
      → (round_trip_timed env req w).0 ≡ some t
      → can_store_response t.response
          (parse_cc_directives req.header)
          (parse_cc_directives t.response.header)
        ≡ true
      → (round_trip env req w).1.store ≡ (later env laws req t.response t.start t.end w).store
  unfolding round_trip handle_cache_miss
  store-first u empty other answer may =
      let w₁ = (round_trip_timed env req w).1 in
      rw (u, empty, other, answer)
        (store-after_miss w₁ may ∙ rw (store-round_trip_timed env req w) refl)

  -- A client sends a request twice, and nothing happens in between. The URL had no references, the
  -- origin has answered, and the answer may be stored. Then the repetition is answered by
  -- handleCacheHit from what the first one stored, as it is decoded. The backend keeps its laws, the
  -- method is understood, the request is not `only-if-cached`, the answer's Vary is not `*`, and what
  -- was written is encoded and decoded, the references to what they were.
  pub round_trip-round_trip :
      (bytes ref_bytes : Bytes) (entry : Stored)
      → is_request_method_understood req ≡ true
      → Cache.get_refs env.conn env.codec key w.store ≡ none
      → only_if_cached (parse_cc_directives req.header) ≡ false
      → (round_trip_timed env req w).0 ≡ some t
      → can_store_response t.response
          (parse_cc_directives req.header)
          (parse_cc_directives t.response.header)
        ≡ true
      → str_eq kept.1.vary (codes "*") ≡ false
      → env.codec.marshal kept.0 ≡ some bytes
      → env.codec.parse bytes req ≡ some entry
      → env.codec.marshal_refs (kept.1 ∷ []) ≡ some ref_bytes
      → env.codec.unmarshal_refs ref_bytes ≡ some (kept.1 ∷ [])
      → let w' = (round_trip env req w).1 in
        round_trip env req w' ≡ handle_cache_hit env req entry key (kept.1 ∷ []) (some 0) w'
  round_trip-round_trip bytes ref_bytes entry u empty other answer may v e p r q =
      round_trip-same_store env laws req t.response t.start t.end w bytes ref_bytes entry
        (round_trip env req w).1 (store-first u empty other answer may) u v e p r q
