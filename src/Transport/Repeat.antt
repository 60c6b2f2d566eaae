-- ===== src/Transport/Repeat.antt =====
-- A request for a URL whose response has been stored.
use httpcache.Base.{◌≡◌, refl, ap, ◌∙◌, true, false, [], ◌∷◌, none, some}
use httpcache.Bytes.{Bytes, codes, str_eq}
use httpcache.Cache
use httpcache.Entry.{Stored, ResponseRef}
use httpcache.Http.{Request, Response}
use httpcache.Message.{is_request_method_understood}
use httpcache.Store.{IsConn}
use httpcache.Storer.{new_entry, place_ref, store_response}
use httpcache.Storer.Lookup.{entry_ref, store_response_lem}
use httpcache.Time.{Time}
use httpcache.Transport.{round_trip, handle_cache_hit, with_entry}
use httpcache.Vary.{
  vary_headers_match, vary_headers_match_one, sort_refs, sort_onto, insert_ref, first_match,
}
use httpcache.Vary.Match.{fields_match-normalized_vary_header}
use httpcache.World.{Env, World}

module _ {S : Type 0} (env : Env S) (laws : IsConn env.conn) (req : Request) (resp : Response)
    (start end : Time) (w : World S) where
  abbrev key : Bytes
  key = env.urls.url_key req.url

  -- The entry and the reference that are written for the request and its response.
  abbrev pub written : Stored × ResponseRef
  written =
      entry_ref env.conn env.codec laws env.cal.dates env.normalize req resp key [] start end none
        w.store

  -- The state once they are written, where the URL had no reference before.
  abbrev pub later : World S
  later = record w {
    store =
        (store_response env.conn env.codec env.cal.dates env.normalize req resp key [] start end
          none w.store).state;
  }

  matches_itself :
      str_eq written.1.vary (codes "*") ≡ false
      → vary_headers_match_one env.normalize written.1 req.header ≡ true
  unfolding vary_headers_match_one new_entry
  matches_itself v =
      rw v (fields_match-normalized_vary_header env.normalize req.header written.1.vary)

  one_match :
      (r : ResponseRef)
      → vary_headers_match_one env.normalize r req.header ≡ true
      → vary_headers_match env.normalize (r ∷ []) req.header ≡ (r ∷ [], some 0)
  unfolding vary_headers_match sort_refs sort_onto insert_ref first_match
  one_match r h = rw h refl

  -- The same for any state with that store.
  pub round_trip-same_store :
      (bytes ref_bytes : Bytes) (entry : Stored) (w' : World S)
      → w'.store ≡ later.store
      → is_request_method_understood req ≡ true
      → str_eq written.1.vary (codes "*") ≡ false
      → env.codec.marshal written.0 ≡ some bytes
      → env.codec.parse bytes req ≡ some entry
      → env.codec.marshal_refs (written.1 ∷ []) ≡ some ref_bytes
      → env.codec.unmarshal_refs ref_bytes ≡ some (written.1 ∷ [])
      → round_trip env req w' ≡ handle_cache_hit env req entry key (written.1 ∷ []) (some 0) w'
  unfolding round_trip place_ref new_entry
  round_trip-same_store bytes ref_bytes entry w' same u v e p r q =
      let (_, found, refs, _) =
        store_response_lem env.conn env.codec laws env.cal.dates env.normalize req resp key [] start
          end none w.store bytes ref_bytes req [] e r in
      let refs' = ap (λ s. Cache.get_refs env.conn env.codec key s) same ∙ refs in
      let found' = ap (λ s. Cache.get env.conn env.codec written.0.id req s) same ∙ found in
      rw (u, refs', q, one_match written.1 (matches_itself v))
        (ap (λ o. with_entry env req key (written.1 ∷ []) 0 o w') (found' ∙ p))

  -- After a response has been stored for a GET request whose URL had no stored response, a repetition
  -- of the request is answered by handleCacheHit from that response, as it is decoded, whatever its
  -- Vary names: only `*` never matches. Both encodings succeed and are decoded, the references to
  -- what they were, and the backend keeps its laws.
  pub round_trip-store_response :
      (bytes ref_bytes : Bytes) (entry : Stored)
      → is_request_method_understood req ≡ true
      → str_eq written.1.vary (codes "*") ≡ false
      → env.codec.marshal written.0 ≡ some bytes
      → env.codec.parse bytes req ≡ some entry
      → env.codec.marshal_refs (written.1 ∷ []) ≡ some ref_bytes
      → env.codec.unmarshal_refs ref_bytes ≡ some (written.1 ∷ [])
      → round_trip env req later
        ≡ handle_cache_hit env req entry key (written.1 ∷ []) (some 0) later
  round_trip-store_response bytes ref_bytes entry u v e p r q =
      round_trip-same_store bytes ref_bytes entry later refl u v e p r q
