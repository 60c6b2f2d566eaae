-- ===== src/Wiring/Repeat.antt =====
-- A request and its repetition, with entries as they are encoded.
use httpcache.Base.{◌≡◌, true, false, [], ◌∷◌, none, some}
use httpcache.Bytes.{Bytes, codes, str_eq}
use httpcache.Cache
use httpcache.Cacheability.{can_store_response}
use httpcache.Directives.{parse_cc_directives, only_if_cached}
use httpcache.Entry.{Stored, ResponseRef}
use httpcache.Entry.Encoding.{IsWord}
use httpcache.Entry.RoundTrip.{IsWire, parse_response-marshal_binary}
use httpcache.Http.{Request, Response}
use httpcache.Message.{is_request_method_understood}
use httpcache.Store.{Conn, IsConn}
use httpcache.Storer.{new_entry}
use httpcache.Transport.{Timed, round_trip_timed, handle_cache_hit, round_trip}
use httpcache.Transport.Repeat.{written}
use httpcache.Transport.Twice.{round_trip-round_trip}
use httpcache.Wiring.{Outside, wire_codec, wired}
use httpcache.Wiring.Words.{make_vary_key-IsWord}
use httpcache.World.{Env, World}

module _ {S Q : Type 0} (o : Outside Q) (conn : Conn S) (laws : IsConn conn) (req : Request)
    (t : Timed) (w : World S) where
  abbrev env : Env S
  env = wired o conn

  abbrev key : Bytes
  key = o.urls.url_key req.url

  -- The entry and the reference that the first request leaves.
  abbrev pub kept : Stored × ResponseRef
  kept = written (wired o conn) laws req t.response t.start t.end w

  kept-IsWord : IsWord key → IsWord kept.0.id
  unfolding new_entry
  kept-IsWord = make_vary_key-IsWord key kept.1.vary_resolved

  -- The same for a transport that keeps entries in their own encoding: the repetition is answered by
  -- handleCacheHit from an entry with the identifier and the times that were stored, and the response
  -- that is read back from its dump.
  pub round_trip-round_trip_encoded :
      (dumped ref_bytes : Bytes) (read : Response)
      → IsWire o.wire
      → IsWord key
      → is_request_method_understood req ≡ true
      → Cache.get_refs conn (wire_codec o.wire o.json) key w.store ≡ none
      → only_if_cached (parse_cc_directives req.header) ≡ false
      → (round_trip_timed env req w).0 ≡ some t
      → can_store_response t.response
          (parse_cc_directives req.header)
          (parse_cc_directives t.response.header)
        ≡ true
      → str_eq kept.1.vary (codes "*") ≡ false
      → o.wire.dump_response kept.0.response ≡ some dumped
      → o.wire.read_response dumped req ≡ some read
      → o.json.marshal_refs (kept.1 ∷ []) ≡ some ref_bytes
      → o.json.unmarshal_refs ref_bytes ≡ some (kept.1 ∷ [])
      → let w' = (round_trip env req w).1 in
        round_trip env req w'
        ≡ handle_cache_hit env req (record kept.0 { response = read }) key (kept.1 ∷ []) (some 0) w'
  round_trip-round_trip_encoded dumped ref_bytes read wire word u empty other answer may v d r m n =
      let (text, encoded, parsed) =
        parse_response-marshal_binary o.wire wire kept.0 (kept-IsWord word) dumped read req d r in
      round_trip-round_trip env laws req t w text ref_bytes (record kept.0 { response = read }) u
        empty other answer may v encoded parsed m n
