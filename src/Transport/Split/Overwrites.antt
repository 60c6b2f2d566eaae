-- ===== src/Transport/Split/Overwrites.antt =====
-- handleCacheMiss (roundtripper.go) and StoreResponse while other requests work on the same URL.
use httpcache.Base.{ℕ, ◌≡◌, ap, ◌∙◌, false, true, [], ◌∷◌, Option, none, some}
use httpcache.Bytes.{Bytes}
use httpcache.Cache
use httpcache.Cacheability.{can_store_response}
use httpcache.Directives.{parse_cc_directives, only_if_cached}
use httpcache.Entry.{Stored, ResponseRef, ResponseRefs}
use httpcache.Http.{Request, Response}
use httpcache.Message.{remove_hop_by_hop_headers, is_request_method_understood}
use httpcache.Store.{IsConn}
use httpcache.Storer.{place_ref, new_entry, store_response}
use httpcache.Storer.Lookup.{store_response_lem}
use httpcache.Time.{now, fix_date_header}
use httpcache.Transport.{Timed, after_miss}
use httpcache.Transport.Split.{Waiting, Progress, answered, waits, begin, begin_miss, resume}
use httpcache.Validation.{store_response_at}
use httpcache.World.{Env, World, context_done}

module _ {S : Type 0} (env : Env S) where
  -- What the origin's answer does to the state, if there is a call that waits for it.
  abbrev pub complete : Progress → Response → World S → World S
  complete (answered answer) resp u = u
  complete (waits p) resp u = (resume env context_done p (some resp) u).1

  -- The response to a request that was sent at `w` and is answered at `u`.
  abbrev pub arrived : World S → World S → Response → Timed
  arrived w u resp =
      let end = (now env.cal.clock u.reads).0 in
      record {
        response = record resp { header = (fix_date_header env.cal.dates resp.header end).0 };
        start = (now env.cal.clock w.reads).0;
        end = end;
      }

  abbrev pub own_entry : Request → Timed → Stored × ResponseRef
  own_entry req t =
      new_entry env.conn env.codec env.cal.dates env.normalize req
        (remove_hop_by_hop_headers t.response) (env.urls.url_key req.url) t.start t.end

  begin_cold :
      (req : Request) (w : World S)
      → is_request_method_understood req ≡ true
      → only_if_cached (parse_cc_directives req.header) ≡ false
      → Cache.get_refs env.conn env.codec (env.urls.url_key req.url) w.store ≡ none
      → (begin env req w).0
        ≡ waits
            (Waiting.missing req (env.urls.url_key req.url) [] none (now env.cal.clock w.reads).0)
  unfolding begin begin_miss
  begin_cold req w known other cold = rw (known, cold) (rw other)

  store-resume_missing :
      (req : Request) (key : Bytes) (refs : ResponseRefs) (i : Option ℕ) (w u : World S)
      (resp : Response)
      → let t = arrived w u resp in
        can_store_response t.response
            (parse_cc_directives req.header)
            (parse_cc_directives t.response.header)
          ≡ true
        → let t = arrived w u resp in
          (resume env context_done (Waiting.missing req key refs i t.start) (some resp) u).1.store
          ≡ (store_response env.conn env.codec env.cal.dates env.normalize req t.response key refs
              t.start t.end i u.store).state
  unfolding resume after_miss store_response_at
  store-resume_missing req key refs i w u resp keep = rw keep

  module _ (laws : IsConn env.conn) (req : Request) (w u : World S) (resp : Response) where
    -- A request finds nothing stored for its URL at `w`, and its answer comes at `u`, whatever other
    -- requests have stored or invalidated since. If the response may be stored, and both encodings
    -- succeed, it is stored, and the references of the URL become the one to it alone: those that
    -- were written in between are lost, and an invalidation in between has no effect. The backend
    -- keeps its laws.
    pub get_refs-complete_cold :
        (bytes ref_bytes : Bytes) (reader : Request)
        → is_request_method_understood req ≡ true
        → only_if_cached (parse_cc_directives req.header) ≡ false
        → Cache.get_refs env.conn env.codec (env.urls.url_key req.url) w.store ≡ none
        → let t = arrived w u resp in
          can_store_response t.response
              (parse_cc_directives req.header)
              (parse_cc_directives t.response.header)
            ≡ true
          → env.codec.marshal (own_entry req t).0 ≡ some bytes
          → env.codec.marshal_refs ((own_entry req t).1 ∷ []) ≡ some ref_bytes
          → let s = (complete (begin env req w).0 resp u).store in
            (Cache.get env.conn env.codec (own_entry req t).0.id reader s
              ≡ env.codec.parse bytes reader)
            × (Cache.get_refs env.conn env.codec (env.urls.url_key req.url) s
                ≡ env.codec.unmarshal_refs ref_bytes)
    unfolding place_ref
    get_refs-complete_cold bytes ref_bytes reader known other cold keep e r =
        let t = arrived w u resp in
        let key = env.urls.url_key req.url in
        let (_, entry, found, _) =
          store_response_lem env.conn env.codec laws env.cal.dates env.normalize req t.response key
            [] t.start t.end none u.store bytes ref_bytes reader [] e r in
        let written =
          ap (λ p. (complete p resp u).store) (begin_cold req w known other cold)
          ∙ store-resume_missing req key [] none w u resp keep in
        rw written (entry, found)
