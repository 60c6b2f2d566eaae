-- ===== src/Transport/Background.antt =====
-- What a background revalidation leaves in the cache (backgroundRevalidate).
use httpcache.Base.{◌≡◌, Bool, [], ◌∷◌, some}
use httpcache.Bytes.{Bytes, codes, str_eq}
use httpcache.Cache
use httpcache.Entry.{Stored, ResponseRef}
use httpcache.Http.{Request, Response}
use httpcache.Message.{merge_response_headers, remove_hop_by_hop_headers}
use httpcache.Store.{IsConn}
use httpcache.Storer.{new_entry, place_ref, store_response}
use httpcache.Storer.Lookup.{store_response_lem}
use httpcache.Transport.{after_background, Timed}
use httpcache.Validation.{handle_validation_response, store_response_at}
use httpcache.World.{Env, World, Task, body_left, as_left}

module _ {S : Type 0} (env : Env S) (laws : IsConn env.conn) (task : Task) (t : Timed)
    (left : Bytes) (closed : Bool) (w : World S) where
  -- The response that a confirmation renews.
  abbrev pub renewed : Response
  renewed = merge_response_headers (as_left left closed task.stored).response t.response.header

  abbrev pub renewed_entry : Stored × ResponseRef
  renewed_entry =
      new_entry env.conn env.codec env.cal.dates env.normalize task.request
        (remove_hop_by_hop_headers renewed) task.url_key t.start t.end

  -- When the origin confirms the response in the background, the renewed response is stored under
  -- its identifier with the body that the client has left of it, and the references of the URL become
  -- the new one alone: those of its other variants are lost, whatever they were. Both encodings
  -- succeed and the backend keeps its laws.
  pub after_background_lem :
      (bytes ref_bytes : Bytes)
      → task.request.method ≡ codes "GET"
      → t.response.status_code ≡ 304
      → env.codec.marshal renewed_entry.0 ≡ some bytes
      → env.codec.marshal_refs (renewed_entry.1 ∷ []) ≡ some ref_bytes
      → (reader : Request)
      → let s = (after_background env (body_left left closed) task (some t) w).1.store in
        (Cache.get env.conn env.codec renewed_entry.0.id reader s ≡ env.codec.parse bytes reader)
        × (Cache.get_refs env.conn env.codec task.url_key s ≡ env.codec.unmarshal_refs ref_bytes)
  unfolding handle_validation_response store_response_at place_ref str_eq new_entry store_response
  after_background_lem bytes ref_bytes m c e r reader =
      let (_, entry, found, _) =
        store_response_lem env.conn env.codec laws env.cal.dates env.normalize task.request renewed
          task.url_key [] t.start t.end (some 0) w.store bytes ref_bytes reader [] e r in
      rw (m, c) (entry, found)
