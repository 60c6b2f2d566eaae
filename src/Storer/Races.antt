-- ===== src/Storer/Races.antt =====
-- Two requests for a URL at the same time: both have read its references before either stores.
use httpcache.Base.{ℕ, ◌≡◌, false, Option, some}
use httpcache.Bytes.{Bytes, str_eq}
use httpcache.Cache
use httpcache.Cache.{Codec}
use httpcache.Entry.{Stored, ResponseRef, ResponseRefs}
use httpcache.Http.{Request, Response}
use httpcache.Store.{Conn, IsConn}
use httpcache.Storer.{place_ref, store_response}
use httpcache.Storer.Lookup.{entry_ref, store_response_lem, id_ne}
use httpcache.Time.{Time, Dates}

-- What a request hands to StoreResponse, but for the key and the references.
pub record Storing : Type 0 where
  pub request : Request
  pub response : Response
  pub start : Time
  pub end : Time
  pub index : Option ℕ

module _ {S : Type 0} (conn : Conn S) (codec : Codec) (laws : IsConn conn) (dates : Dates)
    (normalize : Bytes → Bytes → Bytes) (url_key : Bytes) (refs : ResponseRefs) where
  abbrev pub stores : Storing → S → S
  stores a s =
      (store_response conn codec dates normalize a.request a.response url_key refs a.start a.end
        a.index s).state

  abbrev pub written_by : Storing → S → Stored × ResponseRef
  written_by a s =
      entry_ref conn codec laws dates normalize a.request a.response url_key refs a.start a.end
        a.index s

  -- Of two responses that are stored for a URL after both requests have read its references, the
  -- first one's reference is lost: what is kept are the references that were read with the second
  -- one's in its place, while the first one's entry, if the identifiers differ, is still there. The
  -- encodings succeed, and the backend keeps its laws.
  pub get_refs-store_twice :
      (a b : Storing) (s : S) (reader : Request) (bytes_a refs_a bytes_b refs_b : Bytes)
      → str_eq (written_by b s).0.id (written_by a s).0.id ≡ false
      → codec.marshal (written_by a s).0 ≡ some bytes_a
      → codec.marshal_refs (place_ref refs a.index (written_by a s).1) ≡ some refs_a
      → codec.marshal (written_by b s).0 ≡ some bytes_b
      → codec.marshal_refs (place_ref refs b.index (written_by b s).1) ≡ some refs_b
      → let s' = stores b (stores a s) in
        (Cache.get_refs conn codec url_key s' ≡ codec.unmarshal_refs refs_b)
        × (Cache.get conn codec (written_by a s).0.id reader s' ≡ codec.parse bytes_a reader)
  unfolding Cache.get
  get_refs-store_twice a b s reader bytes_a refs_a bytes_b refs_b other ma ra mb rb =
      let id = (written_by a s).0.id in
      let (_, found, _, _) =
        store_response_lem conn codec laws dates normalize a.request a.response url_key refs a.start
          a.end a.index s bytes_a refs_a reader id ma ra in
      let apart =
        id_ne conn codec laws dates normalize a.request a.response url_key refs a.start a.end
          a.index s in
      let (_, _, kept, same) =
        store_response_lem conn codec laws dates normalize b.request b.response url_key refs b.start
          b.end b.index (stores a s) bytes_b refs_b reader id mb rb in
      (kept, rw (same other apart) found)
