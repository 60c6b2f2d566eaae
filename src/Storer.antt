-- ===== src/Storer.antt =====
-- internal/responsestorerer.go: storing a response and the reference to it.
pub mod Lookup
pub mod Races
pub mod Keys
use httpcache.Base.{
  ℕ, Bool, List, Option, none, some, [], ◌∷◌, ◌++◌, ltb, length, set as set_elem, if◌then◌else◌,
}
use httpcache.Bytes.{Bytes, codes}
use httpcache.Cache
use httpcache.Cache.{Codec}
use httpcache.Entry.{Stored, ResponseRef, ResponseRefs, date_header}
use httpcache.Http
use httpcache.Http.{Request, Response}
use httpcache.Message.{remove_hop_by_hop_headers}
use httpcache.Store.{Conn, Done}
use httpcache.Text.{join}
use httpcache.Time.{Time, Dates}
use httpcache.Vary.{normalized_vary_header, make_vary_key}

-- `refs[refIndex] = refEntry` where the index is one of `refs`, and an append otherwise. `none`
-- stands for the negative index.
unfoldable pub place_ref : ResponseRefs → Option ℕ → ResponseRef → ResponseRefs
place_ref refs none r = refs ++ r ∷ []
place_ref refs (some i) r = if ltb i (length refs) then set_elem refs i r else refs ++ r ∷ []

-- The response as it is stored and returned, the error of SetRefs, and the state of the backend.
pub record Kept (S : Type 0) : Type 0 where
  pub response : Response
  pub error : Done
  pub state : S

module _ {S : Type 0} (conn : Conn S) (codec : Codec) (dates : Dates)
    (normalize : Bytes → Bytes → Bytes) where
  -- The entry that StoreResponse writes, and the reference to it.
  unfoldable pub new_entry : Request → Response → Bytes → Time → Time → Stored × ResponseRef
  new_entry req resp url_key req_time resp_time =
      let vary = join (codes ",") (Http.values (codes "Vary") resp.header) in
      let resolved = normalized_vary_header normalize vary req.header in
      let id = make_vary_key url_key resolved in
      let entry : Stored = record {
        id = id;
        response = resp;
        requested_at = req_time;
        received_at = resp_time;
      } in
      (
        entry,
        record {
          response_id = id;
          vary = vary;
          vary_resolved = resolved;
          received_at = date_header dates entry;
        },
      )

  -- StoreResponse
  unfoldable pub store_response :
      Request → Response → Bytes → ResponseRefs → Time → Time → Option ℕ → S → Kept S
  store_response req resp url_key refs req_time resp_time ref_index s =
      let kept = remove_hop_by_hop_headers resp in
      let (entry, ref) = new_entry req kept url_key req_time resp_time in
      let (ignored, s') = Cache.set conn codec entry.id entry s in
      let (error, s'') = Cache.set_refs conn codec url_key (place_ref refs ref_index ref) s' in
      record { response = kept; error = error; state = s'' }
