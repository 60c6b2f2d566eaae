-- ===== src/Invalidator.antt =====
-- internal/cacheinvalidator.go: invalidation after an unsafe request.
pub mod Removes
use httpcache.Base.{Bool, List, Option, none, some, [], ◌∷◌, ◌++◌, if◌then◌else◌}
use httpcache.Bytes.{Bytes, codes}
use httpcache.Cache
use httpcache.Cache.{Codec}
use httpcache.Entry.{ResponseRefs, response_ids}
use httpcache.Http
use httpcache.Http.{Header, Url}
use httpcache.Message.{contains}
use httpcache.Origin.{same_origin}
use httpcache.Store.{Conn}

-- net/url, and the keyer of URLs
pub record Urls : Type 0 where
  pub parse : Bytes → Option Url
  pub resolve_reference : Url → Url → Url
  pub url_key : Url → Bytes

-- The map `deleted` and the state of the backend.
abbrev pub Deleting : Type 0 → Type 0
Deleting S = List Bytes × S

module _ {S : Type 0} (conn : Conn S) (codec : Codec) (urls : Urls) where
  -- The closure `del`
  unfoldable pub del : Bytes → Deleting S → Deleting S
  del k (deleted, s) =
      if contains deleted k then (deleted, s) else (k ∷ deleted, (Cache.delete conn codec k s).1)

  unfoldable pub del_all : List Bytes → Deleting S → Deleting S
  del_all [] d = d
  del_all (k ∷ ks) d = del_all ks (del k d)

  abbrev or_no_refs : Option ResponseRefs → ResponseRefs
  or_no_refs none = []
  or_no_refs (some refs) = refs

  -- The entries and the key of a URL of the same origin.
  unfoldable pub invalidate_url : Url → Url → Deleting S → Deleting S
  invalidate_url req_url loc_url d =
      let key = urls.url_key loc_url in
      if same_origin req_url loc_url
      then del key (del_all (response_ids (or_no_refs (Cache.get_refs conn codec key d.1))) d)
      else d

  abbrev pub invalidate_parsed : Url → Option Url → Deleting S → Deleting S
  invalidate_parsed req_url none d = d
  invalidate_parsed req_url (some loc) d =
      invalidate_url req_url (urls.resolve_reference req_url loc) d

  abbrev pub invalidate_location : Url → Bytes → Deleting S → Deleting S
  invalidate_location req_url [] d = d
  invalidate_location req_url (c ∷ loc) d = invalidate_parsed req_url (urls.parse (c ∷ loc)) d

  -- invalidateLocationHeaders, for `Location` and then `Content-Location`
  unfoldable pub invalidate_location_headers : Url → Header → Deleting S → Deleting S
  invalidate_location_headers req_url h d =
      invalidate_location req_url (Http.get (codes "Content-Location") h)
        (invalidate_location req_url (Http.get (codes "Location") h) d)

  -- InvalidateCache
  unfoldable pub invalidate_cache : Url → Header → ResponseRefs → Bytes → S → S
  invalidate_cache req_url h refs key s =
      (del key (invalidate_location_headers req_url h (del_all (response_ids refs) ([], s)))).1
