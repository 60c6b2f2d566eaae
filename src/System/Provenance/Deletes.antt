-- ===== src/System/Provenance/Deletes.antt =====
-- Invalidating keeps what is stored from where it comes.
use httpcache.Base.{List, [], ◌∷◌, Option, none, some, arith, Bool-cases, inl, inr}
use httpcache.Http
use httpcache.Bytes.{codes, Bytes, str_eq}
use httpcache.Cache
use httpcache.Cache.{Codec}
use httpcache.Entry.{ResponseRefs, response_ids}
use httpcache.Http.{Request, Response, Header, Url}
use httpcache.Invalidator.{
  Urls, Deleting, del, del_all, invalidate_url, invalidate_parsed, invalidate_location,
  invalidate_location_headers, invalidate_cache,
}
use httpcache.Message.{contains}
use httpcache.Origin.{same_origin}
use httpcache.Store.{Conn, IsConn}
use httpcache.System.Provenance.{Holds}
use httpcache.Vary.{make_vary_key}

module _ {S : Type 0} (conn : Conn S) (codec : Codec) (laws : IsConn conn)
    (P : Bytes → Bytes → Type 0) where
  abbrev Keeps : S → Type 0
  Keeps s = Holds conn codec P s

  Keeps-delete : (k : Bytes) (s : S) → Keeps s → Keeps (conn.delete k s).1
  unfolding Cache.get Cache.get_refs
  Keeps-delete k s h = record {
    refs_own = λ key refs e. elim (Bool-cases (str_eq k key)) [
      | inl same ↦ ground (arith, laws.get_delete k key s)
      | inr other ↦ h.refs_own key refs (ground (arith, laws.get_delete k key s))
    ];
    entry_from = λ key d reader e p. elim (Bool-cases (str_eq k (make_vary_key key d))) [
      | inl same ↦ ground (arith, laws.get_delete k (make_vary_key key d) s)
      | inr other ↦
          h.entry_from key d reader e (ground (arith, laws.get_delete k (make_vary_key key d) s))
    ];
  }

  module _ (urls : Urls) where
    Keeps-del : (k : Bytes) (d : Deleting S) → Keeps d.1 → Keeps (del conn codec urls k d).1
    unfolding del Cache.delete
    Keeps-del k (deleted, s) h = elim (Bool-cases (contains deleted k)) [
      | inl old ↦ rw old h
      | inr new ↦ rw new (Keeps-delete k s h)
    ]

    Keeps-del_all :
        (ks : List Bytes) (d : Deleting S) → Keeps d.1 → Keeps (del_all conn codec urls ks d).1
    unfolding del_all
    Keeps-del_all [] d h = h
    Keeps-del_all (k ∷ ks) d h = Keeps-del_all ks (del conn codec urls k d) (Keeps-del k d h)

    Keeps-invalidate_url :
        (req_url loc : Url) (d : Deleting S)
        → Keeps d.1
        → Keeps (invalidate_url conn codec urls req_url loc d).1
    unfolding invalidate_url
    Keeps-invalidate_url req_url loc d h = elim (Bool-cases (same_origin req_url loc)) [
      | inl same ↦ rw same (Keeps-del _ _ (Keeps-del_all _ d h))
      | inr other ↦ rw other h
    ]

    Keeps-invalidate_parsed :
        (req_url : Url) (loc : Option Url) (d : Deleting S)
        → Keeps d.1
        → Keeps (invalidate_parsed conn codec urls req_url loc d).1
    Keeps-invalidate_parsed req_url none d h = h
    Keeps-invalidate_parsed req_url (some loc) d h = Keeps-invalidate_url req_url _ d h

    Keeps-invalidate_location :
        (req_url : Url) (loc : Bytes) (d : Deleting S)
        → Keeps d.1
        → Keeps (invalidate_location conn codec urls req_url loc d).1
    Keeps-invalidate_location req_url [] d h = h
    Keeps-invalidate_location req_url (c ∷ loc) d h = Keeps-invalidate_parsed req_url _ d h

    pub Keeps-invalidate_cache :
        (req_url : Url) (header : Header) (refs : ResponseRefs) (key : Bytes) (s : S)
        → Keeps s
        → Keeps (invalidate_cache conn codec urls req_url header refs key s)
    unfolding invalidate_cache invalidate_location_headers
    Keeps-invalidate_cache req_url header refs key s h =
        let d = del_all conn codec urls (response_ids refs) ([], s) in
        let location = Http.get (codes "Location") header in
        let content_location = Http.get (codes "Content-Location") header in
        let d' = invalidate_location conn codec urls req_url location d in
        Keeps-del key (invalidate_location conn codec urls req_url content_location d') (
          Keeps-invalidate_location req_url content_location d' (
            Keeps-invalidate_location req_url location d
              (Keeps-del_all (response_ids refs) ([], s) h)))
