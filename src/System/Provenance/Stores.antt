-- ===== src/System/Provenance/Stores.antt =====
-- Storing keeps what is stored from where it comes.
use httpcache.Base.{
  ◌≡◌, refl, ◌∙◌, [], ◌∷◌, All-append, Option, none, some, arith, ℕ, zero, suc, Bool-cases,
  Option-cases, inl, inr, ltb, length, set as set_elem,
}
use httpcache.Bytes.{Bytes, str_eq, str_eq_iff}
use httpcache.Cache
use httpcache.Cache.{Codec}
use httpcache.Dict.{Dict}
use httpcache.Entry.{Stored, ResponseRef, ResponseRefs, response_ids}
use httpcache.Wiring.Words.{make_vary_key-IsWord}
use httpcache.Http.{Request, Response}
use httpcache.Message.{remove_hop_by_hop_headers}
use httpcache.Store.{Conn, IsConn}
use httpcache.Storer.{place_ref, new_entry, store_response}
use httpcache.Storer.Keys.{make_vary_key-injective}
use httpcache.System.Provenance.{Owns, OwnRefs, IsCodec, IsKey, IsShared, Holds}
use httpcache.System.Provenance.Names.{response_ids-IsAscii}
use httpcache.Time.{Time, Dates}
use httpcache.Vary.{make_vary_key}

module _ {S : Type 0} (conn : Conn S) (codec : Codec) (laws : IsConn conn)
    (P : Bytes → Bytes → Type 0) where
  abbrev Keeps : S → Type 0
  Keeps s = Holds conn codec P s

  own_of_ids :
      (key : Bytes) (refs refs' : ResponseRefs)
      → response_ids refs' ≡ response_ids refs
      → OwnRefs key refs
      → OwnRefs key refs'
  unfolding response_ids
  own_of_ids key [] [] e h = tt
  own_of_ids key [] (r' ∷ refs') e h = cc
  own_of_ids key (r ∷ refs) [] e h = tt
  own_of_ids key (r ∷ refs) (r' ∷ refs') e ((d, p), h) =
      let first : r'.response_id ≡ r.response_id = cc in
      let rest : response_ids refs' ≡ response_ids refs = cc in
      ((d, first ∙ p), own_of_ids key refs refs' rest h)

  OwnRefs-set :
      (key : Bytes) (refs : ResponseRefs) (i : ℕ) (r : ResponseRef)
      → OwnRefs key refs
      → Owns key r.response_id
      → OwnRefs key (set_elem refs i r)
  OwnRefs-set key [] i r h o = tt
  OwnRefs-set key (q ∷ refs) zero r (h, hs) o = (o, hs)
  OwnRefs-set key (q ∷ refs) (suc i) r (h, hs) o = (h, OwnRefs-set key refs i r hs o)

  pub OwnRefs-place_ref :
      (key : Bytes) (refs : ResponseRefs) (i : Option ℕ) (r : ResponseRef)
      → OwnRefs key refs
      → Owns key r.response_id
      → OwnRefs key (place_ref refs i r)
  unfolding place_ref
  OwnRefs-place_ref key refs none r h o =
      All-append (λ q. Owns key q.response_id) refs (r ∷ []) h (o, tt)
  OwnRefs-place_ref key refs (some i) r h o = elim (Bool-cases (ltb i (length refs))) [
    | inl below ↦ rw below (OwnRefs-set key refs i r h o)
    | inr above ↦ rw above (All-append (λ q. Owns key q.response_id) refs (r ∷ []) h (o, tt))
  ]

  module _ (told : IsCodec codec) (shared : IsShared P) where
    -- The references of a URL are written.
    Keeps-write_refs :
        (key : Bytes) (refs : ResponseRefs) (bytes : Bytes) (s : S)
        → codec.marshal_refs refs ≡ some bytes
        → IsKey key
        → OwnRefs key refs
        → Keeps s
        → Keeps (conn.set key bytes s).1
    unfolding Cache.get Cache.get_refs
    Keeps-write_refs key refs bytes s m known o h = record {
      refs_own = λ k refs' e. elim (Bool-cases (str_eq key k)) [
        | inl same ↦
            let read : codec.unmarshal_refs bytes ≡ some refs' =
              ground (arith, laws.get_set key k bytes s, e) in
            rw (← (str_eq_iff key k).0 same) (
              own_of_ids key refs refs'
                (told.ids_kept refs refs' bytes (response_ids-IsAscii key refs known.ascii o) m
                  read)
                o)
        | inr other ↦ h.refs_own k refs' (ground (arith, laws.get_set key k bytes s))
      ];
      entry_from = λ k d reader e p. elim (Bool-cases (str_eq key (make_vary_key k d))) [
        | inl same ↦ ground (
          arith,
          laws.get_set key (make_vary_key k d) bytes s,
          told.refs_no_entry refs bytes reader m,
        )
        | inr other ↦
            h.entry_from k d reader e (ground (arith, laws.get_set key (make_vary_key k d) bytes s))
      ];
    }

    -- An entry of a URL is written.
    Keeps-write_entry :
        (key : Bytes) (d : Dict Bytes) (e : Stored) (bytes : Bytes) (s : S)
        → e.id ≡ make_vary_key key d
        → codec.marshal e ≡ some bytes
        → IsKey key
        → P key e.response.body
        → Keeps s
        → Keeps (conn.set (make_vary_key key d) bytes s).1
    unfolding Cache.get Cache.get_refs
    Keeps-write_entry key d e bytes s named m word good h =
        let id = make_vary_key key d in
        record {
          refs_own = λ k refs r. elim (Bool-cases (str_eq id k)) [
            | inl same ↦ ground (arith, laws.get_set id k bytes s, told.entry_no_refs e bytes m)
            | inr other ↦ h.refs_own k refs (ground (arith, laws.get_set id k bytes s))
          ];
          entry_from = λ k d' reader e' p. elim (Bool-cases (str_eq id (make_vary_key k d'))) [
            | inl same ↦
                let read : codec.parse bytes reader ≡ some e' =
                  ground (arith, laws.get_set id (make_vary_key k d') bytes s, p) in
                let url : key ≡ k =
                  make_vary_key-injective key k d d'
                    ((str_eq_iff id (make_vary_key k d')).0 same) in
                let part =
                  told.body_kept e e' bytes reader (rw named (make_vary_key-IsWord key d word.word))
                    m read in
                shared k e.response.body e'.response.body (rw (← url) good) part
            | inr other ↦
                h.entry_from k d' reader e'
                  (ground (arith, laws.get_set id (make_vary_key k d') bytes s))
          ];
        }

    Keeps-set_refs :
        (key : Bytes) (refs : ResponseRefs) (s : S)
        → IsKey key
        → OwnRefs key refs
        → Keeps s
        → Keeps (Cache.set_refs conn codec key refs s).1
    unfolding Cache.set_refs
    Keeps-set_refs key refs s known o h = elim (Option-cases (codec.marshal_refs refs)) [
      | inl e ↦ rw e h
      | inr (bytes, e) ↦ rw e (Keeps-write_refs key refs bytes s e known o h)
    ]

    Keeps-set :
        (key : Bytes) (d : Dict Bytes) (e : Stored) (s : S)
        → e.id ≡ make_vary_key key d
        → IsKey key
        → P key e.response.body
        → Keeps s
        → Keeps (Cache.set conn codec (make_vary_key key d) e s).1
    unfolding Cache.set
    Keeps-set key d e s named word good h = elim (Option-cases (codec.marshal e)) [
      | inl none_made ↦ rw none_made h
      | inr (bytes, m) ↦ rw m (Keeps-write_entry key d e bytes s named m word good h)
    ]

    -- StoreResponse keeps what is stored from where it comes, if the body is one for the URL and the
    -- references that were read name entries of it.
    pub Keeps-store_response :
        (dates : Dates) (normalize : Bytes → Bytes → Bytes) (req : Request) (resp : Response)
        (key : Bytes) (refs : ResponseRefs) (start end : Time) (i : Option ℕ) (s : S)
        → IsKey key
        → OwnRefs key refs
        → P key resp.body
        → Keeps s
        → Keeps (store_response conn codec dates normalize req resp key refs start end i s).state
    unfolding store_response new_entry remove_hop_by_hop_headers
    Keeps-store_response dates normalize req resp key refs start end i s word o good h =
        let kept = remove_hop_by_hop_headers resp in
        let (entry, ref) = new_entry conn codec dates normalize req kept key start end in
        let refs' = OwnRefs-place_ref key refs i ref o (_, refl) in
        Keeps-set_refs key (place_ref refs i ref) (Cache.set conn codec entry.id entry s).1 word
          refs' (Keeps-set key ref.vary_resolved entry s refl word good h)
