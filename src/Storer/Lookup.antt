-- ===== src/Storer/Lookup.antt =====
-- What is read back after StoreResponse, from a backend that keeps the laws of the interface.
use httpcache.Base.{
  ◌≡◌, ◌≢◌, sym, inl, inr, false, [], ◌∷◌, ◌++◌, Option, some, arith, ℕ, length, ap, Bool-cases,
  length-append,
}
use httpcache.Bytes.{Bytes, codes, str_eq, str_eq_iff, str_eq_refl}
use httpcache.Cache
use httpcache.Cache.{Codec}
use httpcache.Dict.{Dict}
use httpcache.Entry.{Stored, ResponseRef, ResponseRefs}
use httpcache.Http.{Request, Response}
use httpcache.Message.{remove_hop_by_hop_headers}
use httpcache.Store.{Conn, IsConn, done}
use httpcache.Storer.{place_ref, new_entry, store_response}
use httpcache.Text.Decimal.{decimal}
use httpcache.Time.{Time, Dates}
use httpcache.Vary.{make_vary_key, make_vary_hash}

longer_ne : (s : Bytes) (c : ℕ) (t : Bytes) → (s ++ c ∷ t) ≢ s
longer_ne s c t e = absurd (omega (arith, ap length e, length-append s (c ∷ t)))

longer_again_ne : (s : Bytes) (c : ℕ) (t u : Bytes) → ((s ++ c ∷ t) ++ u) ≢ s
longer_again_ne s c t u e =
    absurd (omega (arith, ap length e, length-append (s ++ c ∷ t) u, length-append s (c ∷ t)))

-- The key of an entry is never the key of its URL.
pub make_vary_key-ne_url_key :
    (url_key : Bytes) (vary : Dict Bytes) → make_vary_key url_key vary ≢ url_key
unfolding make_vary_key
make_vary_key-ne_url_key url_key [] = longer_ne url_key b'#' (codes "0")
make_vary_key-ne_url_key url_key (p ∷ d) =
    longer_again_ne url_key b'#' [] (decimal 20 (make_vary_hash (p ∷ d)))

module _ {S : Type 0} (conn : Conn S) (codec : Codec) (laws : IsConn conn) (dates : Dates)
    (normalize : Bytes → Bytes → Bytes) (req : Request) (resp : Response) (url_key : Bytes)
    (refs : ResponseRefs) (start end : Time) (i : Option ℕ) (s : S) where
  abbrev pub entry_ref : Stored × ResponseRef
  entry_ref =
      new_entry conn codec dates normalize req (remove_hop_by_hop_headers resp) url_key start end

  pub id_ne : str_eq url_key entry_ref.0.id ≡ false
  unfolding new_entry
  id_ne = elim (Bool-cases (str_eq url_key entry_ref.0.id)) [
    | inl same ↦
        absurd
          (make_vary_key-ne_url_key url_key _ (sym ((str_eq_iff url_key entry_ref.0.id).0 same)))
    | inr other ↦ other
  ]

  -- What is stored can be read back: the entry under its identifier, decoded from its encoding, the
  -- references with the new one put in its place under the key of the URL; and any other key is as
  -- it was. This is where both encodings succeed, on a backend that keeps its laws.
  pub store_response_lem :
      (bytes ref_bytes : Bytes) (reader : Request) (j : Bytes)
      → codec.marshal entry_ref.0 ≡ some bytes
      → codec.marshal_refs (place_ref refs i entry_ref.1) ≡ some ref_bytes
      → let kept = store_response conn codec dates normalize req resp url_key refs start end i s in
        (kept.error ≡ done)
        × (Cache.get conn codec entry_ref.0.id reader kept.state ≡ codec.parse bytes reader)
        × (Cache.get_refs conn codec url_key kept.state ≡ codec.unmarshal_refs ref_bytes)
        × (str_eq entry_ref.0.id j ≡ false
            → str_eq url_key j ≡ false
            → conn.get j kept.state ≡ conn.get j s)
  unfolding store_response Cache.set Cache.set_refs Cache.get Cache.get_refs
  store_response_lem bytes ref_bytes reader j e r =
      let id = entry_ref.0.id in
      let s' = (conn.set id bytes s).1 in
      rw (e, r)
        (
          laws.set_done url_key ref_bytes s',
          ground (
            arith,
            laws.get_set url_key id ref_bytes s',
            laws.get_set id id bytes s,
            id_ne,
            str_eq_refl id,
          ),
          ground (arith, laws.get_set url_key url_key ref_bytes s', str_eq_refl url_key),
          ground (arith, laws.get_set url_key j ref_bytes s', laws.get_set id j bytes s),
        )
