-- ===== src/FsCache/Uncached.antt =====
-- StoreResponse on the backend on files, where the names of the files clash.
use httpcache.Base.{
  ℕ, ◌*◌, ◌<◌, ◌≡◌, ◌≢◌, ◌⊎◌, refl, [], ◌∷◌, ◌++◌, append_assoc, Option, length, arith,
  Option-cases, inl, inr,
}
use httpcache.Bytes.{Bytes, codes}
use httpcache.Cache
use httpcache.Cache.{Codec}
use httpcache.Dict.{Dict}
use httpcache.Entry.{ResponseRefs}
use httpcache.FsCache.{FsCache, Disk, Os, conn, set_in_time}
use httpcache.FsCache.Clash.{set-clash}
use httpcache.Http.{Request, Response}
use httpcache.Message.{remove_hop_by_hop_headers}
use httpcache.Store.{Done, done, missing, broken}
use httpcache.Storer.{store_response, new_entry, place_ref}
use httpcache.Text.Decimal.{decimal}
use httpcache.Time.{Time, Dates}
use httpcache.Vary.{make_vary_key, make_vary_hash}

Done-cases : (e : Done) → (e ≡ done) ⊎ (e ≢ done)
Done-cases done = inl refl
Done-cases missing = inr (λ e. ground arith)
Done-cases broken = inr (λ e. ground arith)

-- The identifier of an entry is longer than the key of its URL.
make_vary_key-longer :
    (url_key : Bytes) (resolved : Dict Bytes)
    → (more : Bytes) × ((make_vary_key url_key resolved ≡ url_key ++ more) × (0 < length more))
unfolding make_vary_key
make_vary_key-longer url_key [] = (codes "#0", (refl, omega arith))
make_vary_key-longer url_key (p ∷ d) =
    let rest = decimal 20 (make_vary_hash (p ∷ d)) in
    (b'#' ∷ rest, (append_assoc url_key (codes "#") rest, omega arith))

module _ (os : Os) (c : FsCache) where
  ne_done : broken ≡ done → ⊥
  ne_done e = ground arith

  set_in_time-clash :
      (m : ℕ) (key more v w : Bytes) (d : Disk)
      → length key ≡ 36 * m
      → 5 < m
      → 0 < length more
      → (set_in_time os c (key ++ more) w d).0 ≡ done
      → (set_in_time os c key v (set_in_time os c (key ++ more) w d).1).0 ≡ broken
  unfolding set_in_time
  set_in_time-clash m key more v w d e big some_more ok =
      ground (arith, (set-clash os c m key more v w d e big some_more).0)

  set_refs_fails :
      (codec : Codec) (m : ℕ) (key more w : Bytes) (refs : ResponseRefs) (d : Disk)
      → length key ≡ 36 * m
      → 5 < m
      → 0 < length more
      → (set_in_time os c (key ++ more) w d).0 ≡ done
      → (Cache.set_refs (conn os c) codec key refs (set_in_time os c (key ++ more) w d).1).0
        ≡ broken
  unfolding Cache.set_refs
  set_refs_fails codec m key more w refs d e big some_more ok =
      elim (Option-cases (codec.marshal_refs refs)) [
        | inl failed ↦ rw failed refl
        | inr (v, encoded) ↦ rw encoded (set_in_time-clash m key more v w d e big some_more ok)
      ]

  set_refs_fails_at :
      (codec : Codec) (m : ℕ) (key more id w : Bytes) (refs : ResponseRefs) (d : Disk)
      → id ≡ key ++ more
      → length key ≡ 36 * m
      → 5 < m
      → 0 < length more
      → (set_in_time os c id w d).0 ≡ done
      → (Cache.set_refs (conn os c) codec key refs (set_in_time os c id w d).1).0 ≡ broken
  set_refs_fails_at codec m key more id w refs d longer e big some_more =
      rw longer (set_refs_fails codec m key more w refs d e big some_more)

  refs_fail_after_entry :
      (codec : Codec) (dates : Dates) (normalize : Bytes → Bytes → Bytes) (req : Request)
      (resp : Response) (m : ℕ) (url_key : Bytes) (refs : ResponseRefs) (start end : Time)
      (i : Option ℕ) (d : Disk)
      → length url_key ≡ 36 * m
      → 5 < m
      → let entry =
          (new_entry
            (conn os c)
            codec
            dates
            normalize
            req
            (remove_hop_by_hop_headers resp)
            url_key
            start
            end).0 in
        (Cache.set (conn os c) codec entry.id entry d).0 ≡ done
        → (store_response
            (conn os c)
            codec
            dates
            normalize
            req
            resp
            url_key
            refs
            start
            end
            i
            d).error
          ≡ broken
  unfolding store_response Cache.set new_entry
  refs_fail_after_entry codec dates normalize req resp m url_key refs start end i d e big ok =
      let (entry, ref) =
        new_entry (conn os c) codec dates normalize req (remove_hop_by_hop_headers resp) url_key
          start end in
      let (more, (longer, some_more)) = make_vary_key-longer url_key ref.vary_resolved in
      elim (Option-cases (codec.marshal entry)) [
        | inl failed ↦ absurd (ne_done (rw failed at ok))
        | inr (w, encoded) ↦ rw encoded (
            set_refs_fails_at codec m url_key more entry.id w (place_ref refs i ref) d longer e big
              some_more (rw encoded at ok))
      ]

  -- A response is never kept for a URL whose key has 216, 252, 288 bytes and so on: StoreResponse
  -- fails to write the entry, or the references, for which a directory stands where their file would
  -- be.
  pub store_response-clash :
      (codec : Codec) (dates : Dates) (normalize : Bytes → Bytes → Bytes) (req : Request)
      (resp : Response) (m : ℕ) (url_key : Bytes) (refs : ResponseRefs) (start end : Time)
      (i : Option ℕ) (d : Disk)
      → length url_key ≡ 36 * m
      → 5 < m
      → let entry =
          (new_entry
            (conn os c)
            codec
            dates
            normalize
            req
            (remove_hop_by_hop_headers resp)
            url_key
            start
            end).0 in
        ((Cache.set (conn os c) codec entry.id entry d).0 ≢ done)
        ⊎ ((store_response
              (conn os c)
              codec
              dates
              normalize
              req
              resp
              url_key
              refs
              start
              end
              i
              d).error
            ≡ broken)
  store_response-clash codec dates normalize req resp m url_key refs start end i d e big =
      let entry =
        (new_entry (conn os c) codec dates normalize req (remove_hop_by_hop_headers resp) url_key
          start end).0 in
      elim (Done-cases (Cache.set (conn os c) codec entry.id entry d).0) [
        | inl ok ↦ inr (
            refs_fail_after_entry codec dates normalize req resp m url_key refs start end i d e big
              ok)
        | inr failed ↦ inl failed
      ]
