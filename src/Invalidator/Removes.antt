-- ===== src/Invalidator/Removes.antt =====
-- What invalidation removes from a backend that keeps the laws of the interface.
use httpcache.Base.{
  ◌≡◌, refl, ap, ◌∙◌, ◌⊎◌, inl, inr, true, false, ◌||◌, List, [], ◌∷◌, Option, none, some, arith,
  if◌then◌else◌, Bool-cases,
}
use httpcache.Bytes.{Bytes, codes, str_eq, str_eq_iff, str_eq_refl}
use httpcache.Cache
use httpcache.Cache.{Codec}
use httpcache.Entry.{ResponseRefs, response_ids}
use httpcache.Http
use httpcache.Http.{Header, Url}
use httpcache.Invalidator.{
  Urls, Deleting, del, del_all, invalidate_url, invalidate_parsed, invalidate_location,
  invalidate_location_headers, invalidate_cache,
}
use httpcache.Message.{contains}
use httpcache.Origin.{same_origin}
use httpcache.Store.{not_exist, Conn, IsConn}

module _ {S : Type 0} (conn : Conn S) (codec : Codec) (urls : Urls) (laws : IsConn conn)
    (s₀ : S) where
  -- The keys recorded as deleted are gone, and every other key is as it was.
  abbrev Tracks : Deleting S → Type 0
  Tracks d = (j : Bytes) → conn.get j d.1 ≡ (if contains d.0 j then not_exist else conn.get j s₀)

  abbrev Within : Deleting S → Deleting S → Type 0
  Within d e = (j : Bytes) → contains d.0 j ≡ true → contains e.0 j ≡ true

  del-Tracks : (k : Bytes) (d : Deleting S) → Tracks d → Tracks (del conn codec urls k d)
  unfolding del Cache.delete contains
  del-Tracks k d h j = ground (arith, h j, laws.get_delete k j d.1)

  del-Within : (k : Bytes) (d : Deleting S) → Within d (del conn codec urls k d)
  unfolding del contains
  del-Within k d j m = ground (arith, m)

  del_has : (k : Bytes) (d : Deleting S) → contains (del conn codec urls k d).0 k ≡ true
  unfolding del contains
  del_has k d = ground (arith, str_eq_refl k)

  del_all-Tracks :
      (ks : List Bytes) (d : Deleting S) → Tracks d → Tracks (del_all conn codec urls ks d)
  unfolding del_all
  del_all-Tracks [] d h = h
  del_all-Tracks (k ∷ ks) d h = del_all-Tracks ks (del conn codec urls k d) (del-Tracks k d h)

  del_all-Within : (ks : List Bytes) (d : Deleting S) → Within d (del_all conn codec urls ks d)
  unfolding del_all
  del_all-Within [] d j m = m
  del_all-Within (k ∷ ks) d j m = del_all-Within ks (del conn codec urls k d) j (del-Within k d j m)

  del_all_has :
      (ks : List Bytes) (d : Deleting S) (j : Bytes)
      → contains ks j ≡ true
      → contains (del_all conn codec urls ks d).0 j ≡ true
  unfolding del_all contains
  del_all_has [] d j m = cc
  del_all_has (k ∷ ks) d j m = elim (Bool-cases (str_eq k j)) [
    | inl same ↦
        del_all-Within ks (del conn codec urls k d) j (rw (← (str_eq_iff k j).0 same) (del_has k d))
    | inr other ↦ del_all_has ks (del conn codec urls k d) j (rw other at m)
  ]

  url-Tracks :
      (u v : Url) (d : Deleting S) → Tracks d → Tracks (invalidate_url conn codec urls u v d)
  unfolding invalidate_url
  url-Tracks u v d h = elim (Bool-cases (same_origin u v)) [
    | inl same ↦ rw same (del-Tracks _ _ (del_all-Tracks _ d h))
    | inr other ↦ rw other h
  ]

  url-Within : (u v : Url) (d : Deleting S) → Within d (invalidate_url conn codec urls u v d)
  unfolding invalidate_url
  url-Within u v d j m = elim (Bool-cases (same_origin u v)) [
    | inl same ↦ rw same (del-Within _ _ j (del_all-Within _ d j m))
    | inr other ↦ rw other m
  ]

  parsed-Tracks :
      (u : Url) (loc : Option Url) (d : Deleting S)
      → Tracks d
      → Tracks (invalidate_parsed conn codec urls u loc d)
  parsed-Tracks u none d h = h
  parsed-Tracks u (some loc) d h = url-Tracks u _ d h

  parsed-Within :
      (u : Url) (loc : Option Url) (d : Deleting S)
      → Within d (invalidate_parsed conn codec urls u loc d)
  parsed-Within u none d j m = m
  parsed-Within u (some loc) d j m = url-Within u _ d j m

  location-Tracks :
      (u : Url) (loc : Bytes) (d : Deleting S)
      → Tracks d
      → Tracks (invalidate_location conn codec urls u loc d)
  location-Tracks u [] d h = h
  location-Tracks u (c ∷ loc) d h = parsed-Tracks u (urls.parse (c ∷ loc)) d h

  location-Within :
      (u : Url) (loc : Bytes) (d : Deleting S)
      → Within d (invalidate_location conn codec urls u loc d)
  location-Within u [] d j m = m
  location-Within u (c ∷ loc) d j m = parsed-Within u (urls.parse (c ∷ loc)) d j m

  headers-Within :
      (u : Url) (h : Header) (d : Deleting S)
      → Within d (invalidate_location_headers conn codec urls u h d)
  unfolding invalidate_location_headers
  headers-Within u h d j m =
      location-Within u (Http.get (codes "Content-Location") h) _ j
        (location-Within u (Http.get (codes "Location") h) d j m)

  -- The deletions of InvalidateCache, with the state that they leave.
  abbrev deletions : Url → Header → ResponseRefs → Bytes → Deleting S
  deletions u h refs key = del conn codec urls key (
      invalidate_location_headers conn codec urls u h
        (del_all conn codec urls (response_ids refs) ([], s₀)))

  deletions-Tracks :
      (u : Url) (h : Header) (refs : ResponseRefs) (key : Bytes) → Tracks (deletions u h refs key)
  unfolding invalidate_location_headers
  deletions-Tracks u h refs key = del-Tracks key _ (
      location-Tracks u _ _ (
        location-Tracks u _ _
          (del_all-Tracks (response_ids refs) ([], s₀) (λ j. unfold contains in refl))))

  deletions_has :
      (u : Url) (h : Header) (refs : ResponseRefs) (key j : Bytes)
      → contains (key ∷ response_ids refs) j ≡ true
      → contains (deletions u h refs key).0 j ≡ true
  unfolding contains
  deletions_has u h refs key j m = elim (Bool-cases (str_eq key j)) [
    | inl same ↦ rw (← (str_eq_iff key j).0 same) (del_has key _)
    | inr other ↦ del-Within key _ j (
        headers-Within u h (del_all conn codec urls (response_ids refs) ([], s₀)) j
          (del_all_has (response_ids refs) ([], s₀) j (rw other at m)))
  ]

  -- After an invalidation the key of the URL and every response that its references name are gone,
  -- and any other key is gone or has the value that it had.
  pub get-invalidate_cache :
      (u : Url) (h : Header) (refs : ResponseRefs) (key j : Bytes)
      → let s = invalidate_cache conn codec urls u h refs key s₀ in
        (contains (key ∷ response_ids refs) j ≡ true → conn.get j s ≡ not_exist)
        × ((conn.get j s ≡ not_exist) ⊎ (conn.get j s ≡ conn.get j s₀))
  unfolding invalidate_cache
  get-invalidate_cache u h refs key j =
      let tracks = deletions-Tracks u h refs key j in
      (λ m. rw (deletions_has u h refs key j m) at tracks, ground (arith, tracks))

  -- The field is empty, is no URL, or names a URL of another origin.
  abbrev pub IsForeign : Url → Bytes → Type 0
  IsForeign u [] = Unit {0}
  IsForeign u (c ∷ loc) =
      (v : Url) → urls.parse (c ∷ loc) ≡ some v → same_origin u (urls.resolve_reference u v) ≡ false

  parsed_foreign :
      (u : Url) (loc : Option Url) (d : Deleting S)
      → ((v : Url) → loc ≡ some v → same_origin u (urls.resolve_reference u v) ≡ false)
      → invalidate_parsed conn codec urls u loc d ≡ d
  unfolding invalidate_url
  parsed_foreign u none d f = refl
  parsed_foreign u (some v) d f = rw (f v refl)

  location_foreign :
      (u : Url) (loc : Bytes) (d : Deleting S)
      → IsForeign u loc
      → invalidate_location conn codec urls u loc d ≡ d
  location_foreign u [] d f = refl
  location_foreign u (c ∷ loc) d f = parsed_foreign u (urls.parse (c ∷ loc)) d f

  del_only :
      (k : Bytes) (d : Deleting S) (j : Bytes)
      → contains (del conn codec urls k d).0 j ≡ (str_eq k j || contains d.0 j)
  unfolding del contains
  del_only k d j = elim (Bool-cases (contains d.0 k)) [
    | inl old ↦ ground (arith, old, str_eq_iff k j)
    | inr new ↦ rw new
  ]

  del_all_only :
      (ks : List Bytes) (d : Deleting S) (j : Bytes)
      → contains (del_all conn codec urls ks d).0 j ≡ (contains ks j || contains d.0 j)
  unfolding del_all contains
  del_all_only [] d j = refl
  del_all_only (k ∷ ks) d j =
      ground (arith, del_all_only ks (del conn codec urls k d) j, del_only k d j)

  deletions_foreign :
      (u : Url) (h : Header) (refs : ResponseRefs) (key : Bytes)
      → IsForeign u (Http.get (codes "Location") h)
      → IsForeign u (Http.get (codes "Content-Location") h)
      → deletions u h refs key
        ≡ del conn codec urls key (del_all conn codec urls (response_ids refs) ([], s₀))
  unfolding invalidate_location_headers
  deletions_foreign u h refs key f g =
      let d = del_all conn codec urls (response_ids refs) ([], s₀) in
      ap (del conn codec urls key) (
        ap (invalidate_location conn codec urls u (Http.get (codes "Content-Location") h))
          (location_foreign u (Http.get (codes "Location") h) d f)
        ∙ location_foreign u (Http.get (codes "Content-Location") h) d g)

  -- Where neither Location nor Content-Location names a URL of the same origin, exactly the key of
  -- the URL and the responses that its references name are removed.
  pub get-invalidate_cache_foreign :
      (u : Url) (h : Header) (refs : ResponseRefs) (key j : Bytes)
      → IsForeign u (Http.get (codes "Location") h)
      → IsForeign u (Http.get (codes "Content-Location") h)
      → conn.get j (invalidate_cache conn codec urls u h refs key s₀)
        ≡ (if contains (key ∷ response_ids refs) j then not_exist else conn.get j s₀)
  unfolding invalidate_cache contains
  get-invalidate_cache_foreign u h refs key j f g =
      let d = del_all conn codec urls (response_ids refs) ([], s₀) in
      ap (λ (e : Deleting S). conn.get j e.1) (deletions_foreign u h refs key f g)
      ∙ ground (
        arith,
        del-Tracks key d (del_all-Tracks (response_ids refs) ([], s₀) (λ i. refl)) j,
        del_only key d j,
        del_all_only (response_ids refs) ([], s₀) j,
      )
