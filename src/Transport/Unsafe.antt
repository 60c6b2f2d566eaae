-- ===== src/Transport/Unsafe.antt =====
-- What an unsafe request removes from the cache.
use httpcache.Base.{◌≡◌, refl, ◌⊎◌, inl, inr, true, false, ◌∷◌, some, arith, Bool-cases}
use httpcache.Bytes.{Bytes, codes, str_eq, str_eq_iff}
use httpcache.Cache
use httpcache.Entry.{ResponseRefs, response_ids}
use httpcache.Http.{Request, Response}
use httpcache.Invalidator.{invalidate_cache}
use httpcache.Invalidator.Removes.{get-invalidate_cache}
use httpcache.Message.{
  contains, is_unsafe_method, is_non_error_status, is_request_method_understood,
}
use httpcache.Store.{not_exist, IsConn}
use httpcache.Transport.{round_trip, handle_unrecognized_method, or_no_refs}
use httpcache.World.{Env, World, send}

not_get : (m : Bytes) → is_unsafe_method m ≡ true → str_eq m (codes "GET") ≡ false
unfolding is_unsafe_method str_eq
not_get m h = elim (Bool-cases (str_eq m (codes "GET"))) [
  | inl get ↦ cc (rw ((str_eq_iff m (codes "GET")).0 get) at h)
  | inr other ↦ other
]

not_understood :
    (req : Request) → is_unsafe_method req.method ≡ true → is_request_method_understood req ≡ false
unfolding is_request_method_understood
not_understood req h = ground (arith, not_get req.method h)

module _ {S : Type 0} (env : Env S) (req : Request) (resp : Response) (w : World S) where
  -- The references stored for the URL of the request.
  abbrev pub known_refs : ResponseRefs
  known_refs = or_no_refs env (Cache.get_refs env.conn env.codec (env.urls.url_key req.url) w.store)

  store-round_trip_of_unsafe :
      is_unsafe_method req.method ≡ true
      → env.origin w.sent req ≡ some resp
      → is_non_error_status resp.status_code ≡ true
      → (round_trip env req w).1.store
        ≡ invalidate_cache env.conn env.codec env.urls req.url resp.header known_refs
            (env.urls.url_key req.url)
            w.store
  unfolding round_trip handle_unrecognized_method send
  store-round_trip_of_unsafe u e ok = rw (not_understood req u, u, e, ok) refl

  -- Once the origin has accepted an unsafe request, the references of its URL and every response
  -- that they named are gone; any other key is gone or as it was. The backend keeps its laws.
  pub get-round_trip_of_unsafe :
      IsConn env.conn
      → is_unsafe_method req.method ≡ true
      → env.origin w.sent req ≡ some resp
      → is_non_error_status resp.status_code ≡ true
      → (j : Bytes)
      → let s = (round_trip env req w).1.store in
        (contains (env.urls.url_key req.url ∷ response_ids known_refs) j ≡ true
          → env.conn.get j s ≡ not_exist)
        × ((env.conn.get j s ≡ not_exist) ⊎ (env.conn.get j s ≡ env.conn.get j w.store))
  get-round_trip_of_unsafe laws u e ok j = rw (store-round_trip_of_unsafe u e ok) (
      get-invalidate_cache env.conn env.codec env.urls laws w.store req.url resp.header known_refs
        (env.urls.url_key req.url) j)
