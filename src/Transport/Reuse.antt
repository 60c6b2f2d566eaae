-- ===== src/Transport/Reuse.antt =====
-- When a stored response is used without asking the origin (handleCacheHit).
use httpcache.Base.{
  ◌≡◌, ◌⊎◌, inl, inr, refl, sym, ◌∙◌, true, false, not, ◌&&◌, [], ◌∷◌, ◌++◌, Option, none, some,
  arith, append-ne_self, ℕ, Bool-cases,
}
use httpcache.Bytes.{Bytes}
use httpcache.Directives.{
  parse_cc_directives, only_if_cached, must_revalidate, response_no_cache, immutable,
  request_no_cache, stale_while_revalidate, raw_csv,
}
use httpcache.Entry.{Stored, ResponseRefs}
use httpcache.Freshness.{Freshness}
use httpcache.Http.{Request}
use httpcache.Message.{with_conditional_headers}
use httpcache.Time.{Duration}
use httpcache.Transport.{in_swr_window, swr_or_revalidate, decide_cache_hit, fields_of}
use httpcache.Transport.Frames.{
  sent-revalidate, sent-in_swr_window, store-serve_from_cache, store-in_swr_window, store-stale_hit,
}
use httpcache.World.{Env, World}

-- The origin must confirm the response: it is stale and says `must-revalidate`, or it says
-- `no-cache` for the whole response and is not fresh, `immutable` and wanted from the cache.
abbrev pub MustConfirm : Request → Stored → Freshness → Type 0
MustConfirm req stored f =
    let cc_req = parse_cc_directives req.header in
    let cc_resp = parse_cc_directives stored.response.header in
    ((f.is_stale ≡ true) × (must_revalidate cc_resp ≡ true))
    ⊎ ((response_no_cache cc_resp ≡ some [])
        × ((f.is_stale ≡ true) ⊎ (immutable cc_resp ≡ false) ⊎ (request_no_cache cc_req ≡ true)))

module _ {S : Type 0} (env : Env S) (req : Request) (stored : Stored) (key : Bytes)
    (refs : ResponseRefs) (i : Option ℕ) (f : Freshness) (w : World S) where
  -- A response that the origin must confirm is never used without it: the request goes out with the
  -- conditional fields, also under `only-if-cached`, `max-stale` or `stale-while-revalidate`.
  pub sent-decide_of_MustConfirm :
      MustConfirm req stored f
      → (decide_cache_hit env req stored key refs i f w).1.sent
        ≡ w.sent ++ with_conditional_headers req stored.response.header ∷ []
  unfolding decide_cache_hit raw_csv
  sent-decide_of_MustConfirm h = ground (arith, sent-revalidate env req stored key refs i f w)

  abbrev creq : Request
  creq = with_conditional_headers req stored.response.header

  -- What allows the use of a stored response without the origin's word.
  abbrev pub MayReuse : Type 0
  MayReuse =
      let cc_req = parse_cc_directives req.header in
      let cc_resp = parse_cc_directives stored.response.header in
      ((f.is_stale ≡ false) × (request_no_cache cc_req ≡ false))
      ⊎ (only_if_cached cc_req ≡ true)
      ⊎ ((f.is_stale ≡ true)
          × ((swr : Duration) × (stale_while_revalidate cc_resp ≡ some swr)
              × ((in_swr_window env f swr w).0 ≡ true)))

  swr_reuse :
      (swr : Option Duration)
      → (swr_or_revalidate env req stored key refs i f swr w).1.sent ≡ w.sent
      → (f.is_stale ≡ true)
        × ((d : Duration) × (swr ≡ some d) × ((in_swr_window env f d w).0 ≡ true))
  unfolding swr_or_revalidate
  swr_reuse none e =
      absurd (append-ne_self w.sent creq (sym (sent-revalidate env req stored key refs i f w) ∙ e))
  swr_reuse (some d) e =
      let w' = (in_swr_window env f d w).1 in
      let ne = append-ne_self w.sent creq in
      let same = sent-in_swr_window env f d w in
      let asked = sent-revalidate env req stored key refs i f w in
      let asked' = sent-revalidate env req stored key refs i f w' in
      (ground (arith, ne, asked), (d, refl, ground (arith, ne, same, asked, asked')))

  store-swr_of_sent :
      (swr : Option Duration)
      → (swr_or_revalidate env req stored key refs i f swr w).1.sent ≡ w.sent
      → (swr_or_revalidate env req stored key refs i f swr w).1.store ≡ w.store
  unfolding swr_or_revalidate
  store-swr_of_sent none e =
      absurd (append-ne_self w.sent creq (sym (sent-revalidate env req stored key refs i f w) ∙ e))
  store-swr_of_sent (some d) e =
      let w' = (in_swr_window env f d w).1 in
      ground (
        arith,
        append-ne_self w.sent creq,
        sent-in_swr_window env f d w,
        sent-revalidate env req stored key refs i f w,
        sent-revalidate env req stored key refs i f w',
        store-in_swr_window env f d w,
        store-stale_hit env req stored key f (parse_cc_directives req.header) w',
      )

  -- A stored response that is used without asking the origin is fresh and the request does not say
  -- `no-cache`; or the request says `only-if-cached`; or the response is stale within the time of
  -- its `stale-while-revalidate`. And the origin does not have to confirm it.
  pub MayReuse_of_sent :
      (decide_cache_hit env req stored key refs i f w).1.sent ≡ w.sent
      → MayReuse × (¬ MustConfirm req stored f)
  unfolding decide_cache_hit
  MayReuse_of_sent e =
      (may, λ must. append-ne_self w.sent creq (sym (sent-decide_of_MustConfirm must) ∙ e))
    where
      may : MayReuse
      may =
          let cc_req = parse_cc_directives req.header in
          let swr = stale_while_revalidate (parse_cc_directives stored.response.header) in
          let asked = sent-revalidate env req stored key refs i f w in
          elim (Bool-cases (only_if_cached cc_req)) [
            | inl only ↦ inr (inl only)
            | inr other ↦ elim (Bool-cases (not f.is_stale && not (request_no_cache cc_req))) [
              | inl fresh ↦ inl (ground arith, ground arith)
              | inr old ↦
                  inr (inr (swr_reuse swr (ground (arith, e, append-ne_self w.sent creq, asked))))
            ]
          ]

  -- A response that is used without asking the origin leaves the backend as it is.
  pub store-decide_of_sent :
      (decide_cache_hit env req stored key refs i f w).1.sent ≡ w.sent
      → (decide_cache_hit env req stored key refs i f w).1.store ≡ w.store
  unfolding decide_cache_hit
  store-decide_of_sent e =
      let cc_resp = parse_cc_directives stored.response.header in
      ground (
        arith,
        e,
        append-ne_self w.sent creq,
        sent-revalidate env req stored key refs i f w,
        store-serve_from_cache env req key stored f (fields_of env (response_no_cache cc_resp)) w,
        store-swr_of_sent (stale_while_revalidate cc_resp),
      )
