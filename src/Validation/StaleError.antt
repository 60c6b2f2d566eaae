-- ===== src/Validation/StaleError.antt =====
-- When a stale response stands in for an error of the origin.
use httpcache.Base.{
  refl, ◌==◌, ℕ, ◌↔◌, false, some, Option-cases, ◌≡◌, ◌≢◌, ◌⊎◌, inl, inr, sym, ◌∙◌, true, [], ◌∷◌,
  arith,
}
use httpcache.Base.Int.{◌≤ℤ◌, add64}
use httpcache.Time.{Duration, sub, since}
use httpcache.Bytes.{Bytes, codes, str_eq, str_eq_iff}
use httpcache.Cacheability.{can_stale_on_error}
use httpcache.Directives.{Directives, stale_if_error, parse_cc_directives}
use httpcache.Http
use httpcache.Http.{Request, Response}
use httpcache.Message.{
  stale, set_age_header, apply_status, miss, revalidated, bypass, is_stale_error_allowed,
  merge_response_headers,
}
use httpcache.Message.Labels.{status-apply_status}
use httpcache.Validation.{
  Context, store_response_at, use_response, serve_stale, handle_validation_response,
}
use httpcache.World.{Env, World}

-- The status field of a response.
abbrev pub status_of : Response → Bytes
status_of r = Http.get (codes "X-Httpcache-Status") r.header

other_status :
    (r : Response)
    → (status_of r ≡ codes "MISS")
      ⊎ (status_of r ≡ codes "BYPASS")
      ⊎ (status_of r ≡ codes "REVALIDATED")
    → status_of r ≢ codes "STALE"
other_status r (inl e) s = cc (sym e ∙ s)
other_status r (inr (inl e)) s = cc (sym e ∙ s)
other_status r (inr (inr e)) s = cc (sym e ∙ s)

abbrev pub IsServerError : ℕ → Type 0
IsServerError code = (code ≡ 500) ⊎ (code ≡ 502) ⊎ (code ≡ 503) ⊎ (code ≡ 504)

server_error : (code : ℕ) → (is_stale_error_allowed code ≡ true) ↔ IsServerError code
unfolding is_stale_error_allowed
server_error code = (λ h. ground (arith, h), λ h. ground (arith, h))

module _ {S : Type 0} (env : Env S) where
  use_response-status :
      (ctx : Context) (req : Request) (resp : Response) (cc_resp : Directives) (w : World S)
      → let r = (use_response env ctx req resp cc_resp w).0 in
        (status_of r ≡ codes "MISS")
        ⊎ (status_of r ≡ codes "BYPASS")
        ⊎ (status_of r ≡ codes "REVALIDATED")
  unfolding use_response
  use_response-status ctx req resp cc_resp w =
      let kept =
        (store_response_at env req resp ctx.url_key ctx.refs ctx.start ctx.end ctx.ref_index w).0 in
      ground (arith, status-apply_status miss kept, status-apply_status bypass resp)

  handle_stale_guards :
      (ctx : Context) (req : Request) (resp : Response) (w : World S)
      → status_of (handle_validation_response env ctx req resp w).0 ≡ codes "STALE"
      → let cc_resp = parse_cc_directives resp.header in
        (str_eq req.method (codes "GET") ≡ true)
        × (is_stale_error_allowed resp.status_code ≡ true)
        × ((can_stale_on_error env.cal.clock ctx.freshness (cc_resp ∷ []) w.reads).0 ≡ true)
  unfolding handle_validation_response
  handle_stale_guards ctx req resp w e =
      let cc_resp = parse_cc_directives resp.header in
      let n = (can_stale_on_error env.cal.clock ctx.freshness (cc_resp ∷ []) w.reads).1 in
      let w' = record w { reads = n } in
      let merged = merge_response_headers ctx.stored.response resp.header in
      let kept =
        (store_response_at env req merged ctx.url_key ctx.refs ctx.start ctx.end ctx.ref_index
          w).0 in
      let confirmed =
        other_status (apply_status revalidated kept)
          (inr (inr (status-apply_status revalidated kept))) in
      let used =
        other_status (use_response env ctx req resp cc_resp w).0
          (use_response-status ctx req resp cc_resp w) in
      let used' =
        other_status (use_response env ctx req resp cc_resp w').0
          (use_response-status ctx req resp cc_resp w') in
      ground (arith, e, confirmed, used, used')

  -- The origin's error allows the stored response to stand in: the age at this reading of the clock
  -- is at most the lifetime with the error's `stale-if-error`, each sum wrapped to 64 bits.
  abbrev pub IsInTime : Context → Directives → ℕ → Type 0
  IsInTime ctx cc_resp n =
      (dur : Duration) × (stale_if_error cc_resp ≡ some dur)
      × (add64 ctx.freshness.age.value (sub (env.cal.clock n) ctx.freshness.age.timestamp)
          ≤ℤ add64 ctx.freshness.useful_life dur)

  can_stale-IsInTime :
      (ctx : Context) (cc_resp : Directives) (n : ℕ)
      → (can_stale_on_error env.cal.clock ctx.freshness (cc_resp ∷ []) n).0 ≡ true
      → IsInTime ctx cc_resp n
  unfolding can_stale_on_error since
  can_stale-IsInTime ctx cc_resp n h = elim (Option-cases (stale_if_error cc_resp)) [
    | inl e ↦ let no : false ≡ true = rw (e, can_stale_on_error) at h in cc
    | inr (dur, e) ↦ let k = rw (e, can_stale_on_error) at h in (dur, e, ground (arith, k))
  ]

  IsInTime-can_stale :
      (ctx : Context) (cc_resp : Directives) (n : ℕ)
      → IsInTime ctx cc_resp n
      → (can_stale_on_error env.cal.clock ctx.freshness (cc_resp ∷ []) n).0 ≡ true
  unfolding can_stale_on_error since
  IsInTime-can_stale ctx cc_resp n (dur, e, k) = rw (e, can_stale_on_error) (ground (arith, k))

  not_304 : (code : ℕ) → is_stale_error_allowed code ≡ true → (code == 304) ≡ false
  unfolding is_stale_error_allowed
  not_304 code h = ground (arith, h)

  serve_stale-stale :
      (ctx : Context) (req : Request) (cc_resp : Directives) (w : World S)
      → let r = (serve_stale env ctx req cc_resp w).0 in
        (status_of r ≡ codes "STALE")
        × ((r.status_code ≡ ctx.stored.response.status_code) × (r.body ≡ ctx.stored.response.body))
  unfolding serve_stale apply_status set_age_header
  serve_stale-stale ctx req cc_resp w = (
    status-apply_status stale
        (set_age_header env.cal.clock env.whole_seconds ctx.stored.response ctx.freshness.age
          w.reads).0,
    (refl, refl),
  )

  stale_of_guards :
      (ctx : Context) (req : Request) (resp : Response) (w : World S)
      → str_eq req.method (codes "GET") ≡ true
      → is_stale_error_allowed resp.status_code ≡ true
      → (can_stale_on_error env.cal.clock ctx.freshness
          (parse_cc_directives resp.header ∷ [])
          w.reads).0
        ≡ true
      → let r = (handle_validation_response env ctx req resp w).0 in
        (status_of r ≡ codes "STALE")
        × ((r.status_code ≡ ctx.stored.response.status_code) × (r.body ≡ ctx.stored.response.body))
  unfolding handle_validation_response
  stale_of_guards ctx req resp w g c t =
      let cc_resp = parse_cc_directives resp.header in
      let n = (can_stale_on_error env.cal.clock ctx.freshness (cc_resp ∷ []) w.reads).1 in
      let not_confirmed : (resp.status_code == 304) ≡ false = not_304 resp.status_code c in
      rw (g, not_confirmed, c, t) (serve_stale-stale ctx req cc_resp (record w { reads = n }))

  -- A validation answers STALE exactly where the request is a GET, the origin answered 500, 502, 503
  -- or 504, and the stored response's age is at most its lifetime with the `stale-if-error` of the
  -- origin's answer. It then has the status code and the body of the stored response.
  pub handle_validation_response-stale :
      (ctx : Context) (req : Request) (resp : Response) (w : World S)
      → let r = (handle_validation_response env ctx req resp w).0 in
        ((status_of r ≡ codes "STALE") ↔ (
          (req.method ≡ codes "GET")
          × IsServerError resp.status_code
          × IsInTime ctx (parse_cc_directives resp.header) w.reads))
        × (status_of r ≡ codes "STALE"
            → (r.status_code ≡ ctx.stored.response.status_code)
              × (r.body ≡ ctx.stored.response.body))
  handle_validation_response-stale ctx req resp w = (
    (
      λ e.
          let (g, c, t) = handle_stale_guards ctx req resp w e in
          (
            (str_eq_iff req.method (codes "GET")).0 g,
            (server_error resp.status_code).0 c,
            can_stale-IsInTime ctx (parse_cc_directives resp.header) w.reads t,
          ),
      λ (m, c, t).
          (stale_of_guards ctx req resp w ((str_eq_iff req.method (codes "GET")).1 m)
            ((server_error resp.status_code).1 c)
            (IsInTime-can_stale ctx (parse_cc_directives resp.header) w.reads t)).0,
    ),
    λ e.
        let (g, c, t) = handle_stale_guards ctx req resp w e in
        (stale_of_guards ctx req resp w g c t).1,
  )
