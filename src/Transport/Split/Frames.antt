-- ===== src/Transport/Split/Frames.antt =====
-- roundtripper.go: what the two parts of RoundTrip leave as it was.
use httpcache.Base.{
  ℕ, ◌≡◌, refl, Bool, true, false, not, ◌||◌, ◌&&◌, List, [], ◌∷◌, ◌++◌, Option, none, some,
  get_elem?, if◌then◌else◌, Bool-cases, inl, inr,
}
use httpcache.Bytes.{Bytes}
use httpcache.Cache
use httpcache.Directives.{
  parse_cc_directives, only_if_cached, immutable, request_no_cache, must_revalidate,
  response_no_cache, stale_while_revalidate,
}
use httpcache.Entry.{Stored, ResponseRefs}
use httpcache.Freshness.{Freshness}
use httpcache.Http.{Request}
use httpcache.Message.{is_request_method_understood}
use httpcache.Time.{Duration}
use httpcache.Transport.{
  serve_from_cache, handle_stale_while_revalidate, in_swr_window, fields_of, is_present, entry_at,
}
use httpcache.Transport.Split.{
  Progress, answered, waits, request_of, begin_miss, begin_revalidate, begin_swr_or_revalidate,
  begin_decide, begin_hit, begin_entry, begin_match, begin_refs, begin,
}
use httpcache.Vary.{vary_headers_match}
use httpcache.World.{Env, World, Action}

-- The requests that the origin has had, after a call has begun: one more if it waits.
abbrev pub asking : Progress → List Request → List Request
asking (answered answer) sent = sent
asking (waits p) sent = sent ++ request_of p ∷ []

-- The backend is as it was, and the origin has the request that waits.
abbrev pub HasBegun : {S : Type 0} → World S → Progress × World S → Type 0
HasBegun w (p, w') = (w'.store ≡ w.store) × (w'.sent ≡ asking p w.sent)

module _ {S : Type 0} (env : Env S) where
  branch :
      (w v : World S) (b : Bool) (m n : Action S Progress)
      → HasBegun w (m v)
      → HasBegun w (n v)
      → HasBegun w ((if b then m else n) v)
  branch w v true m n p q = p
  branch w v false m n p q = q

  begin_miss-HasBegun :
      (req : Request) (key : Bytes) (refs : ResponseRefs) (i : Option ℕ) (w : World S)
      → HasBegun w (begin_miss env req key refs i w)
  unfolding begin_miss
  begin_miss-HasBegun req key refs i w =
      elim (Bool-cases (only_if_cached (parse_cc_directives req.header))) [
        | inl only ↦ rw only (refl, refl)
        | inr other ↦ rw other (refl, refl)
      ]

  begin_swr-HasBegun :
      (req : Request) (stored : Stored) (key : Bytes) (refs : ResponseRefs) (i : Option ℕ)
      (f : Freshness) (swr : Option Duration) (w : World S)
      → HasBegun w (begin_swr_or_revalidate env req stored key refs i f swr w)
  unfolding begin_swr_or_revalidate begin_revalidate in_swr_window handle_stale_while_revalidate
  begin_swr-HasBegun req stored key refs i f none w = (refl, refl)
  begin_swr-HasBegun req stored key refs i f (some d) w =
      let (inside, w') = in_swr_window env f d w in
      let cc = parse_cc_directives req.header in
      let serve = handle_stale_while_revalidate env req stored key f cc in
      let serving : Action S Progress = λ v. let (r, v') = serve v in (answered r, v') in
      let ask = begin_revalidate env req stored key refs i f in
      let early : Action S Progress =
        λ v. let (fits, v') = in_swr_window env f d v in (if fits then serving else ask) v' in
      branch w w f.is_stale early ask (branch w w' inside serving ask (refl, refl) (refl, refl))
        (refl, refl)

  begin_decide-HasBegun :
      (req : Request) (stored : Stored) (key : Bytes) (refs : ResponseRefs) (i : Option ℕ)
      (f : Freshness) (w : World S)
      → HasBegun w (begin_decide env req stored key refs i f w)
  unfolding begin_decide begin_revalidate serve_from_cache
  begin_decide-HasBegun req stored key refs i f w =
      let cc_req = parse_cc_directives req.header in
      let cc_resp = parse_cc_directives stored.response.header in
      let raw = response_no_cache cc_resp in
      let swr = stale_while_revalidate cc_resp in
      let serve = serve_from_cache env req key stored f (fields_of env raw) in
      let serving : Action S Progress = λ v. let (r, v') = serve v in (answered r, v') in
      let ask = begin_revalidate env req stored key refs i f in
      let last = only_if_cached cc_req || (not f.is_stale && not (request_no_cache cc_req)) in
      let later = begin_swr_or_revalidate env req stored key refs i f swr in
      let must =
        (f.is_stale && must_revalidate cc_resp)
        || (is_present env raw && not (is_present env (fields_of env raw))) in
      branch w w (not f.is_stale && immutable cc_resp && not (request_no_cache cc_req)) serving
        (if must then ask else if last then serving else later) (refl, refl)
        (branch w w must ask (if last then serving else later) (refl, refl)
          (branch w w last serving later (refl, refl)
            (begin_swr-HasBegun req stored key refs i f swr w)))

  begin_entry-HasBegun :
      (req : Request) (key : Bytes) (refs : ResponseRefs) (i : ℕ) (entry : Option Stored)
      (w : World S)
      → HasBegun w (begin_entry env req key refs i entry w)
  unfolding begin_hit
  begin_entry-HasBegun req key refs i none w = begin_miss-HasBegun req key refs (some i) _
  begin_entry-HasBegun req key refs i (some entry) w =
      begin_decide-HasBegun req entry key refs (some i) _ _

  begin_match-HasBegun :
      (req : Request) (key : Bytes) (refs : ResponseRefs) (found : Option ℕ) (w : World S)
      → HasBegun w (begin_match env req key (refs, found) w)
  begin_match-HasBegun req key refs none w = begin_miss-HasBegun req key refs none w
  begin_match-HasBegun req key refs (some i) w =
      begin_entry-HasBegun req key refs i (entry_at env req (get_elem? refs i) w.store) w

  begin_refs-HasBegun :
      (req : Request) (key : Bytes) (refs : Option ResponseRefs) (w : World S)
      → HasBegun w (begin_refs env req key refs w)
  begin_refs-HasBegun req key none w = begin_miss-HasBegun req key [] none w
  begin_refs-HasBegun req key (some []) w = begin_miss-HasBegun req key [] none w
  begin_refs-HasBegun req key (some (r ∷ refs)) w =
      let (sorted, found) = vary_headers_match env.normalize (r ∷ refs) req.header in
      begin_match-HasBegun req key sorted found w

  pub begin-HasBegun : (req : Request) (w : World S) → HasBegun w (begin env req w)
  unfolding begin
  begin-HasBegun req w =
      let key = env.urls.url_key req.url in
      elim (Bool-cases (is_request_method_understood req)) [
        | inl known ↦
            rw known (begin_refs-HasBegun req key (Cache.get_refs env.conn env.codec key w.store) w)
        | inr other ↦ rw other (refl, refl)
      ]
