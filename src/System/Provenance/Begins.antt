-- ===== src/System/Provenance/Begins.antt =====
-- What comes before the call of the origin takes a body from the URL that it is about.
use httpcache.Base.{
  ℕ, zero, suc, ◌≡◌, refl, Bool, true, false, not, ◌||◌, ◌&&◌, List, [], ◌∷◌, All, All-append,
  Option, none, some, get_elem?, if◌then◌else◌, Bool-cases, Option-cases, inl, inr,
}
use httpcache.Bytes.{Bytes}
use httpcache.Cache
use httpcache.Directives.{
  parse_cc_directives, only_if_cached, immutable, request_no_cache, must_revalidate,
  response_no_cache, stale_while_revalidate,
}
use httpcache.Entry.{Stored, ResponseRef, ResponseRefs}
use httpcache.Freshness.{Freshness}
use httpcache.Http.{Request}
use httpcache.Message.{apply_status, set_age_header, is_request_method_understood}
use httpcache.System.Provenance.{IsKey, Owns, OwnRefs, KeepsOwn, ProgressOwn, WorldOwn}
use httpcache.Time.{Duration}
use httpcache.Transport.{
  serve_from_cache, handle_stale_while_revalidate, in_swr_window, fields_of, is_present, entry_at,
}
use httpcache.Transport.Split.{
  Progress, answered, begin_miss, begin_revalidate, begin_swr_or_revalidate, begin_decide,
  begin_hit, begin_entry, begin_match, begin_refs, begin,
}
use httpcache.Vary.{preferred, insert_ref, sort_onto, sort_refs, vary_headers_match, make_vary_key}
use httpcache.World.{Env, World, Action}

OwnRefs-insert_ref :
    (key : Bytes) (r : ResponseRef) (refs : ResponseRefs)
    → Owns key r.response_id
    → OwnRefs key refs
    → OwnRefs key (insert_ref r refs)
unfolding insert_ref
OwnRefs-insert_ref key r [] o h = (o, tt)
OwnRefs-insert_ref key r (q ∷ qs) o (p, h) = elim (Bool-cases (preferred r q)) [
  | inl first ↦ rw first (o, (p, h))
  | inr later ↦ rw later (p, OwnRefs-insert_ref key r qs o h)
]

OwnRefs-sort_onto :
    (key : Bytes) (sorted refs : ResponseRefs)
    → OwnRefs key sorted
    → OwnRefs key refs
    → OwnRefs key (sort_onto sorted refs)
unfolding sort_onto
OwnRefs-sort_onto key sorted [] h k = h
OwnRefs-sort_onto key sorted (r ∷ refs) h (o, k) =
    OwnRefs-sort_onto key (insert_ref r sorted) refs (OwnRefs-insert_ref key r sorted o h) k

OwnRefs-get :
    (key : Bytes) (refs : ResponseRefs) (i : ℕ) (r : ResponseRef)
    → OwnRefs key refs
    → get_elem? refs i ≡ some r
    → Owns key r.response_id
OwnRefs-get key [] i r h e = cc
OwnRefs-get key (q ∷ refs) zero r (o, h) e = let same : q ≡ r = cc in rw (← same) o
OwnRefs-get key (q ∷ refs) (suc i) r (o, h) e = OwnRefs-get key refs i r h e

abbrev list_of : Option Stored → List Stored
list_of none = []
list_of (some e) = e ∷ []

module _ {S : Type 0} (env : Env S) (P : Bytes → Bytes → Type 0) where
  abbrev pub Own : Bytes → Progress × World S → Type 0
  Own key (p, w) = ProgressOwn P key p × WorldOwn P env w

  branch :
      (key : Bytes) (w : World S) (b : Bool) (m n : Action S Progress)
      → Own key (m w)
      → Own key (n w)
      → Own key ((if b then m else n) w)
  branch key w true m n p q = p
  branch key w false m n p q = q

  begin_miss-Own :
      (req : Request) (key : Bytes) (refs : ResponseRefs) (i : Option ℕ) (w : World S)
      → IsKey key
      → OwnRefs key refs
      → WorldOwn P env w
      → Own key (begin_miss env req key refs i w)
  unfolding begin_miss
  begin_miss-Own req key refs i w word o h =
      elim (Bool-cases (only_if_cached (parse_cc_directives req.header))) [
        | inl only ↦ rw only (inl refl, h)
        | inr other ↦ rw other (((word, o), refl), h)
      ]

  begin_revalidate-Own :
      (req : Request) (stored : Stored) (key : Bytes) (refs : ResponseRefs) (i : Option ℕ)
      (f : Freshness) (w : World S)
      → IsKey key
      → OwnRefs key refs
      → P key stored.response.body
      → WorldOwn P env w
      → Own key (begin_revalidate env req stored key refs i f w)
  unfolding begin_revalidate
  begin_revalidate-Own req stored key refs i f w word o good h = (((word, (o, good)), refl), h)

  serve-Own :
      (req : Request) (stored : Stored) (key : Bytes) (f : Freshness) (fields : Option (List Bytes))
      (w : World S)
      → P key stored.response.body
      → WorldOwn P env w
      → let (answer, w') = serve_from_cache env req key stored f fields w in
        Own key (answered answer, w')
  unfolding serve_from_cache apply_status set_age_header
  serve-Own req stored key f none w good h = (inr good, h)
  serve-Own req stored key f (some fields) w good h = (inr good, h)

  begin_swr-Own :
      (req : Request) (stored : Stored) (key : Bytes) (refs : ResponseRefs) (i : Option ℕ)
      (f : Freshness) (swr : Option Duration) (w : World S)
      → IsKey key
      → OwnRefs key refs
      → P key stored.response.body
      → WorldOwn P env w
      → Own key (begin_swr_or_revalidate env req stored key refs i f swr w)
  unfolding begin_swr_or_revalidate in_swr_window handle_stale_while_revalidate apply_status
  begin_swr-Own req stored key refs i f none w word o good h =
      begin_revalidate-Own req stored key refs i f w word o good h
  begin_swr-Own req stored key refs i f (some d) w word o good (h, tasks) =
      let (inside, w') = in_swr_window env f d w in
      let cc = parse_cc_directives req.header in
      let serve = handle_stale_while_revalidate env req stored key f cc in
      let serving : Action S Progress = λ v. let (r, v') = serve v in (answered r, v') in
      let ask = begin_revalidate env req stored key refs i f in
      let early : Action S Progress =
        λ v. let (fits, v') = in_swr_window env f d v in (if fits then serving else ask) v' in
      let more = All-append (KeepsOwn P) w.pending (_ ∷ []) tasks ((word, good), tt) in
      branch key w f.is_stale early ask
        (branch key w' inside serving ask (inr good, (h, more))
          (begin_revalidate-Own req stored key refs i f w' word o good (h, tasks)))
        (begin_revalidate-Own req stored key refs i f w word o good (h, tasks))

  begin_decide-Own :
      (req : Request) (stored : Stored) (key : Bytes) (refs : ResponseRefs) (i : Option ℕ)
      (f : Freshness) (w : World S)
      → IsKey key
      → OwnRefs key refs
      → P key stored.response.body
      → WorldOwn P env w
      → Own key (begin_decide env req stored key refs i f w)
  unfolding begin_decide
  begin_decide-Own req stored key refs i f w word o good h =
      let cc_req = parse_cc_directives req.header in
      let cc_resp = parse_cc_directives stored.response.header in
      let raw = response_no_cache cc_resp in
      let swr = stale_while_revalidate cc_resp in
      let serve = serve_from_cache env req key stored f (fields_of env raw) in
      let serving : Action S Progress = λ v. let (r, v') = serve v in (answered r, v') in
      let served = serve-Own req stored key f (fields_of env raw) w good h in
      let ask = begin_revalidate env req stored key refs i f in
      let last = only_if_cached cc_req || (not f.is_stale && not (request_no_cache cc_req)) in
      let later = begin_swr_or_revalidate env req stored key refs i f swr in
      let must =
        (f.is_stale && must_revalidate cc_resp)
        || (is_present env raw && not (is_present env (fields_of env raw))) in
      branch key w (not f.is_stale && immutable cc_resp && not (request_no_cache cc_req)) serving
        (if must then ask else if last then serving else later) served
        (branch key w must ask (if last then serving else later)
          (begin_revalidate-Own req stored key refs i f w word o good h)
          (branch key w last serving later served
            (begin_swr-Own req stored key refs i f swr w word o good h)))

  begin_entry-Own :
      (req : Request) (key : Bytes) (refs : ResponseRefs) (i : ℕ) (entry : Option Stored)
      (w : World S)
      → IsKey key
      → OwnRefs key refs
      → All (λ e. P key e.response.body) (list_of entry)
      → WorldOwn P env w
      → Own key (begin_entry env req key refs i entry w)
  unfolding begin_hit
  begin_entry-Own req key refs i none w word o good h =
      begin_miss-Own req key refs (some i) _ word o h
  begin_entry-Own req key refs i (some entry) w word o (good, _) h =
      begin_decide-Own req entry key refs (some i) _ _ word o good h

  entry_at-Own :
      (req : Request) (key : Bytes) (refs : ResponseRefs) (i : ℕ) (w : World S)
      → IsKey key
      → OwnRefs key refs
      → WorldOwn P env w
      → All (λ e. P key e.response.body) (list_of (entry_at env req (get_elem? refs i) w.store))
  entry_at-Own req key refs i w word o (h, tasks) = elim (Option-cases (get_elem? refs i)) [
    | inl absent ↦ rw absent tt
    | inr (r, e) ↦
        let (d, p) = OwnRefs-get key refs i r o e in
        rw (e, p)
          (elim (Option-cases (Cache.get env.conn env.codec (make_vary_key key d) req w.store)) [
            | inl unread ↦ rw unread tt
            | inr (entry, found) ↦ rw found (h.entry_from key d req entry found, tt)
          ])
  ]

  begin_match-Own :
      (req : Request) (key : Bytes) (refs : ResponseRefs) (found : Option ℕ) (w : World S)
      → IsKey key
      → OwnRefs key refs
      → WorldOwn P env w
      → Own key (begin_match env req key (refs, found) w)
  begin_match-Own req key refs none w word o h = begin_miss-Own req key refs none w word o h
  begin_match-Own req key refs (some i) w word o h =
      begin_entry-Own req key refs i (entry_at env req (get_elem? refs i) w.store) w word o
        (entry_at-Own req key refs i w word o h) h

  begin_refs-Own :
      (req : Request) (key : Bytes) (refs : Option ResponseRefs) (w : World S)
      → IsKey key
      → Cache.get_refs env.conn env.codec key w.store ≡ refs
      → WorldOwn P env w
      → Own key (begin_refs env req key refs w)
  unfolding vary_headers_match sort_refs
  begin_refs-Own req key none w word e h = begin_miss-Own req key [] none w word tt h
  begin_refs-Own req key (some []) w word e h = begin_miss-Own req key [] none w word tt h
  begin_refs-Own req key (some (r ∷ refs)) w word e h =
      begin_match-Own req key (sort_refs (r ∷ refs)) _ w word
        (OwnRefs-sort_onto key [] (r ∷ refs) tt (h.0.refs_own key (r ∷ refs) e)) h

  -- A client that is answered without the origin is given the answer to `only-if-cached` or a body
  -- for its URL, and a client that waits has what was stored for its URL.
  pub begin-Own :
      (req : Request) (w : World S)
      → IsKey (env.urls.url_key req.url)
      → WorldOwn P env w
      → Own (env.urls.url_key req.url) (begin env req w)
  unfolding begin
  begin-Own req w word h =
      let key = env.urls.url_key req.url in
      elim (Bool-cases (is_request_method_understood req)) [
        | inl known ↦
            rw known
              (begin_refs-Own req key (Cache.get_refs env.conn env.codec key w.store) w word refl h)
        | inr other ↦ rw other (((word, tt), refl), h)
      ]
