-- ===== src/System/Provenance/Answers.antt =====
-- What follows the origin's answer keeps each body with its URL.
use httpcache.Base.{◌&&◌, ◌==◌, [], ◌∷◌, Option, none, some, ℕ, Bool-cases, inl, inr}
use httpcache.Bytes.{Bytes, codes, str_eq}
use httpcache.Cacheability.{can_store_response, can_stale_on_error}
use httpcache.Directives.{Directives, parse_cc_directives}
use httpcache.Entry.{ResponseRefs}
use httpcache.Http.{Request, Response}
use httpcache.Message.{
  apply_status, set_age_header, merge_response_headers, remove_hop_by_hop_headers,
  is_stale_error_allowed, is_unsafe_method, is_non_error_status,
}
use httpcache.Store.{IsConn}
use httpcache.Storer.{store_response}
use httpcache.System.Provenance.{
  IsKey, IsShared, Leaves, LeavesOf, OwnRefs, IsCodec, ServesOwn, KeepsOwn, WaitsOwn, AnswersOwn,
  WorldOwn, key_of,
}
use httpcache.System.Provenance.Deletes.{Keeps-invalidate_cache}
use httpcache.System.Provenance.Stores.{Keeps-store_response}
use httpcache.Time.{Time}
use httpcache.Transport.{Timed, after_miss, after_unsafe, after_background}
use httpcache.Transport.Split.{Waiting, resume}
use httpcache.Validation.{
  Context, store_response_at, use_response, serve_stale, handle_validation_response,
}
use httpcache.World.{Env, World, Task, Moment, context_done, body_left}

module _ {S : Type 0} (env : Env S) (laws : IsConn env.conn) (told : IsCodec env.codec)
    (P : Bytes → Bytes → Type 0) (shared : IsShared P) where
  -- A response with a body for the URL, and a state that keeps each body with its URL.
  abbrev Own : Bytes → Response × World S → Type 0
  Own key (resp, w) = P key resp.body × WorldOwn P env w

  store_response_at-Own :
      (req : Request) (resp : Response) (key : Bytes) (refs : ResponseRefs) (start end : Time)
      (i : Option ℕ) (w : World S)
      → IsKey key
      → OwnRefs key refs
      → P key resp.body
      → WorldOwn P env w
      → Own key (store_response_at env req resp key refs start end i w)
  unfolding store_response_at store_response remove_hop_by_hop_headers
  store_response_at-Own req resp key refs start end i w word o good (h, tasks) = (
    good,
    (
      Keeps-store_response env.conn env.codec laws P told shared env.cal.dates env.normalize req
          resp key refs start end i w.store word o good h,
      tasks,
    ),
  )

  use_response-Own :
      (ctx : Context) (req : Request) (resp : Response) (cc : Directives) (w : World S)
      → IsKey ctx.url_key
      → OwnRefs ctx.url_key ctx.refs
      → P ctx.url_key resp.body
      → WorldOwn P env w
      → Own ctx.url_key (use_response env ctx req resp cc w)
  unfolding use_response apply_status
  use_response-Own ctx req resp cc w word o good (h, tasks) =
      elim (Bool-cases (can_store_response resp ctx.cc_req cc)) [
        | inl keep ↦
            let (body, w') =
              store_response_at-Own req resp ctx.url_key ctx.refs ctx.start ctx.end ctx.ref_index w
                word o good (h, tasks) in
            rw keep (body, w')
        | inr drop ↦
            rw drop
              (elim (Bool-cases
                (is_unsafe_method req.method && is_non_error_status resp.status_code)) [
                  | inl unsafe ↦ rw unsafe (
                    good,
                    (
                      Keeps-invalidate_cache env.conn env.codec laws P env.urls req.url resp.header
                          ctx.refs ctx.url_key w.store h,
                      tasks,
                    ),
                  )
                  | inr safe ↦ rw safe (good, (h, tasks))
                ])
      ]

  handle_validation_response-Own :
      (ctx : Context) (req : Request) (resp : Response) (w : World S)
      → IsKey ctx.url_key
      → OwnRefs ctx.url_key ctx.refs
      → P ctx.url_key ctx.stored.response.body
      → P ctx.url_key resp.body
      → WorldOwn P env w
      → Own ctx.url_key (handle_validation_response env ctx req resp w)
  unfolding handle_validation_response serve_stale apply_status set_age_header
      merge_response_headers
  handle_validation_response-Own ctx req resp w word o old good h =
      let cc = parse_cc_directives resp.header in
      let is_get = str_eq req.method (codes "GET") in
      let (allowed, n) = can_stale_on_error env.cal.clock ctx.freshness (cc ∷ []) w.reads in
      let merged = merge_response_headers ctx.stored.response resp.header in
      elim (Bool-cases (is_get && resp.status_code == 304)) [
        | inl same ↦
            let (body, w') =
              store_response_at-Own req merged ctx.url_key ctx.refs ctx.start ctx.end ctx.ref_index
                w word o old h in
            rw same (body, w')
        | inr other ↦
            rw other (elim (Bool-cases (is_stale_error_allowed resp.status_code && is_get)) [
              | inl error ↦ rw error (elim (Bool-cases allowed) [
                | inl fits ↦ rw fits (old, h)
                | inr unfit ↦
                    rw unfit
                      (use_response-Own ctx req resp cc (record w { reads = n }) word o good h)
              ])
              | inr fine ↦ rw fine (use_response-Own ctx req resp cc w word o good h)
            ])
      ]

  -- The same for what may be an error.
  abbrev pub OwnMaybe : Bytes → Option Response × World S → Type 0
  OwnMaybe key (answer, w) = ServesOwn P key answer × WorldOwn P env w

  after_miss-Own :
      (req : Request) (key : Bytes) (refs : ResponseRefs) (i : Option ℕ) (t : Timed) (w : World S)
      → IsKey key
      → OwnRefs key refs
      → P key t.response.body
      → WorldOwn P env w
      → OwnMaybe key (after_miss env req key refs i (some t) w)
  unfolding after_miss apply_status
  after_miss-Own req key refs i t w word o good h =
      let cc = parse_cc_directives t.response.header in
      elim (Bool-cases (can_store_response t.response (parse_cc_directives req.header) cc)) [
        | inl keep ↦
            let (body, w') =
              store_response_at-Own req t.response key refs t.start t.end i w word o good h in
            rw keep (inr body, w')
        | inr drop ↦ rw drop (inr good, h)
      ]

  after_unsafe-Own :
      (req : Request) (key : Bytes) (resp : Response) (w : World S)
      → P key resp.body
      → WorldOwn P env w
      → OwnMaybe key (after_unsafe env req key (some resp) w)
  unfolding apply_status
  after_unsafe-Own req key resp w good (h, tasks) =
      elim (Bool-cases (is_non_error_status resp.status_code)) [
        | inl fine ↦ rw fine (
          inr good,
          (
            Keeps-invalidate_cache env.conn env.codec laws P env.urls req.url resp.header _ key
                w.store h,
            tasks,
          ),
        )
        | inr error ↦ rw error (inr good, (h, tasks))
      ]

  after_background-Own :
      (moment : Moment) (task : Task) (t : Timed) (w : World S)
      → KeepsOwn P task
      → LeavesOf moment task
      → P task.url_key t.response.body
      → WorldOwn P env w
      → WorldOwn P env (after_background env moment task (some t) w).1
  after_background-Own context_done task t w old part good h = h
  after_background-Own (body_left left closed) task t w (word, old) part good h =
      (handle_validation_response-Own _ _ t.response w word tt
        (shared task.url_key task.stored.response.body left old part) good h).1

  -- A client that waited for the origin is given an error or a body for its URL, and what is then
  -- stored has its bodies with their URLs, if the origin's answer is one for the URL.
  pub resume-Own :
      (moment : Moment) (p : Waiting) (answer : Option Response) (w : World S)
      → WaitsOwn P p
      → Leaves moment p
      → AnswersOwn P (p, answer)
      → WorldOwn P env w
      → OwnMaybe (key_of p) (resume env moment p answer w)
  unfolding resume after_miss apply_status
  resume-Own moment (Waiting.passing req key) none w o part good h =
      elim (Bool-cases (is_unsafe_method req.method)) [
        | inl unsafe ↦ rw unsafe (tt, h)
        | inr safe ↦ rw safe (tt, h)
      ]
  resume-Own moment (Waiting.passing req key) (some resp) w o part good h =
      elim (Bool-cases (is_unsafe_method req.method)) [
        | inl unsafe ↦ rw unsafe (after_unsafe-Own req key resp w good h)
        | inr safe ↦ rw safe (inr good, h)
      ]
  resume-Own moment (Waiting.missing req key refs i start) none w o part good h = (tt, h)
  resume-Own moment (Waiting.missing req key refs i start) (some resp) w o part good h =
      after_miss-Own req key refs i _ _ o.0 o.1 good h
  resume-Own moment (Waiting.validating req stored key refs i f start) none w o part good h =
      (tt, h)
  resume-Own moment (Waiting.validating req stored key refs i f start) (some resp) w o part good h =
      let (body, w') = handle_validation_response-Own _ _ _ _ o.0 o.1.0 o.1.1 good h in
      (inr body, w')
  resume-Own moment (Waiting.renewing task start) none w o part good h = (tt, h)
  resume-Own moment (Waiting.renewing task start) (some resp) w o part good h =
      (tt, after_background-Own moment task _ _ o part good h)
