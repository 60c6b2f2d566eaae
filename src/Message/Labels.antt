-- ===== src/Message/Labels.antt =====
-- The status field of a response.
use httpcache.Base.{◌≡◌, refl, ◌∙◌, [], ◌∷◌}
use httpcache.Bytes.{Bytes, codes, str_eq}
use httpcache.Dict
use httpcache.Http
use httpcache.Http.{Request, Response, Header, canonical_key}
use httpcache.Http.Laws.{get-set}
use httpcache.Message.{CacheStatus, apply_status, set_legacy, gateway_timeout, bypass}

status_key : canonical_key (codes "X-Httpcache-Status") ≡ codes "X-Httpcache-Status"
unfolding canonical_key
status_key = refl

get-set_status :
    (v : Bytes) (h : Header)
    → Http.get (codes "X-Httpcache-Status") (Http.set (codes "X-Httpcache-Status") v h) ≡ v
unfolding canonical_key str_eq
get-set_status v h = get-set (codes "X-Httpcache-Status") (codes "X-Httpcache-Status") v h

get-set_from_cache :
    (v : Bytes) (h : Header)
    → Http.get (codes "X-Httpcache-Status") (Http.set (codes "X-From-Cache") v h)
      ≡ Http.get (codes "X-Httpcache-Status") h
unfolding canonical_key str_eq
get-set_from_cache v h = get-set (codes "X-From-Cache") (codes "X-Httpcache-Status") v h

get-set_legacy :
    (legacy : Bytes) (h : Header)
    → Http.get (codes "X-Httpcache-Status") (set_legacy legacy h)
      ≡ Http.get (codes "X-Httpcache-Status") h
get-set_legacy [] h = refl
get-set_legacy (c ∷ v) h = get-set_from_cache (c ∷ v) h

-- The status that is applied is the one that is read.
pub status-apply_status :
    (s : CacheStatus) (r : Response)
    → Http.get (codes "X-Httpcache-Status") (apply_status s r).header ≡ s.value
unfolding apply_status
status-apply_status s r =
    get-set_legacy s.legacy (Http.set (codes "X-Httpcache-Status") s.value r.header)
    ∙ get-set_status s.value r.header

pub status-gateway_timeout :
    Http.get (codes "X-Httpcache-Status") gateway_timeout.header ≡ bypass.value
unfolding Http.get canonical_key str_eq Dict.get
status-gateway_timeout = refl
