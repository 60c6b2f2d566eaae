-- ===== src/Cacheability/Rules.antt =====
-- Which responses may be stored.
use httpcache.Base.{◌≤◌, ◌<◌, ◌≡◌, ◌↔◌, ◌⊎◌, true, false, arith, []}
use httpcache.Bytes.{codes, str_eq}
use httpcache.Cacheability.{can_store_response, is_status_understood}
use httpcache.Directives.{Directives, no_store, must_understand, public, max_age_present}
use httpcache.Freshness.{is_heuristically_cacheable_code}
use httpcache.Http
use httpcache.Http.{Response}

-- The rules of RFC 9111 §3 for a private cache, with the statuses that this cache understands.
pub record MayStore (resp : Response) (req_cc res_cc : Directives) : Type 0 where
  pub final : (200 ≤ resp.status_code) × (resp.status_code < 600)
  pub understood :
      (resp.status_code ≡ 206) ⊎ (resp.status_code ≡ 304) ⊎ (must_understand res_cc ≡ true)
      → is_status_understood resp.status_code ≡ true
  pub allowed : (no_store res_cc ≡ false) × (no_store req_cc ≡ false)
  pub reason :
      (public res_cc ≡ true)
      ⊎ (str_eq (Http.get (codes "Expires") resp.header) [] ≡ false)
      ⊎ (max_age_present res_cc ≡ true)
      ⊎ (is_heuristically_cacheable_code resp.status_code ≡ true)

-- A response is stored exactly when its status is final, is understood where it has to be, neither
-- side says `no-store`, and there is a reason to store it: `public`, `Expires`, `max-age`, or a
-- status that is cacheable by default.
pub can_store_response_iff :
    (resp : Response) (req_cc res_cc : Directives)
    → (can_store_response resp req_cc res_cc ≡ true) ↔ MayStore resp req_cc res_cc
unfolding can_store_response
can_store_response_iff resp req_cc res_cc = (
  λ h. record {
    final = ground (arith, h);
    understood = λ k. ground (arith, h, k);
    allowed = ground (arith, h);
    reason = ground (arith, h);
  },
  λ m. ground (arith, m.final, m.understood, m.allowed, m.reason),
)
