-- ===== src/Tests/Errors.antt =====
-- A stale response in place of an error, at a concrete transport.
use httpcache.Base.{◌↔◌, false, ◌≡◌, [], none}
use httpcache.Base.Int.{pos, add64, saturate64, ◌-ℤ◌}
use httpcache.Bytes.{codes, str_eq}
use httpcache.Cacheability.{can_stale_on_error}
use httpcache.Dict
use httpcache.Directives.{parse_cc_directives, parse_directives, stale_if_error}
use httpcache.Http
use httpcache.Http.{Response, canonical_key}
use httpcache.Message.{is_stale_error_allowed, apply_status, set_age_header}
use httpcache.Message
use httpcache.Message.Labels.{status-apply_status}
use httpcache.Tests.{get_request, env, world, entry, stale, field}
use httpcache.Time.{since, sub}
use httpcache.Validation.{Context, handle_validation_response, serve_stale}
use httpcache.Validation.StaleError.{
  status_of, IsServerError, IsInTime, handle_validation_response-stale,
}

abbrev failure : Response
failure = record {
  status_code = 503;
  header = field (codes "Cache-Control") (codes "stale-if-error=600");
  body = [];
  closed = false;
}

abbrev context : Context
context = record {
  url_key = codes "/a";
  start = pos 5;
  end = pos 6;
  cc_req = [];
  stored = entry;
  freshness = stale;
  refs = [];
  ref_index = none;
}

handle_validation_response-stale_example :
    let r = (handle_validation_response env context get_request failure world).0 in
    ((status_of r ≡ codes "STALE") ↔ (
      (get_request.method ≡ codes "GET")
      × IsServerError 503
      × IsInTime env context (parse_cc_directives failure.header) world.reads))
    × (status_of r ≡ codes "STALE"
        → (r.status_code ≡ entry.response.status_code) × (r.body ≡ entry.response.body))
handle_validation_response-stale_example =
    handle_validation_response-stale env context get_request failure world

-- The error is hidden by the stored response.
failure_is_hidden :
    status_of (handle_validation_response env context get_request failure world).0 ≡ codes "STALE"
unfolding handle_validation_response serve_stale is_stale_error_allowed can_stale_on_error
    stale_if_error parse_cc_directives parse_directives Http.get canonical_key Dict.get str_eq since
    sub add64 saturate64 ◌-ℤ◌
failure_is_hidden =
    status-apply_status Message.stale
      (set_age_header env.cal.clock env.whole_seconds entry.response stale.age 1).0
