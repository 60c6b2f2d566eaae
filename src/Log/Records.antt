-- ===== src/Log/Records.antt =====
-- internal/log.go: the records that a handler is given for a sequence of calls.
use httpcache.Base.{
  ap, ◌≡◌, ◌∙◌, true, List, [], ◌∷◌, ◌++◌, Option, none, some, map, append-nil, append_assoc,
}
use httpcache.Bytes.{Bytes, codes}
use httpcache.Http.{Request}
use httpcache.Log.{
  Level, debug, warn, Record, Handler, Misc, attributes, log_cache, log_cache_hit, log_cache_miss,
  log_cache_stale_if_error, log_cache_stale_revalidate, log_cache_revalidated, log_cache_bypass,
  log_cache_error,
}
use httpcache.Log.Calls.{
  LogMethod, LogCall, About, subject_of, event_of, perform, run_calls, cache_hit, cache_miss,
  cache_stale_if_error, cache_stale_revalidate, cache_revalidated, cache_bypass, cache_error,
}

-- The table of the methods: a level, a text, and whether there is an error.
abbrev level_of : LogMethod → Level
level_of (cache_error message) = warn
level_of _ = debug

abbrev message_of : LogMethod → Bytes
message_of cache_hit = codes "Hit; served from cache."
message_of cache_miss = codes "Miss; served from origin."
message_of cache_stale_if_error = codes "Stale; served from cache; stale-if-error policy applied."
message_of cache_stale_revalidate = codes "Stale; served from cache; revalidating."
message_of cache_revalidated = codes "Revalidated; served cached response."
message_of (cache_bypass message) = message
message_of (cache_error message) = message

abbrev error_of : {E : Type 0} → E → LogMethod → Option E
error_of error (cache_error message) = some error
error_of error _ = none

module _ {E : Type 0} (about : About) (error : E) where
  abbrev pub record_of : LogCall → Record E
  record_of c = record {
    level = level_of c.method;
    message = message_of c.method;
    attrs =
        attributes (subject_of about c.request) (event_of c.method)
          (record { url_key = c.url_key; misc = c.misc; error = error_of error c.method });
  }

  handled-perform :
      (m : LogMethod) (req : Request) (key : Bytes) (misc : Option Misc) (h : Handler E)
      → ((l : Level) → h.enabled l ≡ true)
      → perform about error m req key misc h ≡ record h {
        handled =
            h.handled
            ++ record_of (record { method = m; request = req; url_key = key; misc = misc }) ∷ [];
      }
  unfolding log_cache log_cache_hit log_cache_miss log_cache_stale_if_error
      log_cache_stale_revalidate log_cache_revalidated log_cache_bypass log_cache_error
  handled-perform cache_hit req key misc h all = rw (all debug)
  handled-perform cache_miss req key misc h all = rw (all debug)
  handled-perform cache_stale_if_error req key misc h all = rw (all debug)
  handled-perform cache_stale_revalidate req key misc h all = rw (all debug)
  handled-perform cache_revalidated req key misc h all = rw (all debug)
  handled-perform (cache_bypass message) req key misc h all = rw (all debug)
  handled-perform (cache_error message) req key misc h all = rw (all warn)

  -- A handler that takes every level is given one record for each call, in their order, with the
  -- level, the text and the event of the call's method.
  pub handled-run_calls :
      (cs : List LogCall) (h : Handler E)
      → ((l : Level) → h.enabled l ≡ true)
      → (run_calls about error cs h).handled ≡ h.handled ++ map record_of cs
  unfolding run_calls
  handled-run_calls [] h all = rw append-nil
  handled-run_calls (c ∷ cs) h all =
      ap (λ h'. (run_calls about error cs h').handled)
        (handled-perform c.method c.request c.url_key c.misc h all)
      ∙ (handled-run_calls cs _ all ∙ append_assoc h.handled (record_of c ∷ []) (map record_of cs))
