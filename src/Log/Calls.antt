-- ===== src/Log/Calls.antt =====
-- internal/log.go: the calls of a logger's methods, as values, and what a logger does with them.
use httpcache.Base.{ℕ, List, [], ◌∷◌, Option, none, some}
use httpcache.Base.Int.{ℤ, pos, negsuc}
use httpcache.Bytes.{Bytes, codes}
use httpcache.Http.{Request}
use httpcache.Log.Context.{GoContext, trace_id_from_context}
use httpcache.Log.{
  Misc, Handler, Subject, log_cache_hit, log_cache_miss, log_cache_stale_if_error,
  log_cache_stale_revalidate, log_cache_revalidated, log_cache_bypass, log_cache_error,
}
use httpcache.Message.{CacheStatus, hit, miss, stale, revalidated, bypass}

-- The methods of Logger that the transport calls, with the text that a method takes.
pub data LogMethod : Type 0 where
  cache_hit cache_miss cache_stale_if_error cache_stale_revalidate cache_revalidated : LogMethod
  cache_bypass cache_error : Bytes → LogMethod

-- A call: the method and its other arguments; the error of LogCacheError is left out.
pub record LogCall : Type 0 where
  pub method : LogMethod
  pub request : Request
  pub url_key : Bytes
  pub misc : Option Misc

-- The index of a reference, as Misc has it.
abbrev pub index_of : Option ℕ → ℤ
index_of none = negsuc 0
index_of (some i) = pos i

-- The event that a method logs.
abbrev pub event_of : LogMethod → CacheStatus
event_of cache_hit = hit
event_of cache_miss = miss
event_of cache_stale_if_error = stale
event_of cache_stale_revalidate = stale
event_of cache_revalidated = revalidated
event_of (cache_bypass message) = bypass
event_of (cache_error message) = record { value = codes "error"; legacy = [] }

-- A request's context, URL as a text, and Host.
pub record About : Type 0 where
  pub context : Request → GoContext
  pub url : Request → Bytes
  pub host : Request → Bytes

abbrev pub subject_of : About → Request → Subject
subject_of about req = record {
  trace_id = trace_id_from_context (about.context req);
  request = req;
  url = about.url req;
  host = about.host req;
}

module _ {E : Type 0} (about : About) (error : E) where
  -- What the method does; `error` is the error of LogCacheError.
  abbrev pub perform : LogMethod → Request → Bytes → Option Misc → Handler E → Handler E
  perform cache_hit req = log_cache_hit (subject_of about req)
  perform cache_miss req = log_cache_miss (subject_of about req)
  perform cache_stale_if_error req = log_cache_stale_if_error (subject_of about req)
  perform cache_stale_revalidate req = log_cache_stale_revalidate (subject_of about req)
  perform cache_revalidated req = log_cache_revalidated (subject_of about req)
  perform (cache_bypass message) req = log_cache_bypass message (subject_of about req)
  perform (cache_error message) req = log_cache_error message error (subject_of about req)

  -- The calls, made one after another.
  unfoldable pub run_calls : List LogCall → Handler E → Handler E
  run_calls [] h = h
  run_calls (c ∷ cs) h = run_calls cs (perform c.method c.request c.url_key c.misc h)
