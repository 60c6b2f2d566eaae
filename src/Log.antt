-- ===== src/Log.antt =====
-- internal/log.go: the records that a logger hands to its handler. The handler is a
-- list of what it was given; the time and the caller of a record are left out.
pub mod Reference
pub mod Calls
pub mod Records
pub mod Context
use httpcache.Base.{
  ℕ, Bool, true, false, List, [], ◌∷◌, ◌++◌, Option, none, some, get_elem?, if◌then◌else◌,
}
use httpcache.Base.Int.{ℤ, pos, negsuc}
use httpcache.Bytes.{Bytes, codes}
use httpcache.Directives.{Directives}
use httpcache.Entry.{Stored, ResponseRef, ResponseRefs}
use httpcache.Freshness.{Freshness}
use httpcache.Http.{Request}
use httpcache.Message.{CacheStatus, hit, miss, stale, revalidated, bypass}

pub data Level : Type 0 where
  debug warn : Level

-- A value of an attribute; `E` are the errors.
pub data Value (E : Type 0) : Type 0 where
  text : Bytes → Value E
  failure : E → Value E
  status : CacheStatus → Value E
  directives : Directives → Value E
  stored : Stored → Value E
  freshness : Freshness → Value E
  reference : ResponseRef → Value E

-- slog.Attr: a value, or a group of attributes, under a name.
pub data Attr (E : Type 0) : Type 0 where
  single : Bytes → Value E → Attr E
  group : Bytes → List (Bytes × Value E) → Attr E

-- Misc; `none` stands for nil.
pub record Misc : Type 0 where
  pub cc_req : Option Directives
  pub cc_resp : Option Directives
  pub stored : Option Stored
  pub freshness : Option Freshness
  pub refs : ResponseRefs
  pub ref_index : ℤ

-- LogEntry; a MiscProvider is what it makes.
pub record LogEntry (E : Type 0) : Type 0 where
  pub url_key : Bytes
  pub misc : Option Misc
  pub error : Option E

-- slog.Record
pub record Record (E : Type 0) : Type 0 where
  pub level : Level
  pub message : Bytes
  pub attrs : List (Attr E)

-- The slog.Handler: whether it takes a level, and what it has been given.
pub record Handler (E : Type 0) : Type 0 where
  pub enabled : Level → Bool
  pub handled : List (Record E)

-- What a call logs for: the trace identifier of the context, the request, its URL as a text, and its
-- Host.
pub record Subject : Type 0 where
  pub trace_id : Option Bytes
  pub request : Request
  pub url : Bytes
  pub host : Bytes

-- Logger.With and Logger.WithGroup; the two functions are WithAttrs and WithGroup of the handler.
unfoldable pub with : {H A : Type 0} → (List A → H → H) → List A → H → H
with with_attrs [] h = h
with with_attrs (a ∷ attrs) h = with_attrs (a ∷ attrs) h

unfoldable pub with_group : {H : Type 0} → (Bytes → H → H) → Bytes → H → H
with_group handler_with_group [] h = h
with_group handler_with_group (c ∷ name) h = handler_with_group (c ∷ name) h

-- The reference at the index, if the index is one of the list.
unfoldable pub ref_at : ℤ → ResponseRefs → Option ResponseRef
ref_at (pos i) refs = get_elem? refs i
ref_at (negsuc i) refs = none

module _ {E : Type 0} where
  abbrev named : {A : Type 0} → Bytes → (A → Value E) → Option A → List (Bytes × Value E)
  named name f none = []
  named name f (some a) = (name, f a) ∷ []

  -- Misc.LogValue
  unfoldable pub log_value : Misc → List (Bytes × Value E)
  log_value m =
      named (codes "cc_request") directives m.cc_req
      ++ (named (codes "cc_response") directives m.cc_resp
          ++ (named (codes "stored") stored m.stored
              ++ (named (codes "freshness") freshness m.freshness
                  ++ named (codes "ref") reference (ref_at m.ref_index m.refs))))

  abbrev error_attr : Option E → List (Attr E)
  error_attr none = []
  error_attr (some e) = single (codes "error") (failure e) ∷ []

  abbrev trace_attr : Option Bytes → List (Attr E)
  trace_attr none = []
  trace_attr (some []) = []
  trace_attr (some (c ∷ s)) = single (codes "trace_id") (text (c ∷ s)) ∷ []

  abbrev misc_attr : Option Misc → List (Attr E)
  misc_attr none = []
  misc_attr (some m) = group (codes "misc") (log_value m) ∷ []

  -- The attributes of logCache, in their order.
  unfoldable pub attributes : Subject → CacheStatus → LogEntry E → List (Attr E)
  attributes s event entry =
      single (codes "service") (text (codes "httpcache"))
      ∷ single (codes "event") (text event.value)
      ∷ (error_attr entry.error
          ++ (trace_attr s.trace_id
              ++ (group (codes "request") (
                    (codes "method", text s.request.method)
                    ∷ (codes "url", text s.url)
                    ∷ (codes "host", text s.host)
                    ∷ [])
                  ∷ group (codes "cache")
                      ((codes "status", status event) ∷ (codes "url_key", text entry.url_key) ∷ [])
                  ∷ misc_attr entry.misc)))

  -- logCache
  unfoldable pub log_cache :
      Subject → Level → Bytes → CacheStatus → LogEntry E → Handler E → Handler E
  log_cache s level message event entry h =
      if h.enabled level
      then record h {
        handled =
            h.handled
            ++ record { level = level; message = message; attrs = attributes s event entry } ∷ [];
      }
      else h

  -- The level and the message are fixed by the method, the error is none.
  abbrev log_debug : CacheStatus → Bytes → Subject → Bytes → Option Misc → Handler E → Handler E
  log_debug event message s url_key misc =
      log_cache s debug message event (record { url_key = url_key; misc = misc; error = none })

  -- LogCacheHit
  unfoldable pub log_cache_hit : Subject → Bytes → Option Misc → Handler E → Handler E
  log_cache_hit = log_debug hit (codes "Hit; served from cache.")

  -- LogCacheMiss
  unfoldable pub log_cache_miss : Subject → Bytes → Option Misc → Handler E → Handler E
  log_cache_miss = log_debug miss (codes "Miss; served from origin.")

  -- LogCacheStale
  unfoldable pub log_cache_stale : Subject → Bytes → Option Misc → Handler E → Handler E
  log_cache_stale = log_debug stale (codes "Stale; served from cache.")

  -- LogCacheStaleIfError
  unfoldable pub log_cache_stale_if_error : Subject → Bytes → Option Misc → Handler E → Handler E
  log_cache_stale_if_error =
      log_debug stale (codes "Stale; served from cache; stale-if-error policy applied.")

  -- LogCacheStaleRevalidate
  unfoldable pub log_cache_stale_revalidate : Subject → Bytes → Option Misc → Handler E → Handler E
  log_cache_stale_revalidate = log_debug stale (codes "Stale; served from cache; revalidating.")

  -- LogCacheRevalidated
  unfoldable pub log_cache_revalidated : Subject → Bytes → Option Misc → Handler E → Handler E
  log_cache_revalidated = log_debug revalidated (codes "Revalidated; served cached response.")

  -- LogCacheBypass
  unfoldable pub log_cache_bypass : Bytes → Subject → Bytes → Option Misc → Handler E → Handler E
  log_cache_bypass message = log_debug bypass message

  -- LogCacheError
  unfoldable pub log_cache_error : Bytes → E → Subject → Bytes → Option Misc → Handler E → Handler E
  log_cache_error message error s url_key misc =
      log_cache s warn message (record { value = codes "error"; legacy = [] })
        (record { url_key = url_key; misc = misc; error = some error })
