-- ===== src/Tests/Logs.antt =====
-- Records of a logger at a concrete handler.
use httpcache.Base.{ℕ, ◌≡◌, refl, Bool, true, false, [], ◌∷◌, none, some}
use httpcache.Base.Int.{pos, negsuc}
use httpcache.Bytes.{codes}
use httpcache.Log.{
  Level, debug, warn, Subject, Misc, Handler, Record, Value, reference, log_value, log_cache_hit,
  log_cache_error,
}
use httpcache.Tests.{get_request, ref_of}

-- A handler that takes warnings only.
abbrev only_warn : Level → Bool
only_warn debug = false
only_warn warn = true

abbrev handler : Handler ℕ
handler = record { enabled = only_warn; handled = [] }

abbrev subject : Subject
subject = record {
  trace_id = none;
  request = get_request;
  url = codes "https://example.com/a";
  host = codes "example.com";
}

abbrev misc : Misc
misc = record {
  cc_req = none;
  cc_resp = none;
  stored = none;
  freshness = none;
  refs = ref_of (codes "/a#0") ∷ [];
  ref_index = pos 0;
}

hit_is_not_taken : (log_cache_hit subject (codes "/a") (some misc) handler).handled ≡ []
unfolding log_cache_hit httpcache.Log.log_cache
hit_is_not_taken = refl

ref_is_named : log_value {E = ℕ} misc ≡ (codes "ref", reference (ref_of (codes "/a#0"))) ∷ []
unfolding log_value httpcache.Log.ref_at
ref_is_named = refl

negative_index_names_none : log_value {E = ℕ} (record misc { ref_index = negsuc 0 }) ≡ []
unfolding log_value httpcache.Log.ref_at
negative_index_names_none = refl
