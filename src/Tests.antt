-- ===== src/Tests.antt =====
-- A transport on the memory cache, with an origin, a clock and an encoding, for the tests.
pub mod Parts
pub mod Texts
pub mod Around
pub mod Repeat
pub mod Errors
pub mod Rounds
pub mod Runs
pub mod Interleaved
pub mod Isolation
pub mod Suite
pub mod Disk
pub mod Logs
pub mod Values
use httpcache.Base.{ℕ, ◌+◌, ◌*◌, ◌≡◌, refl, Bool, true, false, List, [], ◌∷◌, Option, none, some}
use httpcache.Base.Int.{ℤ, pos}
use httpcache.Bytes.{Bytes, codes}
use httpcache.Cache.{Codec}
use httpcache.Dict.{Dict}
use httpcache.Entry.{Stored, ResponseRef, ResponseRefs}
use httpcache.Freshness.{Age, Freshness, Calendar}
use httpcache.Http.{Header, Url, Request, Response}
use httpcache.Invalidator.{Urls}
use httpcache.Memcache
use httpcache.Memcache.{MemCache}
use httpcache.Text.{join}
use httpcache.Text.Csv.{trimmed_csv}
use httpcache.Time.{zero_time, Time, Duration, Dates}
use httpcache.World.{Env, World, Task}

abbrev pub field : Bytes → Bytes → Header
field k v = (k, v ∷ []) ∷ []

abbrev pub url : Url
url = record {
  scheme = codes "https";
  opaque = [];
  host = codes "example.com";
  path = codes "/a";
  raw_query = [];
}

abbrev pub other_url : Url
other_url = record url { host = codes "example.org" }

abbrev pub get_request : Request
get_request = record { method = codes "GET"; url = url; header = [] }

abbrev pub put_request : Request
put_request = record get_request { method = codes "PUT" }

abbrev pub private_request : Request
private_request = record get_request { header = field (codes "Cache-Control") (codes "no-store") }

abbrev pub answer : Response
answer = record {
  status_code = 200;
  header = field (codes "Cache-Control") (codes "max-age=60");
  body = codes "hello";
  closed = false;
}

abbrev pub strict : Response
strict = record answer {
  header = field (codes "Cache-Control") (codes "max-age=60, must-revalidate");
}

abbrev pub confirmation : Response
confirmation = record {
  status_code = 304;
  header = field (codes "Etag") (codes "v1");
  body = [];
  closed = false;
}

abbrev pub ref_of : Bytes → ResponseRef
ref_of id = record { response_id = id; vary = []; vary_resolved = []; received_at = zero_time }

abbrev refs_of : List Bytes → ResponseRefs
refs_of [] = []
refs_of (id ∷ ids) = ref_of id ∷ refs_of ids

abbrev ids_of : ResponseRefs → List Bytes
ids_of [] = []
ids_of (r ∷ refs) = r.response_id ∷ ids_of refs

-- A response is kept as its body, and references as their identifiers.
abbrev pub codec : Codec
codec = record {
  marshal = λ e. some e.response.body;
  parse = λ b _. some (record {
    id = [];
    response = record answer { body = b };
    requested_at = pos 5;
    received_at = pos 5;
  });
  marshal_refs = λ refs. some (join (codes ",") (ids_of refs));
  unmarshal_refs = λ b. some (refs_of (trimmed_csv b));
}

abbrev pub dates : Dates
dates = record {
  parse_time = λ _. none;
  format_time = λ _. codes "Thu, 01 Jan 1970 00:00:00 GMT";
  parse_rfc1123 = λ _. none;
}

abbrev pub cal : Calendar
cal = record {
  dates = dates;
  clock = λ n. pos (n * 1_000_000_000);
  allow_utc = false;
  tenth = λ d. d;
}

abbrev pub urls : Urls
urls = record { parse = λ _. some other_url; resolve_reference = λ _ u. u; url_key = λ u. u.path }

abbrev pub env : Env MemCache
env = record {
  conn = Memcache.conn;
  codec = codec;
  cal = cal;
  urls = urls;
  normalize = λ _ v. v;
  whole_seconds = λ d. d;
  origin = λ _ _. some answer;
}

-- The same transport while the origin is down.
abbrev pub cut_off : Env MemCache
cut_off = record env { origin = λ _ _. none }

-- The references of `/a` name one entry, and another entry has no reference.
abbrev pub store : MemCache
store = (codes "/a", codes "/a#0") ∷ (codes "/a#0", codes "old") ∷ (codes "/b", codes "kept") ∷ []

abbrev pub world : World MemCache
world = record { store = store; reads = 0; sent = []; pending = []; logged = [] }

abbrev pub entry : Stored
entry = record { id = codes "/a#0"; response = answer; requested_at = pos 5; received_at = pos 5 }

abbrev pub strict_entry : Stored
strict_entry = record entry { response = strict }

abbrev pub young : Age
young = record { value = pos 10_000_000_000; timestamp = pos 5 }

abbrev pub old : Age
old = record { value = pos 90_000_000_000; timestamp = pos 5 }

abbrev pub minute : Duration
minute = pos 60_000_000_000

abbrev pub fresh : Freshness
fresh = record { is_stale = false; age = young; useful_life = minute }

abbrev pub stale : Freshness
stale = record { is_stale = true; age = old; useful_life = minute }

abbrev pub task : Task
task = record {
  request = get_request;
  stored = entry;
  url_key = codes "/a";
  freshness = stale;
  cc_req = [];
}
