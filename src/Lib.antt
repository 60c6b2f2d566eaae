-- ===== src/Lib.antt =====
-- httpcache: a Go round tripper that caches HTTP responses as a private cache (RFC 9111).
--
-- A request enters at RoundTrip (roundtripper.go). It is bypassed, answered from the cache, or sent
-- to the origin and then perhaps stored. Stored responses and the list of references to the
-- variants of a URL are byte strings under keys of a backend.
--
-- Shared: Base (numbers, lists, 64-bit integers), Bytes (Go strings), Dict (Go maps).
-- Text: the functions of packages strings, textproto and strconv that the cache calls, with
--   TrimmedCSV (internal/helpers.go) in Text/Csv, internal/quotedstring.go in Text/Quoted, and
--   encoding/base64 in Text/Base64.
-- Http, Time: the parts of net/http and time in use, and internal/clock.go.
-- Directives: internal/ccdirectives.go.
-- Entry: internal/entry.go, the data and its dates; its encoding in Entry/Encoding.
-- UrlKey: pkg/urlkey/urlkey.go. Registry: store/internal/registry/registry.go.
-- ExpApi: store/expapi/expapi.go.
-- Options: options.go, and the defaults of newTransport (roundtripper.go).
-- Freshness: internal/freshness.go.
-- Origin: internal/urlutil/urlutil.go and sameOrigin of internal/helpers.go.
-- Message: internal/helpers.go, internal/header.go, internal/requestmethodchecker.go, helpers.go.
-- Cacheability: internal/cacheabilityevaluator.go.
-- Vary: internal/varymatcher.go, and normalizedVaryHeader and makeVaryKey of
--   internal/normalization.go, whose other functions are in Vary/Normalize.
-- Store: store/driver/driver.go, the interface of a backend as a record of operations, and its
--   documented laws; store/acceptance/acceptance.go in Store/Acceptance. Memcache:
--   store/memcache/memcache.go.
-- FsCache: store/fscache/fscache.go on a tree of files (FsCache/Files, the calls of os.Root); its
--   options and Open in FsCache/Opening, filenamer.go in FsCache/Namer, encrypt.go in
--   FsCache/Encrypt.
-- Cache: internal/responsecache.go. Storer: internal/responsestorerer.go.
-- Invalidator: internal/cacheinvalidator.go.
-- World: the fields of `transport` and the state that it works on: the backend, the readings made of
--   the clock, the requests that the origin has had, the background revalidations, and the calls of
--   the logger.
-- Validation: internal/validationresponsehandler.go. Transport: roundtripper.go, whose misses, bypasses
--   and served hits are in Transport/Handlers.
-- System: sequences of requests and of background revalidations, in any order. Transport/Split:
--   RoundTrip cut at its call of the origin; System/Interleaved lets these parts interleave.
--   System/Provenance follows the bodies of responses through them.
-- Log: internal/log.go, the records that a logger hands to its handler; its calls as values in
--   Log/Calls, and context.go in Log/Context.
-- Wiring: NewTransport and newTransport (roundtripper.go) on a backend, and the transport they give;
--   its encodings in Wiring/Encodings.
-- Tests: a concrete transport, and the theorems at it.
--
-- A handler is a function from a state to a result and a state, and has the name of the source's
-- function in snake case. An error of the origin is `none`. Errors that the source drops are
-- dropped. A header is a map from keys to lists of values; a sequence that the source iterates over
-- is a list. Durations and times are integers of nanoseconds, and the arithmetic of durations wraps
-- around on 64 bits where the source's does.
--
-- The body of a response is the bytes that are still to be read of it. A response that is served
-- while it is revalidated is shared by the client, who reads its body, and the goroutine, which dumps it:
-- World.Moment says what the goroutine finds, which the environment chooses.
--
-- Parameters: the backend, the encoding of entries and references, parsing and formatting of dates,
-- net/url and the keyer of URLs, the normaliser of the values of request fields, the float
-- operations on durations and qualities, the clock's readings, and the origin; for the backend on
-- files AES-GCM, the random source, what the operating system fails, and which contexts end early.
-- Two loops have fuel: printing a number has room for 20 digits, which 64 bits never exceed, and
-- cutting a name into fragments has the length of the name, of which each round takes a part.
--
-- Not modelled: mocks, benchmarks and examples, and how a client reads a body once it has the
-- response. Texts that net/http and net/url treat as Unicode are modelled on ASCII. What a request or a goroutine does before its call of the origin is one step,
-- and so is what it does after it: System/Interleaved lets nothing happen between two operations on
-- the backend within such a step.
pub mod Base
pub mod Bytes
pub mod Dict
pub mod Text
pub mod Http
pub mod Time
pub mod Directives
pub mod Entry
pub mod Freshness
pub mod FsCache
pub mod Origin
pub mod Message
pub mod Cacheability
pub mod Vary
pub mod Store
pub mod Log
pub mod Memcache
pub mod Cache
pub mod Storer
pub mod Invalidator
pub mod Wiring
pub mod World
pub mod Validation
pub mod Transport
pub mod System
pub mod UrlKey
pub mod Registry
pub mod Options
pub mod ExpApi
pub mod Tests
