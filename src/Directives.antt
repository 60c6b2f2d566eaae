-- ===== src/Directives.antt =====
-- internal/ccdirectives.go: the directives of Cache-Control header fields.
pub mod Seconds
use httpcache.Base.{
  ℕ, Bool, true, false, List, [], ◌∷◌, ◌++◌, Option, none, some, ◌==◌, if◌then◌else◌, length,
}
use httpcache.Base.Int.{ℤ, mul64}
use httpcache.Bytes.{Bytes, codes}
use httpcache.Dict
use httpcache.Dict.{Dict}
use httpcache.Http
use httpcache.Http.{Header}
use httpcache.Text.{trim_string, cut}
use httpcache.Text.Csv.{trimmed_csv}
use httpcache.Text.Decimal.{Parsed, NumError, parse_int}
use httpcache.Text.Quoted.{parse_quoted_string}
use httpcache.Time.{Duration, second}

-- CCRequestDirectives and CCResponseDirectives; a nil map reads as the empty one
abbrev pub Directives : Type 0
Directives = Dict Bytes

abbrev in_seconds : Parsed → Option Duration
in_seconds p = elim p.error [ none ↦ some (mul64 p.value second) | some e ↦ none ]

-- RawDeltaSeconds.Value; the product is computed in `int64`
unfoldable pub raw_delta_seconds : Bytes → Option Duration
unfolding mul64 parse_int
raw_delta_seconds [] = none
raw_delta_seconds (c ∷ s) = if c == b'-' then none else in_seconds (parse_int (c ∷ s))

-- RawCSV.Value
unfoldable pub raw_csv : Bytes → Option (List Bytes)
raw_csv [] = none
raw_csv (c ∷ s) = some (trimmed_csv (c ∷ s))

-- The key and the value of one part.
unfoldable pub directive : Bytes → Bytes × Bytes
unfolding cut trim_string
directive part = elim (cut b'=' part) [
  | none ↦ (trim_string part, [])
  | some (key, value) ↦ (key, trim_string value)
]

-- A part with an empty key is skipped.
abbrev pub add_directive : Bytes × Bytes → List (Bytes × Bytes) → List (Bytes × Bytes)
add_directive ([], value) rest = rest
add_directive (c ∷ key, value) rest = (c ∷ key, value) ∷ rest

unfoldable pub directives_of : List Bytes → List (Bytes × Bytes)
unfolding directive
directives_of [] = []
directives_of (part ∷ parts) = add_directive (directive part) (directives_of parts)

unfoldable pub directives : Bytes → List (Bytes × Bytes)
unfolding directives_of trimmed_csv
directives s = directives_of (trimmed_csv s)

-- maps.Collect: a later pair replaces an earlier one
unfoldable pub collect : List (Bytes × Bytes) → Dict Bytes → Dict Bytes
unfolding Dict.put
collect [] d = d
collect ((k, v) ∷ pairs) d = collect pairs (Dict.put k v d)

unfoldable pub parse_directives : Bytes → Directives
unfolding directives collect
parse_directives s = collect (directives s) []

-- ParseCCRequestDirectives and ParseCCResponseDirectives
abbrev unless_empty : Bytes → Directives
unless_empty [] = []
unless_empty (c ∷ s) = parse_directives (c ∷ s)

unfoldable pub parse_cc_directives : Header → Directives
parse_cc_directives header = unless_empty (Http.get (codes "Cache-Control") header)

unfoldable pub get_duration_directive : Directives → Bytes → Option Duration
unfolding Dict.get raw_delta_seconds
get_duration_directive d token = elim (Dict.get token d) [
  | none ↦ none
  | some v ↦ raw_delta_seconds v
]

unfoldable pub has_token : Directives → Bytes → Bool
unfolding Dict.has Dict.get
has_token d token = Dict.has token d

-- Directives with a duration.
unfoldable pub max_age : Directives → Option Duration
unfolding get_duration_directive
max_age d = get_duration_directive d (codes "max-age")

unfoldable pub min_fresh : Directives → Option Duration
unfolding get_duration_directive
min_fresh d = get_duration_directive d (codes "min-fresh")

unfoldable pub stale_if_error : Directives → Option Duration
unfolding get_duration_directive
stale_if_error d = get_duration_directive d (codes "stale-if-error")

unfoldable pub stale_while_revalidate : Directives → Option Duration
unfolding get_duration_directive
stale_while_revalidate d = get_duration_directive d (codes "stale-while-revalidate")

-- The raw argument of `max-stale`.
unfoldable pub max_stale : Directives → Option Bytes
unfolding Dict.get
max_stale d = Dict.get (codes "max-stale") d

-- Directives that are present or absent.
unfoldable pub request_no_cache : Directives → Bool
unfolding has_token
request_no_cache d = has_token d (codes "no-cache")

unfoldable pub no_store : Directives → Bool
unfolding has_token
no_store d = has_token d (codes "no-store")

unfoldable pub only_if_cached : Directives → Bool
unfolding has_token
only_if_cached d = has_token d (codes "only-if-cached")

unfoldable pub max_age_present : Directives → Bool
unfolding has_token
max_age_present d = has_token d (codes "max-age")

unfoldable pub must_revalidate : Directives → Bool
unfolding has_token
must_revalidate d = has_token d (codes "must-revalidate")

unfoldable pub must_understand : Directives → Bool
unfolding has_token
must_understand d = has_token d (codes "must-understand")

unfoldable pub public : Directives → Bool
unfolding has_token
public d = has_token d (codes "public")

unfoldable pub immutable : Directives → Bool
unfolding has_token
immutable d = has_token d (codes "immutable")

-- CCResponseDirectives.NoCache: the field names, where the directive is present
unfoldable pub response_no_cache : Directives → Option Bytes
unfolding Dict.get parse_quoted_string
response_no_cache d = elim (Dict.get (codes "no-cache") d) [
  | none ↦ none
  | some v ↦ some (parse_quoted_string v)
]
