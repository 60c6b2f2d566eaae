-- ===== src/Origin.antt =====
-- internal/urlutil/urlutil.go and sameOrigin of internal/helpers.go.
use httpcache.Base.{
  Bool, true, false, ◌&&◌, [], ◌∷◌, Option, none, some, ◌==◌, leb, if◌then◌else◌, ℕ, map, ◌+◌,
}
use httpcache.Bytes.{Bytes, codes, str_eq}
use httpcache.Http.{Url}

-- DefaultPort
unfoldable pub default_port : Bytes → Bytes
default_port scheme =
    if str_eq scheme (codes "http")
    then codes "80"
    else if str_eq scheme (codes "https")
    then codes "443"
    else []

abbrev prepend : ℕ → Option (Bytes × Bytes) → Option (Bytes × Bytes)
prepend c none = none
prepend c (some (front, back)) = some (c ∷ front, back)

abbrev or_here : Bool → Bytes → Option (Bytes × Bytes) → Option (Bytes × Bytes)
or_here here s (some split) = some split
or_here true s none = some ([], s)
or_here false s none = none

-- The text before and after the last `c`.
unfoldable pub split_last : ℕ → Bytes → Option (Bytes × Bytes)
split_last c [] = none
split_last c (b ∷ s) = or_here (b == c) s (prepend b (split_last c s))

unfoldable pub all_digits : Bytes → Bool
all_digits [] = true
all_digits (c ∷ s) = leb b'0' c && leb c b'9' && all_digits s

-- validOptionalPort
unfoldable pub valid_optional_port : Bytes → Bool
unfolding all_digits
valid_optional_port [] = true
valid_optional_port (c ∷ s) = c == b':' && all_digits s

-- `host[1 : len(host)-1]` where brackets stand around it
abbrev pub drop_last_bracket : Bytes → Option Bytes
drop_last_bracket [] = none
drop_last_bracket (c ∷ []) = if c == b']' then some [] else none
drop_last_bracket (c ∷ d ∷ s) = elim (drop_last_bracket (d ∷ s)) [
  | none ↦ none
  | some front ↦ some (c ∷ front)
]

unfoldable pub strip_brackets : Bytes → Bytes
strip_brackets [] = []
strip_brackets (c ∷ s) = elim (drop_last_bracket s) [
  | none ↦ c ∷ s
  | some inner ↦ if c == b'[' then inner else c ∷ s
]

abbrev host_and_port : Bytes → Option (Bytes × Bytes) → Bytes × Bytes
host_and_port all none = (all, [])
host_and_port all (some (host, port)) =
    if valid_optional_port (b':' ∷ port) then (host, port) else (all, [])

-- SplitHostPort, and the functions of the same text in net/url behind URL.Port and URL.Hostname
unfoldable pub split_host_port : Bytes → Bytes × Bytes
unfolding split_last valid_optional_port strip_brackets
split_host_port all =
    let (host, port) = host_and_port all (split_last b':' all) in (strip_brackets host, port)

abbrev pub lower : ℕ → ℕ
lower c = if leb b'A' c && leb c b'Z' then c + 32 else c

-- strings.EqualFold and strings.ToLower on ASCII text
unfoldable pub to_lower : Bytes → Bytes
to_lower s = map lower s

unfoldable pub equal_fold : Bytes → Bytes → Bool
unfolding to_lower
equal_fold s t = str_eq (to_lower s) (to_lower t)

abbrev pub or_default : Bytes → Bytes → Bytes
or_default [] scheme = default_port scheme
or_default (c ∷ port) scheme = c ∷ port

unfoldable pub port_of : Url → Bytes
unfolding split_host_port default_port
port_of u = or_default (split_host_port u.host).1 u.scheme

-- sameOrigin
unfoldable pub same_origin : Url → Url → Bool
unfolding port_of equal_fold split_host_port
same_origin a b =
    equal_fold a.scheme b.scheme
    && equal_fold (split_host_port a.host).0 (split_host_port b.host).0
    && str_eq (port_of a) (port_of b)
