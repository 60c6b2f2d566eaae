-- ===== src/Http.antt =====
-- The parts of net/http that the cache uses: header fields, requests, responses.
pub mod Laws
use Prim.Native.String.{String}
use httpcache.Base.{
  ℕ, ◌+◌, ◌-◌, Bool, true, false, ◌||◌, ◌&&◌, List, [], ◌∷◌, Option, none, some, ◌==◌, leb,
  if◌then◌else◌, map,
}
use httpcache.Bytes.{Bytes, codes, str_eq}
use httpcache.Dict
use httpcache.Dict.{Dict}

is_upper : ℕ → Bool
is_upper c = leb b'A' c && leb c b'Z'

is_lower : ℕ → Bool
is_lower c = leb b'a' c && leb c b'z'

-- The bytes of a token, RFC 9110 §5.6.2.
is_token_byte : ℕ → Bool
unfolding is_upper is_lower
is_token_byte c =
    is_upper c
    || is_lower c
    || (leb b'0' c && leb c b'9')
    || c == b'!'
    || c == b'#'
    || c == b'$'
    || c == b'%'
    || c == b'&'
    || c == 39
    || c == b'*'
    || c == b'+'
    || c == b'-'
    || c == b'.'
    || c == b'^'
    || c == b'_'
    || c == 96
    || c == b'|'
    || c == b'~'

all_token : Bytes → Bool
unfolding is_token_byte
all_token [] = true
all_token (c ∷ s) = is_token_byte c && all_token s

to_upper : ℕ → ℕ
unfolding is_lower
to_upper c = if is_lower c then c - 32 else c

to_lower : ℕ → ℕ
unfolding is_upper
to_lower c = if is_upper c then c + 32 else c

-- Upper case at the start and after a dash, lower case elsewhere.
canonical_from : Bool → Bytes → Bytes
unfolding to_upper to_lower
canonical_from upper [] = []
canonical_from upper (c ∷ s) =
    (if upper then to_upper c else to_lower c) ∷ canonical_from (c == b'-') s

-- http.CanonicalHeaderKey
unfoldable pub canonical_key : Bytes → Bytes
unfolding all_token canonical_from
canonical_key s = if all_token s then canonical_from true s else s

-- http.Header
abbrev pub Header : Type 0
Header = Dict (List Bytes)

abbrev first_value : Option (List Bytes) → Bytes
first_value none = []
first_value (some []) = []
first_value (some (v ∷ _)) = v

abbrev all_values : Option (List Bytes) → List Bytes
all_values none = []
all_values (some vs) = vs

-- Header.Get: the first value, or the empty string.
unfoldable pub get : Bytes → Header → Bytes
get k h = first_value (Dict.get (canonical_key k) h)

-- Header.Values
unfoldable pub values : Bytes → Header → List Bytes
values k h = all_values (Dict.get (canonical_key k) h)

-- `h[k]` with no canonical form, and its first value, or the empty string.
unfoldable pub raw_values : Bytes → Header → List Bytes
raw_values k h = all_values (Dict.get k h)

-- Header.Set
unfoldable pub set : Bytes → Bytes → Header → Header
set k v h = Dict.put (canonical_key k) (v ∷ []) h

-- Header.Del
unfoldable pub del : Bytes → Header → Header
del k h = Dict.remove (canonical_key k) h

-- url.URL
pub record Url : Type 0 where
  pub scheme : Bytes
  pub opaque : Bytes
  pub host : Bytes
  pub path : Bytes
  pub raw_query : Bytes

-- http.Request
pub record Request : Type 0 where
  pub method : Bytes
  pub url : Url
  pub header : Header

-- http.Response, with what is still to be read of its body, and whether the body has been closed
pub record Response : Type 0 where
  pub status_code : ℕ
  pub header : Header
  pub body : Bytes
  pub closed : Bool
