-- ===== src/UrlKey.antt =====
-- pkg/urlkey/urlkey.go: the key of a URL.
pub mod Percent
pub mod Brackets
pub mod Equivalent
use httpcache.Base.{
  ℕ, zero, suc, ◌+◌, ◌-◌, ◌*◌, ◌/◌, ◌%◌, Bool, true, false, not, ◌||◌, ◌&&◌, List, [], ◌∷◌, ◌++◌,
  Option, none, some, ltb, leb, ◌==◌, if◌then◌else◌,
}
use httpcache.Bytes.{Bytes, codes, str_eq}
use httpcache.Http.{Url}
use httpcache.Origin.{default_port, split_host_port, to_lower}

-- isHexDigit
unfoldable pub is_hex_digit : ℕ → Bool
is_hex_digit c =
    (leb b'0' c && leb c b'9') || (leb b'A' c && leb c b'F') || (leb b'a' c && leb c b'f')

-- fromHex
unfoldable pub from_hex : ℕ → ℕ
from_hex c =
    if leb b'0' c && leb c b'9'
    then c - b'0'
    else if leb b'a' c && leb c b'f'
    then c - b'a' + 10
    else if leb b'A' c && leb c b'F'
    then c - b'A' + 10
    else 0

-- isUnreserved on a rune below 0x100; the letters of unicode.IsLetter there are those of Latin-1.
unfoldable pub is_unreserved : ℕ → Bool
is_unreserved r =
    (leb b'A' r && leb r b'Z')
    || (leb b'a' r && leb r b'z')
    || r == 0xaa
    || r == 0xb5
    || r == 0xba
    || (leb 0xc0 r && leb r 0xd6)
    || (leb 0xd8 r && leb r 0xf6)
    || (leb 0xf8 r && leb r 0xff)
    || (leb b'0' r && leb r b'9')
    || r == b'-'
    || r == b'.'
    || r == b'_'
    || r == b'~'

-- A digit of the constant `hex`.
unfoldable pub hex_digit : ℕ → ℕ
hex_digit n = if ltb n 10 then b'0' + n else b'A' + (n - 10)

-- percentEncodeUpper
unfoldable pub percent_encode_upper : ℕ → Bytes
percent_encode_upper b = b'%' ∷ hex_digit (b / 16) ∷ hex_digit (b % 16) ∷ []

-- WriteRune, for a rune below 0x100: its UTF-8 bytes
unfoldable pub rune_bytes : ℕ → Bytes
rune_bytes r = if ltb r 0x80 then r ∷ [] else (0xc0 + r / 64) ∷ (0x80 + r % 64) ∷ []

unfoldable pub rewrite_escape : ℕ → Bytes
rewrite_escape v = if is_unreserved v then rune_bytes v else percent_encode_upper v

-- What is written for a byte with what follows it, and the number of further bytes it stands for.
unfoldable pub percent_chunk : ℕ → Bytes → Bytes × ℕ
percent_chunk c [] = (c ∷ [], 0)
percent_chunk c (d ∷ []) = (c ∷ [], 0)
percent_chunk c (d ∷ e ∷ s) =
    if c == b'%' && is_hex_digit d && is_hex_digit e
    then (rewrite_escape (from_hex d * 16 + from_hex e), 2)
    else (c ∷ [], 0)

-- The loop, with the number of bytes that are still to be passed over.
unfoldable pub percent_run : ℕ → Bytes → Bytes
percent_run k [] = []
percent_run (suc k) (c ∷ s) = percent_run k s
percent_run zero (c ∷ s) = let (written, k) = percent_chunk c s in written ++ percent_run k s

-- normalizePercentEncoding
unfoldable pub normalize_percent_encoding : Bytes → Bytes
normalize_percent_encoding s = percent_run 0 s

module _ (parse : Bytes → Option Url) (resolve_reference : Url → Url → Url)
    (escaped_path : Url → Bytes) where
  abbrev pub port_suffix : Bytes → Bytes → Bytes
  port_suffix [] default = []
  port_suffix (c ∷ port) default = if str_eq (c ∷ port) default then [] else b':' ∷ c ∷ port

  abbrev pub or_root : Bytes → Bytes → Bytes
  or_root scheme [] =
      if str_eq scheme (codes "http") || str_eq scheme (codes "https") then codes "/" else []
  or_root scheme (c ∷ path) = c ∷ path

  abbrev pub query_suffix : Bytes → Bytes
  query_suffix [] = []
  query_suffix (c ∷ query) = b'?' ∷ normalize_percent_encoding (c ∷ query)

  -- The key of a URL that has been resolved; a missing port is the default one, and is left out.
  unfoldable pub normalized_key : Url → Bytes
  normalized_key u =
      let (host, port) = split_host_port u.host in
      u.scheme
      ++ (codes "://"
          ++ (to_lower host
              ++ (port_suffix port (default_port u.scheme)
                  ++ (normalize_percent_encoding (or_root u.scheme (escaped_path u))
                      ++ query_suffix u.raw_query))))

  abbrev pub key_from : Url → Option Url → Option Bytes
  key_from u none = none
  key_from u (some base) = some (normalized_key (resolve_reference base u))

  -- The text of an opaque URL, or else the key that is made.
  abbrev pub opaque_or : Bytes → Option Bytes → Option Bytes
  opaque_or [] key = key
  opaque_or (c ∷ rest) key = some (c ∷ rest)

  -- Normalize; `none` is the panic of a base that cannot be parsed
  unfoldable pub normalize : Url → Option Bytes
  normalize u = opaque_or u.opaque (key_from u (parse (u.scheme ++ (codes "://" ++ u.host))))
