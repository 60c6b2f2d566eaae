-- ===== src/Vary/Normalize/Fields.antt =====
-- internal/normalization.go: which form the values of a field get.
use httpcache.Base.{List, [], ◌∷◌, ◌++◌, Option, none, some, if◌then◌else◌}
use httpcache.Bytes.{Bytes, codes, str_eq}
use httpcache.Message.{contains}
use httpcache.Origin.{to_lower}
use httpcache.Text.{cut, trim_space}
use httpcache.Vary.Normalize.{normalize_order_insensitive, normalize_encoding_header}
use httpcache.Vary.Normalize.Quality.{Quality, normalize_q_values}

-- The sets of initNormalizationHeader; Content-Encoding stands apart below.
abbrev by_encoding : List Bytes
by_encoding = codes "Content-Encoding" ∷ codes "Accept-Encoding" ∷ codes "TE" ∷ []

abbrev by_q_value : List Bytes
by_q_value = codes "Accept" ∷ codes "Accept-Charset" ∷ codes "Accept-Language" ∷ []

abbrev pub by_order_insensitive : List Bytes
by_order_insensitive =
    codes "Cache-Control"
    ∷ codes "Connection"
    ∷ codes "Content-Language"
    ∷ codes "Expect"
    ∷ codes "Pragma"
    ∷ codes "Upgrade"
    ∷ codes "Vary"
    ∷ codes "Via"
    ∷ []

abbrev by_case_insensitive : List Bytes
by_case_insensitive =
    codes "Content-Type"
    ∷ codes "Content-Disposition"
    ∷ codes "Host"
    ∷ codes "Referer"
    ∷ codes "User-Agent"
    ∷ codes "Server"
    ∷ codes "Origin"
    ∷ []

abbrev by_time_insensitive : List Bytes
by_time_insensitive = codes "If-Modified-Since" ∷ codes "If-Unmodified-Since" ∷ codes "Date" ∷ []

module _ {Q : Type 0} (f : Quality Q) where
  abbrev authorization : Bytes → Option (Bytes × Bytes) → Bytes
  authorization value none = value
  authorization value (some (scheme, credentials)) = to_lower scheme ++ (b' ' ∷ credentials)

  -- normalizeHeaderValue
  unfoldable pub normalize_header_value : Bytes → Bytes → Bytes
  normalize_header_value field [] = []
  normalize_header_value field (c ∷ s) =
      let value = c ∷ s in
      if str_eq field (codes "Content-Encoding")
      then normalize_encoding_header value
      else if contains by_encoding field
      then normalize_q_values f (normalize_encoding_header value)
      else if contains by_q_value field
      then normalize_q_values f value
      else if contains by_order_insensitive field
      then normalize_order_insensitive value
      else if contains by_case_insensitive field
      then to_lower value
      else if contains by_time_insensitive field
      then trim_space value
      else if str_eq field (codes "Authorization")
      then authorization value (cut b' ' value)
      else value
