-- ===== src/Text/Quoted.antt =====
-- internal/quotedstring.go
pub mod Grammar
use httpcache.Base.{
  ℕ, ◌+◌, Bool, ◌||◌, ◌&&◌, List, [], ◌∷◌, ◌++◌, Option, none, some, ◌==◌, leb, if◌then◌else◌,
}
use httpcache.Bytes.{Bytes}

-- The errors, `invalid_character` with the byte and its position.
pub data Unquoted : Type 0 where
  ok : Bytes → Unquoted
  invalid_quoted_string unfinished_escape : Unquoted
  invalid_character : ℕ → ℕ → Unquoted

unfoldable pub valid_qd_text_byte : ℕ → Bool
valid_qd_text_byte b =
    b == b'\t'
    || b == b' '
    || b == 0x21
    || (leb 0x23 b && leb b 0x5b)
    || (leb 0x5d b && leb b 0x7e)
    || leb 0x80 b

-- The loop, from position `i` of `in`, with what has been written.
unfoldable pub unquote : ℕ → Bytes → Bytes → Unquoted
unfolding valid_qd_text_byte
unquote i [] b = ok b
unquote i (c ∷ []) b =
    if c == b'\\'
    then unfinished_escape
    else if valid_qd_text_byte c
    then ok (b ++ c ∷ [])
    else invalid_character c (i + 1)
unquote i (c ∷ d ∷ rest) b =
    let after_pair = unquote (i + 2) rest (b ++ d ∷ []) in
    let after_byte = unquote (i + 1) (d ∷ rest) (b ++ c ∷ []) in
    if c == b'\\'
    then after_pair
    else if valid_qd_text_byte c
    then after_byte
    else invalid_character c (i + 1)

abbrev prepend : ℕ → Option Bytes → Option Bytes
prepend c none = none
prepend c (some s) = some (c ∷ s)

-- The text before a quote at the end, `none` if another byte stands there.
unfoldable pub drop_last_quote : Bytes → Option Bytes
drop_last_quote [] = none
drop_last_quote (c ∷ []) = if c == b'"' then some [] else none
drop_last_quote (c ∷ d ∷ s) = prepend c (drop_last_quote (d ∷ s))

-- `s[1 : len(s)-1]`, `none` where the guard on the quotes fails.
unfoldable pub between_quotes : Bytes → Option Bytes
unfolding drop_last_quote
between_quotes [] = none
between_quotes (c ∷ s) = if c == b'"' then drop_last_quote s else none

unfoldable pub parse_quoted_string_e : Bytes → Unquoted
unfolding between_quotes unquote
parse_quoted_string_e s = elim (between_quotes s) [
  | none ↦ invalid_quoted_string
  | some inner ↦ unquote 0 inner []
]

-- The text itself if it cannot be parsed.
abbrev or_original : Bytes → Unquoted → Bytes
or_original s (ok b) = b
or_original s invalid_quoted_string = s
or_original s unfinished_escape = s
or_original s (invalid_character c i) = s

unfoldable pub parse_quoted_string : Bytes → Bytes
unfolding parse_quoted_string_e
parse_quoted_string s = or_original s (parse_quoted_string_e s)
