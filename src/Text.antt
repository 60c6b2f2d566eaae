-- ===== src/Text.antt =====
-- The functions of Go's packages strings and net/textproto that the cache calls.
pub mod Trim
pub mod Csv
pub mod Decimal
pub mod Quoted
pub mod Base64
use httpcache.Base.{
  ℕ, suc, Bool, true, false, ◌||◌, ◌&&◌, List, [], ◌∷◌, ◌++◌, Option, none, some, ◌==◌,
  if◌then◌else◌,
}
use httpcache.Bytes.{Bytes}

-- The white space of textproto.TrimString.
unfoldable pub is_ascii_space : ℕ → Bool
is_ascii_space c = c == b' ' || c == b'\t' || c == b'\n' || c == b'\r'

-- The white space below 0x80 of strings.TrimSpace and bytes.TrimSpace.
unfoldable pub is_space : ℕ → Bool
is_space c = c == b' ' || c == b'\t' || c == b'\n' || c == b'\r' || c == 11 || c == 12

module _ (space : ℕ → Bool) where
  unfoldable pub trim_left : Bytes → Bytes
  trim_left [] = []
  trim_left (c ∷ s) = let rest = trim_left s in if space c then rest else c ∷ s

  -- `c` before the trimmed rest of a text.
  unfoldable pub trim_last : ℕ → Bytes → Bytes
  trim_last c [] = if space c then [] else c ∷ []
  trim_last c (d ∷ s) = c ∷ d ∷ s

  unfoldable pub trim_right : Bytes → Bytes
  unfolding trim_last
  trim_right [] = []
  trim_right (c ∷ s) = trim_last c (trim_right s)

  unfoldable pub trim : Bytes → Bytes
  unfolding trim_left trim_right
  trim s = trim_right (trim_left s)

-- textproto.TrimString
unfoldable pub trim_string : Bytes → Bytes
unfolding trim is_ascii_space
trim_string s = trim is_ascii_space s

-- strings.TrimSpace
unfoldable pub trim_space : Bytes → Bytes
unfolding trim is_space
trim_space s = trim is_space s

abbrev prepend : ℕ → Option (Bytes × Bytes) → Option (Bytes × Bytes)
prepend c none = none
prepend c (some (before, after)) = some (c ∷ before, after)

-- strings.Cut at the first `sep`; `none` if there is none.
unfoldable pub cut : ℕ → Bytes → Option (Bytes × Bytes)
cut sep [] = none
cut sep (c ∷ s) = if c == sep then some ([], s) else prepend c (cut sep s)

-- strings.Join
unfoldable pub join : Bytes → List Bytes → Bytes
join sep [] = []
join sep (s ∷ []) = s
join sep (s ∷ t ∷ rest) = s ++ (sep ++ join sep (t ∷ rest))

-- strings.HasPrefix, the prefix first.
unfoldable pub has_prefix : Bytes → Bytes → Bool
has_prefix [] s = true
has_prefix (c ∷ p) [] = false
has_prefix (c ∷ p) (d ∷ s) = c == d && has_prefix p s

-- strings.Split with one character, which is not left out.
abbrev pub extend_first : ℕ → List Bytes → List Bytes
extend_first c [] = (c ∷ []) ∷ []
extend_first c (s ∷ ss) = (c ∷ s) ∷ ss

unfoldable pub split : ℕ → Bytes → List Bytes
split sep [] = [] ∷ []
split sep (c ∷ s) = let rest = split sep s in if c == sep then [] ∷ rest else extend_first c rest

-- strings.Count of one character
unfoldable pub count : ℕ → Bytes → ℕ
count c [] = 0
count c (d ∷ s) = let rest = count c s in if c == d then suc rest else rest
