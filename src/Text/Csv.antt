-- ===== src/Text/Csv.antt =====
-- TrimmedCSV of internal/helpers.go: a sequence that is yielded is a list.
pub mod Parts
use httpcache.Base.{
  ℕ, Bool, true, false, not, ◌&&◌, List, [], ◌∷◌, ◌++◌, ◌==◌, ltb, length, if◌then◌else◌,
}
use httpcache.Bytes.{Bytes}
use httpcache.Text.{trim_string}

-- The variables of the loop, and what has been yielded.
pub record Scan : Type 0 where
  pub part : Bytes
  pub in_quotes : Bool
  pub escape : Bool
  pub yielded : List Bytes

-- `if len(p) > 0 { yield(p) }`
abbrev pub emit : List Bytes → Bytes → List Bytes
emit out [] = out
emit out (c ∷ p) = out ++ (c ∷ p) ∷ []

unfoldable pub csv_step : Scan → ℕ → Scan
csv_step s c =
    if s.escape
    then record s { part = s.part ++ c ∷ []; escape = false }
    else if c == b'\\'
    then record s { part = s.part ++ c ∷ []; escape = true }
    else if c == b'"'
    then record s { part = s.part ++ c ∷ []; in_quotes = not s.in_quotes }
    else if c == b',' && not s.in_quotes
    then record s { part = []; yielded = emit s.yielded (trim_string s.part) }
    else record s { part = s.part ++ c ∷ [] }

unfoldable pub csv_run : Scan → Bytes → Scan
unfolding csv_step
csv_run s [] = s
csv_run s (c ∷ rest) = csv_run (csv_step s c) rest

unfoldable pub csv_finish : Scan → List Bytes
csv_finish s = if ltb 0 (length s.part) then emit s.yielded (trim_string s.part) else s.yielded

unfoldable pub trimmed_csv : Bytes → List Bytes
unfolding csv_run csv_finish trim_string
trimmed_csv text =
    csv_finish
      (csv_run (record { part = []; in_quotes = false; escape = false; yielded = [] }) text)
