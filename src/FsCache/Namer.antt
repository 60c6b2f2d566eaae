-- ===== src/FsCache/Namer.antt =====
-- store/fscache/filenamer.go: file names of keys. The separator of paths is `/`.
pub mod RoundTrip
pub mod Clash
pub mod Limits
use httpcache.Base.{
  ℕ, zero, suc, Bool, true, false, ◌||◌, List, [], ◌∷◌, Option, ◌==◌, leb, if◌then◌else◌, length,
  take, drop,
}
use httpcache.Bytes.{Bytes}
use httpcache.Text.{join}
use httpcache.Text.Base64

-- fragmentSize
abbrev pub fragment_size : ℕ
fragment_size = 48

-- The loop of fragmentFileName; every round takes at least one byte, so the length of the text is
-- fuel enough.
unfoldable pub fragments : ℕ → Bytes → List Bytes
fragments fuel [] = []
fragments zero (c ∷ s) = []
fragments (suc fuel) (c ∷ s) =
    take fragment_size (c ∷ s) ∷ fragments fuel (drop fragment_size (c ∷ s))

-- filepath.Join of texts that are not empty and have neither dots nor separators, which is as it is
-- called: there is nothing to clean.
abbrev pub join_path : List Bytes → Bytes
join_path parts = join (b'/' ∷ []) parts

-- fragmentFileName
unfoldable pub fragment_file_name : Bytes → Bytes
fragment_file_name key =
    let encoded = Base64.encode key in
    if leb (length encoded) 255 then encoded else join_path (fragments (length encoded) encoded)

-- strings.ContainsRune
unfoldable pub has_separator : Bytes → Bool
has_separator [] = false
has_separator (c ∷ s) = c == b'/' || has_separator s

-- filepathSeparatorReplacer
unfoldable pub remove_separators : Bytes → Bytes
remove_separators [] = []
remove_separators (c ∷ s) = let rest = remove_separators s in if c == b'/' then rest else c ∷ rest

-- fragmentedFileNameToKey
unfoldable pub fragmented_file_name_to_key : Bytes → Option Bytes
fragmented_file_name_to_key name =
    if has_separator name then Base64.decode (remove_separators name) else Base64.decode name
