-- ===== src/Tests/Disk.antt =====
-- The backend on files, on a system that fails no call.
use httpcache.Base.{
  ℕ, zero, suc, ◌<◌, ◌≡◌, ◌≢◌, ◌⊎◌, refl, sym, ◌∙◌, true, false, List, [], ◌∷◌, ◌++◌, ◌||◌,
  if◌then◌else◌, Option, none, some, length, arith, All,
}
use httpcache.Base.Int.{pos, ◌<ℤ◌}
use httpcache.Bytes.{Bytes, codes, str_eq, str_eq_iff}
use httpcache.Dict.{is_some}
use httpcache.FsCache.{FsCache, Disk, Os, conn, set, keys_in_time}
use httpcache.Cache
use httpcache.FsCache.Uncached.{store_response-clash}
use httpcache.Message.{remove_hop_by_hop_headers}
use httpcache.Storer.{new_entry, store_response}
use httpcache.Tests.{codec, dates, get_request, answer}
use httpcache.FsCache.Encrypt.{Aead, IsAead}
use httpcache.FsCache.Files.{Tree, mem}
use httpcache.FsCache.Files.Laws.{IsApart, can_hold}
use httpcache.FsCache.Keys.{names, AllNamed, Lists, keys_in_time_lem}
use httpcache.FsCache.Namer.{fragment_file_name, fragmented_file_name_to_key}
use httpcache.FsCache.Namer.Limits.{IsNameable, fragment_file_name-IsNameable}
use httpcache.Text.{split}
use httpcache.FsCache.Namer.RoundTrip.{file_name_to_key-file_name}
use httpcache.FsCache.Opening.{Host, Dsn, opened, from_url, wants_encryption, default_timeout}
use httpcache.FsCache.Opening.Encrypted.{from_url-enc}
use httpcache.FsCache.Refines.{IsQuiet, conn-IsConnAt}
use httpcache.Store.{IsConnAt, done, broken}
use httpcache.Text.Base64.RoundTrip.{IsByte}

abbrev repeat : ℕ → ℕ → Bytes
repeat zero c = []
repeat (suc n) c = c ∷ repeat n c

length-repeat : (n c : ℕ) → length (repeat n c) ≡ n
length-repeat zero c = refl
length-repeat (suc n) c = omega (arith, length-repeat n c)

repeat-IsByte : (n c : ℕ) → c < 256 → All IsByte (repeat n c)
repeat-IsByte zero c h = tt
repeat-IsByte (suc n) c h = (h, repeat-IsByte n c h)

-- The shortest key whose name lies above those of longer keys.
abbrev long_key : Bytes
long_key = repeat 216 b'a'

file_name_to_key-file_name_example :
    fragmented_file_name_to_key (fragment_file_name long_key) ≡ some long_key
file_name_to_key-file_name_example =
    file_name_to_key-file_name long_key (repeat-IsByte 216 b'a' (omega arith))

abbrev without_first : Bytes → Option Bytes
without_first [] = none
without_first (c ∷ s) = some s

abbrev toy : Aead
toy = record { nonce_size = 2; seal = λ _ m. 7 ∷ m; unseal = λ _ s. without_first s }

abbrev cache : FsCache
cache = record {
  base = codes "/tmp";
  conn_timeout = pos 0;
  timeout = default_timeout;
  enc = some toy;
  update_mtime = true;
}

toy-IsAead : IsAead toy
toy-IsAead = record { unseal-seal = λ _ m _. refl }

abbrev os : Os
os = record {
  fails = λ _ _ _. false;
  torn = λ _ _. none;
  random = λ _ n. some (repeat n 5);
  late = λ _ _ _. false;
  walk = λ ns. ns;
}

os-IsQuiet : IsQuiet os
os-IsQuiet = record {
  no_fault = λ _ _ _. refl;
  whole = λ _ _. refl;
  nonce = λ _ n. (repeat n 5, (refl, length-repeat n 5));
  in_time = λ _ _ _. refl;
}

-- A file under the key `a`.
abbrev disk : Disk
disk = record { tree = record { files = (codes "YQ", codes "old") ∷ []; dirs = [] }; nonces = 0 }

fragment_file_name-IsApart :
    IsApart (fragment_file_name (codes "a")) (fragment_file_name (codes "b"))
unfolding fragment_file_name mem httpcache.FsCache.Files.parents httpcache.Text.Base64.encode
    httpcache.Text.Base64.symbol
fragment_file_name-IsApart = (refl, refl)

a_can_be_held : can_hold (fragment_file_name (codes "a")) disk.tree ≡ true
unfolding can_hold fragment_file_name httpcache.Text.Base64.encode httpcache.FsCache.Files.blocked
    httpcache.FsCache.Files.parents httpcache.Text.Base64.symbol mem
a_can_be_held = refl

conn-IsConnAt_example : IsConnAt (conn os cache) (codes "a") (codes "b") (codes "v") disk
conn-IsConnAt_example =
    conn-IsConnAt os os-IsQuiet cache (codes "a") (codes "b") (codes "v") disk toy-IsAead
      (repeat-IsByte 1 b'a' (omega arith)) (repeat-IsByte 1 b'b' (omega arith))
      fragment_file_name-IsApart a_can_be_held

a_is_named : fragment_file_name (codes "a") ≡ codes "YQ"
unfolding fragment_file_name httpcache.Text.Base64.encode httpcache.Text.Base64.symbol
a_is_named = refl

disk-AllNamed : AllNamed (names disk.tree)
unfolding mem
disk-AllNamed n h =
    let same = str_eq_iff n (codes "YQ") in
    let e : n ≡ codes "YQ" = ground arith in
    (codes "a", (repeat-IsByte 1 b'a' (omega arith), e ∙ sym a_is_named))

keys_in_time_lem_example :
    (ks : List Bytes) × ((keys_in_time os cache (codes "a") disk ≡ some ks)
      × Lists (codes "a") (names disk.tree) ks)
keys_in_time_lem_example =
    keys_in_time_lem os cache (codes "a") disk os-IsQuiet (λ _ _. refl) disk-AllNamed

abbrev host : Host
host = record {
  user_cache_dir = some (codes "/home");
  encrypt_key = codes "AA==";
  join_dir = λ base appname. base ++ (codes "/" ++ appname);
  mkdir_all = λ _. true;
  open_root = λ _. true;
  new_gcm = λ _. some toy;
  parse_duration = λ _. none;
  late = λ _. false;
}

-- The parameters of a query.
abbrev value_of : Bytes → Bytes
value_of name =
    if str_eq name (codes "appname")
      || str_eq name (codes "encrypt")
      || str_eq name (codes "update_mtime")
    then codes "on"
    else []

abbrev dsn : Dsn
dsn = record { path = codes "/"; query = value_of }

abbrev host_cache : FsCache
host_cache = record cache { base = codes "/home/on"; update_mtime = true }

dsn_opens : from_url host dsn ≡ opened host_cache
unfolding from_url str_eq httpcache.FsCache.Opening.open_cache httpcache.FsCache.Opening.apply_all
    httpcache.FsCache.Opening.settings_of wants_encryption httpcache.FsCache.Opening.apply
    httpcache.FsCache.Encrypt.new_aesgcm_encryptor httpcache.Text.Base64.decode_padded
    httpcache.Text.Base64.decode_groups httpcache.Text.Base64.strip_lines
    httpcache.Text.Base64.padded httpcache.Text.Base64.two httpcache.Text.Base64.sextet
    httpcache.FsCache.Opening.initialize
dsn_opens = refl

from_url-enc_example :
    (is_some host_cache.enc ≡ wants_encryption dsn) × (pos 0 <ℤ host_cache.timeout)
from_url-enc_example = from_url-enc host dsn host_cache dsn_opens

store_response-clash_example :
    let entry =
      (new_entry
        (conn os cache)
        codec
        dates
        (λ _ v. v)
        get_request
        (remove_hop_by_hop_headers answer)
        long_key
        (pos 0)
        (pos 1)).0 in
    ((Cache.set (conn os cache) codec entry.id entry disk).0 ≢ done)
    ⊎ ((store_response
          (conn os cache)
          codec
          dates
          (λ _ v. v)
          get_request
          answer
          long_key
          []
          (pos 0)
          (pos 1)
          none
          disk).error
        ≡ broken)
store_response-clash_example =
    store_response-clash os cache codec dates (λ _ v. v) get_request answer 6 long_key [] (pos 0)
      (pos 1) none disk (length-repeat 216 b'a') (omega arith)

fragment_file_name-IsNameable_example : All IsNameable (split b'/' (fragment_file_name long_key))
fragment_file_name-IsNameable_example =
    fragment_file_name-IsNameable long_key (repeat-IsByte 216 b'a' (omega arith)) (omega arith)
