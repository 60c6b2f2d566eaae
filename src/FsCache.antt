-- ===== src/FsCache.antt =====
-- store/fscache/fscache.go: the backend on files. A call's goroutine is one step; where the context
-- ends first, the caller gets an error and the step is taken all the same.
pub mod Namer
pub mod Files
pub mod Encrypt
pub mod Refines
pub mod Clash
pub mod Uncached
pub mod Keys
pub mod Opening
use httpcache.Base.{
  ℕ, suc, Bool, true, false, not, ◌&&◌, map, List, [], ◌∷◌, Option, none, some, if◌then◌else◌, take,
}
use httpcache.Base.Int.{ℤ}
use httpcache.Bytes.{Bytes}
use httpcache.Dict
use httpcache.FsCache.Encrypt.{Aead, encrypt, decrypt}
use httpcache.FsCache.Namer.{fragment_file_name, fragmented_file_name_to_key}
use httpcache.FsCache.Files.{Tree, parents, read_file, mkdir_all, create, remove}
use httpcache.Store.{Got, found, not_exist, failed, Done, done, missing, broken, Conn}
use httpcache.Text.{has_prefix}
use httpcache.Time.{Duration}

-- fsCache: its configurable options, where `none` is no encryption.
pub record FsCache : Type 0 where
  pub base : Bytes
  pub conn_timeout : Duration
  pub timeout : Duration
  pub enc : Option Aead
  pub update_mtime : Bool

-- The tree below the root, and the readings made of the source of random bytes.
pub record Disk : Type 0 where
  pub tree : Tree
  pub nonces : ℕ

-- Calls of the operating system that can fail without a reason in the tree.
pub data Call : Type 0 where
  opening touching making creating syncing removing walking : Call

-- The methods of the cache.
pub data Method : Type 0 where
  getting setting deleting listing : Method

-- What the system does: which call on a name fails, how many bytes a write leaves when it fails,
-- the bytes that a reading of the random source gives, whether the context of a call ends before its
-- goroutine, and the order in which filepath.WalkDir comes to the files.
pub record Os : Type 0 where
  pub fails : Call → Bytes → Tree → Bool
  pub torn : Bytes → Bytes → Option ℕ
  pub random : ℕ → ℕ → Option Bytes
  pub late : Method → Bytes → Disk → Bool
  pub walk : List Bytes → List Bytes

abbrev or_failed : Option Bytes → Got
or_failed none = failed
or_failed (some bytes) = found bytes

-- `c.enc.Decrypt`, if there is an encryptor.
abbrev pub decrypted : Option Aead → Got → Got
decrypted none got = got
decrypted (some gcm) not_exist = not_exist
decrypted (some gcm) failed = failed
decrypted (some gcm) (found bytes) = or_failed (decrypt gcm bytes)

-- The error of Chtimes, after what was read.
abbrev pub touched : Bool → Got → Got
touched fails not_exist = not_exist
touched fails failed = failed
touched fails (found bytes) = if fails then failed else found bytes

-- The write, which may end early, and the error of Write and Sync.
abbrev written : Bytes → Bytes → Option ℕ → Bool → Tree → Done × Tree
written name entry (some n) sync_fails t =
    (broken, record t { files = Dict.put name (take n entry) t.files })
written name entry none sync_fails t =
    (if sync_fails then broken else done, record t { files = Dict.put name entry t.files })

abbrev listed : Bytes → Option Bytes → Option (List Bytes) → Option (List Bytes)
listed prefix none rest = none
listed prefix (some key) none = none
listed prefix (some key) (some keys) = some (if has_prefix prefix key then key ∷ keys else keys)

-- The callback of WalkDir on each file.
unfoldable pub keys_of : Bytes → List Bytes → Option (List Bytes)
keys_of prefix [] = some []
keys_of prefix (name ∷ names) =
    listed prefix (fragmented_file_name_to_key name) (keys_of prefix names)

module _ (os : Os) where
  unfoldable pub write_created : Bytes → Bytes → Option Tree → Tree → Done × Tree
  write_created name entry none t = (broken, t)
  write_created name entry (some t') t =
      written name entry (os.torn name entry) (os.fails syncing name t') t'

  -- The part of set after the encryption.
  unfoldable pub write_file : Bytes → Bytes → Tree → Done × Tree
  write_file name entry t =
      let (made, t') = mkdir_all (parents name) t in
      if os.fails making name t
      then (broken, t)
      else if not made
      then (broken, t')
      else if os.fails creating name t'
      then (broken, t')
      else write_created name entry (create name t') t'

  unfoldable pub write_sealed : Bytes → Option Bytes → Disk → Done × Disk
  write_sealed key none d = (broken, d)
  write_sealed key (some entry) d =
      let (error, t) = write_file (fragment_file_name key) entry d.tree in
      (error, record d { tree = t })

  -- `c.enc.Encrypt`, if there is an encryptor; a nonce is read for it.
  abbrev pub encrypted : Option Aead → Bytes → Disk → Option Bytes × Disk
  encrypted none entry d = (some entry, d)
  encrypted (some gcm) entry d =
      (encrypt gcm (os.random d.nonces gcm.nonce_size) entry, record d { nonces = suc d.nonces })

  module _ (c : FsCache) where
    -- get
    unfoldable pub get : Bytes → Disk → Got
    get key d =
        let name = fragment_file_name key in
        if os.fails opening name d.tree
        then failed
        else touched (c.update_mtime && os.fails touching name d.tree)
            (decrypted c.enc (read_file name d.tree))

    -- set
    unfoldable pub set : Bytes → Bytes → Disk → Done × Disk
    set key entry d = let (sealed, d') = encrypted c.enc entry d in write_sealed key sealed d'

    -- delete
    unfoldable pub delete : Bytes → Disk → Done × Disk
    delete key d =
        let name = fragment_file_name key in
        let (error, t) = remove name d.tree in
        if os.fails removing name d.tree then (broken, d) else (error, record d { tree = t })

    -- keys: the keys of all files, in the order of the walk; a name that is not encoded ends it.
    unfoldable pub keys : Bytes → Disk → Option (List Bytes)
    keys prefix d =
        if os.fails walking [] d.tree
        then none
        else keys_of prefix (os.walk (map (λ f. f.0) d.tree.files))

    -- Get
    unfoldable pub get_in_time : Bytes → Disk → Got
    get_in_time key d = if os.late getting key d then failed else get key d

    -- Set
    unfoldable pub set_in_time : Bytes → Bytes → Disk → Done × Disk
    set_in_time key entry d =
        let (error, d') = set key entry d in (if os.late setting key d then broken else error, d')

    -- Delete
    unfoldable pub delete_in_time : Bytes → Disk → Done × Disk
    delete_in_time key d =
        let (error, d') = delete key d in (if os.late deleting key d then broken else error, d')

    -- Keys
    unfoldable pub keys_in_time : Bytes → Disk → Option (List Bytes)
    keys_in_time prefix d = if os.late listing prefix d then none else keys prefix d

    abbrev pub conn : Conn Disk
    conn = record { get = get_in_time; set = set_in_time; delete = delete_in_time }
