-- ===== src/FsCache/Opening.antt =====
-- store/fscache/fscache.go: options, fromURL, Open and initialize.
pub mod Encrypted
use httpcache.Base.{
  ℕ, ◌≡◌, refl, sym, ap, ◌∙◌, Bool, true, false, ◌||◌, not, List, [], ◌∷◌, ◌++◌, Option, none, some,
  if◌then◌else◌, arith, ◌==◌, Bool-cases, inl, inr,
}
use httpcache.Base.Int.{ℤ, pos, negsuc, max_ℤ, ◌<ℤ◌}
use httpcache.Bytes.{Bytes, codes, str_eq}
use httpcache.Dict.{is_some}
use httpcache.FsCache.{FsCache}
use httpcache.FsCache.Encrypt.{Aead, new_aesgcm_encryptor}
use httpcache.Time.{Duration}

-- WithConnectTimeout, WithTimeout, WithEncryption, WithBaseDir, WithUpdateMTime
pub data Setting : Type 0 where
  with_connect_timeout with_timeout : Duration → Setting
  with_encryption with_base_dir : Bytes → Setting
  with_update_mtime : Bool → Setting

pub data OpenError : Type 0 where
  missing_app_name encryption_without_key bad_key user_cache_dir_unknown not_created not_opened
        deadline_exceeded :
      OpenError

pub data Result : Type 0 where
  opened : FsCache → Result
  refused : OpenError → Result

-- What opening calls outside the repository: os.UserCacheDir, os.Getenv for the key, filepath.Join,
-- os.MkdirAll, os.OpenRoot, aes.NewCipher with cipher.NewGCM, time.ParseDuration, and whether the
-- context ends first.
pub record Host : Type 0 where
  pub user_cache_dir : Option Bytes
  pub encrypt_key : Bytes
  pub join_dir : Bytes → Bytes → Bytes
  pub mkdir_all : Bytes → Bool
  pub open_root : Bytes → Bool
  pub new_gcm : Bytes → Option Aead
  pub parse_duration : Bytes → Option Duration
  pub late : Duration → Bool

-- The path of a DSN, and `u.Query().Get`.
pub record Dsn : Type 0 where
  pub path : Bytes
  pub query : Bytes → Bytes

-- defaultTimeout
abbrev pub default_timeout : Duration
default_timeout = pos 300_000_000_000

-- `cmp.Or(d, defaultTimeout)`
abbrev or_default : Duration → Duration
or_default (pos n) = if n == 0 then default_timeout else pos n
or_default (negsuc n) = negsuc n

abbrev is_empty : Bytes → Bool
is_empty [] = true
is_empty (c ∷ s) = false

-- `cmp.Or` on strings
abbrev or_else : Bytes → Bytes → Bytes
or_else [] t = t
or_else (c ∷ s) t = c ∷ s

abbrev after_result : Result → (FsCache → Result) → Result
after_result (refused e) f = refused e
after_result (opened c) f = f c

-- `new(fsCache)`
abbrev blank : FsCache
blank = record {
  base = [];
  conn_timeout = pos 0;
  timeout = pos 0;
  enc = none;
  update_mtime = false;
}

abbrev pub when : Bool → Setting → List Setting
when true o = o ∷ []
when false o = []

-- `encrypt == "on" || encrypt == "aesgcm"`
unfoldable pub wants_encryption : Dsn → Bool
wants_encryption u =
    let encrypt = u.query (codes "encrypt") in
    str_eq encrypt (codes "on") || str_eq encrypt (codes "aesgcm")

module _ (host : Host) where
  abbrev positive : Option Duration → Duration
  positive none = pos 0
  positive (some d) = max_ℤ d (pos 0)

  -- parseTimeout
  unfoldable pub parse_timeout : Bytes → Duration
  parse_timeout [] = pos 0
  parse_timeout (c ∷ s) = positive (host.parse_duration (c ∷ s))

  abbrev encrypted_by : FsCache → Option Aead → Result
  encrypted_by c none = refused bad_key
  encrypted_by c (some gcm) = opened (record c { enc = some gcm })

  -- Option.apply
  unfoldable pub apply : Setting → FsCache → Result
  apply (with_connect_timeout d) c = opened (record c { conn_timeout = max_ℤ d (pos 0) })
  apply (with_timeout d) c = opened (record c { timeout = max_ℤ d (pos 0) })
  apply (with_encryption []) c = refused encryption_without_key
  apply (with_encryption (k ∷ key)) c = encrypted_by c (new_aesgcm_encryptor host.new_gcm (k ∷ key))
  apply (with_base_dir []) c = opened c
  apply (with_base_dir (b ∷ base)) c = opened (record c { base = b ∷ base })
  apply (with_update_mtime enabled) c = opened (record c { update_mtime = enabled })

  unfoldable pub apply_all : List Setting → FsCache → Result
  apply_all [] c = opened c
  apply_all (o ∷ os) c = after_result (apply o c) (λ c'. apply_all os c')

  -- The directory that the application's one is made in.
  abbrev base_dir : Bytes → Option Bytes → Option Bytes
  base_dir [] dir = dir
  base_dir (b ∷ base) dir = some (b ∷ base)

  abbrev in_base : Bytes → FsCache → Option Bytes → Result
  in_base appname c none = refused user_cache_dir_unknown
  in_base appname c (some base) =
      let dir = host.join_dir base appname in
      if is_empty appname
      then refused missing_app_name
      else if not (host.mkdir_all dir)
      then refused not_created
      else if not (host.open_root dir)
      then refused not_opened
      else opened (record c { base = dir; timeout = or_default c.timeout })

  -- initialize
  unfoldable pub initialize : Bytes → FsCache → Result
  initialize appname c = in_base appname c (base_dir c.base host.user_cache_dir)

  -- Open
  unfoldable pub open_cache : Bytes → List Setting → Result
  open_cache appname settings = after_result (apply_all settings blank) (λ c.
      if host.late (or_default c.conn_timeout)
      then refused deadline_exceeded
      else initialize appname c)

  -- The options that fromURL collects.
  unfoldable pub settings_of : Dsn → List Setting
  settings_of u =
      let connect_timeout = u.query (codes "connect_timeout") in
      let timeout = u.query (codes "timeout") in
      let key = or_else (u.query (codes "encrypt_key")) host.encrypt_key in
      when (not (is_empty u.path || str_eq u.path (codes "/"))) (with_base_dir u.path)
      ++ (when (not (is_empty connect_timeout))
            (with_connect_timeout (parse_timeout connect_timeout))
          ++ (when (not (is_empty timeout)) (with_timeout (parse_timeout timeout))
              ++ (when (wants_encryption u) (with_encryption key)
                  ++ when (str_eq (u.query (codes "update_mtime")) (codes "on"))
                      (with_update_mtime true))))

  -- fromURL
  unfoldable pub from_url : Dsn → Result
  from_url u =
      let appname = u.query (codes "appname") in
      if is_empty appname then refused missing_app_name else open_cache appname (settings_of u)
