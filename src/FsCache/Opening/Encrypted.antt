-- ===== src/FsCache/Opening/Encrypted.antt =====
-- Encryption and the time limit of the caches that a DSN opens.
use mathlib.Core.Path.{subst}
use httpcache.Base.{
  ◌≡◌, refl, ◌∙◌, Bool, true, false, ◌||◌, not, List, [], ◌∷◌, ◌++◌, Option, none, some,
  if◌then◌else◌, arith,
}
use httpcache.Base.Int.{ℤ, pos, negsuc, max_ℤ, ◌<ℤ◌, ◌≤ℤ◌}
use httpcache.Bytes.{Bytes, codes}
use httpcache.Dict.{is_some}
use httpcache.FsCache.{FsCache}
use httpcache.Time.{Duration}
use httpcache.FsCache.Encrypt.{Aead}
use httpcache.FsCache.Opening.{
  Setting, with_connect_timeout, with_timeout, with_encryption, with_base_dir, with_update_mtime,
  Result, opened, refused, OpenError, missing_app_name, not_opened, not_created, deadline_exceeded,
  Host, Dsn, after_result, blank, when, apply, apply_all, initialize, in_base, open_cache,
  wants_encryption, settings_of, from_url, or_default, base_dir, encrypted_by, is_empty,
}

-- Whether a list of options has one that sets an encryptor.
abbrev encrypts : List Setting → Bool
encrypts [] = false
encrypts (with_encryption key ∷ os) = true
encrypts (o ∷ os) = encrypts os

encrypts-append : (os ps : List Setting) → encrypts (os ++ ps) ≡ encrypts os || encrypts ps
encrypts-append [] ps = refl
encrypts-append (with_connect_timeout d ∷ os) ps = encrypts-append os ps
encrypts-append (with_timeout d ∷ os) ps = encrypts-append os ps
encrypts-append (with_encryption key ∷ os) ps = refl
encrypts-append (with_base_dir b ∷ os) ps = encrypts-append os ps
encrypts-append (with_update_mtime e ∷ os) ps = encrypts-append os ps

encrypts-other :
    (b : Bool) (o : Setting) (os : List Setting)
    → encrypts (o ∷ []) ≡ false
    → encrypts (when b o ++ os) ≡ encrypts os
encrypts-other true o os h = encrypts-append (o ∷ []) os ∙ rw h refl
encrypts-other false o os h = refl

encrypts-asked :
    (b : Bool) (key : Bytes) (os : List Setting)
    → encrypts os ≡ false
    → encrypts (when b (with_encryption key) ++ os) ≡ b
encrypts-asked true key os h = refl
encrypts-asked false key os h = h

encrypts-last : (b : Bool) (o : Setting) → encrypts (o ∷ []) ≡ false → encrypts (when b o) ≡ false
encrypts-last true o h = h
encrypts-last false o h = refl

encrypts-options :
    (b₁ b₂ b₃ b₄ b₅ : Bool) (path key : Bytes) (d e : Duration)
    → encrypts (
        when b₁ (with_base_dir path)
        ++ (when b₂ (with_connect_timeout d)
            ++ (when b₃ (with_timeout e)
                ++ (when b₄ (with_encryption key) ++ when b₅ (with_update_mtime true)))))
      ≡ b₄
encrypts-options b₁ b₂ b₃ b₄ b₅ path key d e =
    let last = when b₅ (with_update_mtime true) in
    let fourth = when b₄ (with_encryption key) ++ last in
    let third = when b₃ (with_timeout e) ++ fourth in
    encrypts-other b₁ (with_base_dir path) (when b₂ (with_connect_timeout d) ++ third) refl
    ∙ encrypts-other b₂ (with_connect_timeout d) third refl
    ∙ encrypts-other b₃ (with_timeout e) fourth refl
    ∙ encrypts-asked b₄ key last (encrypts-last b₅ (with_update_mtime true) refl)

-- What is true of a cache that was opened.
abbrev WhenOpened : (FsCache → Type 0) → Result → Type 0
WhenOpened P (refused e) = Unit
WhenOpened P (opened c) = P c

WhenOpened-after_result :
    (P Q : FsCache → Type 0) (r : Result) (f : FsCache → Result)
    → WhenOpened P r
    → ((c : FsCache) → P c → WhenOpened Q (f c))
    → WhenOpened Q (after_result r f)
WhenOpened-after_result P Q (refused e) f h k = tt
WhenOpened-after_result P Q (opened c) f h k = k c h

-- An encryptor exactly where `b`, and a timeout that is not negative.
abbrev IsConfigured : Bool → FsCache → Type 0
IsConfigured b c = (is_some c.enc ≡ b) × (pos 0 ≤ℤ c.timeout)

WhenOpened-refused :
    (P : FsCache → Type 0) (b : Bool) (e : OpenError) (r : Result)
    → WhenOpened P r
    → WhenOpened P (if b then refused e else r)
WhenOpened-refused P true e r h = tt
WhenOpened-refused P false e r h = h

max_ℤ_zero : (d : ℤ) → pos 0 ≤ℤ max_ℤ d (pos 0)
unfolding max_ℤ
max_ℤ_zero (pos n) = ground arith
max_ℤ_zero (negsuc n) = ground arith

or_default_positive : (d : ℤ) → pos 0 ≤ℤ d → pos 0 <ℤ or_default d
or_default_positive (pos n) h = ground arith
or_default_positive (negsuc n) h = ground arith

module _ (host : Host) where
  encrypted_by_lem :
      (c : FsCache) (gcm : Option Aead)
      → pos 0 ≤ℤ c.timeout
      → WhenOpened (IsConfigured true) (encrypted_by host c gcm)
  encrypted_by_lem c none h = tt
  encrypted_by_lem c (some gcm) h = (refl, h)

  apply-IsConfigured :
      (o : Setting) (b : Bool) (c : FsCache)
      → IsConfigured b c
      → WhenOpened (IsConfigured (b || encrypts (o ∷ []))) (apply host o c)
  unfolding apply
  apply-IsConfigured (with_connect_timeout d) b c (e, h) = (ground arith, h)
  apply-IsConfigured (with_timeout d) b c (e, h) = (ground arith, max_ℤ_zero d)
  apply-IsConfigured (with_encryption []) b c h = tt
  apply-IsConfigured (with_encryption (k ∷ key)) true c (e, h) = encrypted_by_lem c _ h
  apply-IsConfigured (with_encryption (k ∷ key)) false c (e, h) = encrypted_by_lem c _ h
  apply-IsConfigured (with_base_dir []) b c (e, h) = (ground arith, h)
  apply-IsConfigured (with_base_dir (d ∷ base)) b c (e, h) = (ground arith, h)
  apply-IsConfigured (with_update_mtime enabled) b c (e, h) = (ground arith, h)

  apply_all-IsConfigured :
      (os : List Setting) (b : Bool) (c : FsCache)
      → IsConfigured b c
      → WhenOpened (IsConfigured (b || encrypts os)) (apply_all host os c)
  unfolding apply_all
  apply_all-IsConfigured [] b c (e, h) = (ground arith, h)
  apply_all-IsConfigured (o ∷ os) b c h =
      let b' = b || encrypts (o ∷ []) in
      let split : b' || encrypts os ≡ b || encrypts (o ∷ os) =
        ground (arith, encrypts-append (o ∷ []) os) in
      WhenOpened-after_result (IsConfigured b') (IsConfigured (b || encrypts (o ∷ os)))
        (apply host o c) (λ c'. apply_all host os c') (apply-IsConfigured o b c h)
        (λ c' h'. rw split at (apply_all-IsConfigured os b' c' h'))

  encrypts-settings_of : (u : Dsn) → encrypts (settings_of host u) ≡ wants_encryption u
  unfolding settings_of
  encrypts-settings_of u = encrypts-options _ _ _ (wants_encryption u) _ u.path _ _ _

  in_base-IsConfigured :
      (appname : Bytes) (b : Bool) (c : FsCache) (dir : Option Bytes)
      → IsConfigured b c
      → WhenOpened (λ c'. (is_some c'.enc ≡ b) × (pos 0 <ℤ c'.timeout)) (in_base host appname c dir)
  in_base-IsConfigured appname b c none h = tt
  in_base-IsConfigured appname b c (some base) (e, h) =
      let Limited : FsCache → Type 0 = λ c'. (is_some c'.enc ≡ b) × (pos 0 <ℤ c'.timeout) in
      let dir = host.join_dir base appname in
      let result = record c { base = dir; timeout = or_default c.timeout } in
      let opening = if not (host.open_root dir) then refused not_opened else opened result in
      let making = if not (host.mkdir_all dir) then refused not_created else opening in
      WhenOpened-refused Limited (is_empty appname) missing_app_name making (
        WhenOpened-refused Limited (not (host.mkdir_all dir)) not_created opening (
          WhenOpened-refused Limited (not (host.open_root dir)) not_opened (opened result)
            (e, or_default_positive c.timeout h)))

  -- A cache that a DSN opens has an encryptor exactly if the DSN asks for encryption, so that without
  -- a key nothing is stored in plain text; and the time limit of its operations is positive.
  pub from_url-enc :
      (u : Dsn) (c : FsCache)
      → from_url host u ≡ opened c
      → (is_some c.enc ≡ wants_encryption u) × (pos 0 <ℤ c.timeout)
  unfolding from_url open_cache initialize
  from_url-enc u c h =
      let w = wants_encryption u in
      let Limited : FsCache → Type 0 = λ c'. (is_some c'.enc ≡ w) × (pos 0 <ℤ c'.timeout) in
      let os = settings_of host u in
      let set : WhenOpened (IsConfigured w) (apply_all host os blank) =
        rw (encrypts-settings_of u) at
          (apply_all-IsConfigured os false blank (refl, omega arith)) in
      let appname = u.query (codes "appname") in
      let opens : WhenOpened Limited (open_cache host appname os) =
        WhenOpened-after_result (IsConfigured w) Limited (apply_all host os blank) _ set (λ c' k.
          WhenOpened-refused Limited (host.late (or_default c'.conn_timeout)) deadline_exceeded
            (initialize host appname c')
            (in_base-IsConfigured appname w c' (base_dir host c'.base host.user_cache_dir) k)) in
      subst (WhenOpened Limited) h (
        WhenOpened-refused Limited (is_empty appname) missing_app_name (open_cache host appname os)
          opens)
