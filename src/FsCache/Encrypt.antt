-- ===== src/FsCache/Encrypt.antt =====
-- store/fscache/encrypt.go: encryption of what is stored. AES-GCM is a parameter.
use httpcache.Base.{
  ℕ, ◌≡◌, refl, false, ◌++◌, Option, none, some, ltb, if◌then◌else◌, length, length-append, take,
  drop, take-drop-length, arith,
}
use httpcache.Bytes.{Bytes}
use httpcache.Text.Base64

-- cipher.AEAD, without additional data: Seal, and Open, which fails where the text is not authentic.
pub record Aead : Type 0 where
  pub nonce_size : ℕ
  pub seal : Bytes → Bytes → Bytes
  pub unseal : Bytes → Bytes → Option Bytes

-- What the interface documents: what was sealed opens under the same nonce.
pub record IsAead (gcm : Aead) : Type 0 where
  pub unseal-seal :
      (nonce bytes : Bytes)
      → length nonce ≡ gcm.nonce_size
      → gcm.unseal nonce (gcm.seal nonce bytes) ≡ some bytes

abbrev new_with : (Bytes → Option Aead) → Option Bytes → Option Aead
new_with new_gcm none = none
new_with new_gcm (some key) = new_gcm key

-- newAESGCMEncryptor; `new_gcm` is cipher.NewGCM after aes.NewCipher.
unfoldable pub new_aesgcm_encryptor : (Bytes → Option Aead) → Bytes → Option Aead
new_aesgcm_encryptor new_gcm key = new_with new_gcm (Base64.decode_padded key)

module _ (gcm : Aead) where
  -- Encrypt, where `nonce` is what io.ReadFull reads: the nonce stands before the sealed text.
  unfoldable pub encrypt : Option Bytes → Bytes → Option Bytes
  encrypt none bytes = none
  encrypt (some nonce) bytes = some (nonce ++ gcm.seal nonce bytes)

  -- Decrypt
  unfoldable pub decrypt : Bytes → Option Bytes
  decrypt bytes =
      if ltb (length bytes) gcm.nonce_size
      then none
      else gcm.unseal (take gcm.nonce_size bytes) (drop gcm.nonce_size bytes)

  -- What was encrypted under a whole nonce is decrypted.
  pub decrypt-encrypt :
      (nonce bytes : Bytes)
      → IsAead gcm
      → length nonce ≡ gcm.nonce_size
      → (sealed : Bytes) × ((encrypt (some nonce) bytes ≡ some sealed)
          × (decrypt sealed ≡ some bytes))
  unfolding encrypt decrypt
  decrypt-encrypt nonce bytes laws e =
      let sealed = gcm.seal nonce bytes in
      let long : ltb (length (nonce ++ sealed)) gcm.nonce_size ≡ false =
        ground (arith, length-append nonce sealed) in
      (
        nonce ++ sealed,
        (
          refl,
          rw long (
              let (t, d) = take-drop-length gcm.nonce_size nonce sealed e in
              rw (t, d) (laws.unseal-seal nonce bytes e)),
        ),
      )
