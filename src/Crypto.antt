-- ===== src/Crypto.antt =====
-- internal/crypto/crypto.go: sealing under a symmetric key, and anonymous boxes.
-- AES-GCM and the NaCl box are the parameter `Primitives`. Random bytes are arguments: `none` is a
-- failing random source. `aes.NewCipher` and `cipher.NewGCM` do not fail at a key of 32 bytes.
use fnshare.Prelude.{
  ℕ, ◌+◌, ◌≡◌, ap, Bool, true, ◌&&◌, ◌++◌, Option, some, arith, Result, ok, guard, or_fail, ◌>>=◌,
  ◌>>◌, length, length-append, take-length-append, drop-length-append, take, drop, leb, ◌==◌,
}
use fnshare.Prelude.Bytes.{Bytes}

pub record Primitives : Type 0 where
  -- key, nonce, text
  pub gcm_seal : Bytes → Bytes → Bytes → Bytes
  pub gcm_open : Bytes → Bytes → Bytes → Option Bytes
  -- the recipient's public key, the random bytes, text
  pub box_seal : Bytes → Bytes → Bytes → Bytes
  -- the public key, the private key, text
  pub box_open : Bytes → Bytes → Bytes → Option Bytes
  -- `box.GenerateKey`: the pair that belongs together
  pub pair : Bytes → Bytes → Bool

-- Opening undoes sealing, and a sealed text carries a tag of 16 bytes.
pub record PrimitivesLaws (c : Primitives) : Type 0 where
  pub gcm_open-seal :
      (key nonce text : Bytes) → c.gcm_open key nonce (c.gcm_seal key nonce text) ≡ some text
  pub length-gcm_seal :
      (key nonce text : Bytes) → length (c.gcm_seal key nonce text) ≡ length text + 16
  pub box_open-seal :
      (public private random text : Bytes)
      → c.pair public private ≡ true
      → c.box_open public private (c.box_seal public random text) ≡ some text

pub data CryptoError : Type 0 where
  key_size : ℕ → CryptoError
  no_randomness too_short open_failed recipient_size bad_recipient_keys box_failed : CryptoError

abbrev pub file_key_size : ℕ
file_key_size = 32

abbrev pub enc_pub_size : ℕ
enc_pub_size = 32

abbrev pub enc_priv_size : ℕ
enc_priv_size = 32

abbrev pub gcm_nonce_size : ℕ
gcm_nonce_size = 12

-- `NewFileKey`, and `NewSymmetricKey`, which calls it.
unfoldable pub new_file_key : Option Bytes → Result CryptoError Bytes
new_file_key random = or_fail random no_randomness

module _ (c : Primitives) where
  -- `SealAES`
  unfoldable pub seal_aes : Bytes → Option Bytes → Bytes → Result CryptoError Bytes
  seal_aes key random plaintext = do
    guard (length key == file_key_size) (key_size (length key))
    nonce ← or_fail random no_randomness
    ok (nonce ++ c.gcm_seal key nonce plaintext)

  -- `OpenAES`
  unfoldable pub open_aes : Bytes → Bytes → Result CryptoError Bytes
  open_aes key ciphertext = do
    guard (length key == file_key_size) (key_size (length key))
    guard (leb (gcm_nonce_size + 1) (length ciphertext)) too_short
    or_fail (c.gcm_open key (take gcm_nonce_size ciphertext) (drop gcm_nonce_size ciphertext))
        open_failed

  -- `SealAnonymous`
  unfoldable pub seal_anonymous : Bytes → Bytes → Option Bytes → Result CryptoError Bytes
  seal_anonymous plaintext recipient_pub random = do
    guard (length recipient_pub == enc_pub_size) recipient_size
    bytes ← or_fail random no_randomness
    ok (c.box_seal recipient_pub bytes plaintext)

  -- `OpenAnonymous`
  unfoldable pub open_anonymous : Bytes → Bytes → Bytes → Result CryptoError Bytes
  open_anonymous ciphertext recipient_pub recipient_priv = do
    guard (length recipient_pub == enc_pub_size && length recipient_priv == enc_priv_size)
        bad_recipient_keys
    or_fail (c.box_open recipient_pub recipient_priv ciphertext) box_failed

module _ (c : Primitives) (laws : PrimitivesLaws c) where
  -- What `SealAES` made with a nonce of 12 bytes, `OpenAES` opens under the same key.
  pub open_aes-seal_aes :
      (key nonce plaintext ct : Bytes)
      → length nonce ≡ gcm_nonce_size
      → seal_aes c key (some nonce) plaintext ≡ ok ct
      → (open_aes c key ct ≡ ok plaintext) × (length ct ≡ length plaintext + 28)
  unfolding seal_aes open_aes
  open_aes-seal_aes key nonce plaintext ct h e = (
    ground (arith, parts, nonce_first, text_last, size, laws.gcm_open-seal key nonce plaintext),
    size,
  )
    where
      sealed : Bytes
      sealed = c.gcm_seal key nonce plaintext

      parts : ((length key == 32) ≡ true) × (ct ≡ nonce ++ sealed)
      parts = ground arith

      nonce_first : take 12 ct ≡ nonce
      nonce_first = rw (parts.1, ← h) (take-length-append nonce sealed)

      text_last : drop 12 ct ≡ sealed
      text_last = rw (parts.1, ← h) (drop-length-append nonce sealed)

      size : length ct ≡ length plaintext + 28
      size = omega (
        arith,
        ap length parts.1,
        length-append nonce sealed,
        laws.length-gcm_seal key nonce plaintext,
      )
