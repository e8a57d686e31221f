-- ===== src/Documents/Cipher.antt =====
-- core/crypto/cipher.go: encrypted fields and blind indexes.
use Prim.Native.Nat.{ℕ, zero, suc}
use mathlib.Core.Path.{subst}
use hexagonal_backend.Common.{
  false, ◌+◌, ◌≡◌, refl, ap, String, Option, none, some, List, [], ◌∷◌, ◌++◌, ltb, ◌==◌, not,
  length, is_nil, arith,
}
use hexagonal_backend.Common.Result.{Result, ok, err, ◌>>=◌, ◌>>◌, fail_if}
use hexagonal_backend.Errors.{plain}

-- The type of a byte is given with the packages.
-- cipher.AEAD: Seal and Open without their destination, and NonceSize.
pub record Aead (Byte : Type 0) : Type 0 where
  pub nonce_size : ℕ
  pub seal : List Byte → List Byte → List Byte
  pub open_sealed : List Byte → List Byte → Option (List Byte)

-- The packages that cipher.go calls: AES, GCM, HMAC-SHA256, base64, hex, the n-th read of the random
-- source, and the bytes of a string.
pub record Library (Byte : Type 0) : Type 0 where
  pub new_gcm : List Byte → Option (Aead Byte)
  pub hmac_sha256 : List Byte → List Byte → List Byte
  pub base64_encode : List Byte → String
  pub base64_decode : String → Option (List Byte)
  pub hex_encode : List Byte → String
  pub random : ℕ → ℕ → Option (List Byte)
  pub bytes : String → List Byte
  pub text : List Byte → String

pub record Cipher (Byte : Type 0) : Type 0 where
  pub aead : Aead Byte
  pub blind_index_key : List Byte

-- raw[:n] and raw[n:]
abbrev pub take {ℓ} : {A : Type ℓ} → ℕ → List A → List A
take zero xs = []
take (suc n) [] = []
take (suc n) (x ∷ xs) = x ∷ take n xs

abbrev pub drop {ℓ} : {A : Type ℓ} → ℕ → List A → List A
drop zero xs = xs
drop (suc n) [] = []
drop (suc n) (x ∷ xs) = drop n xs

abbrev pub or_err {ℓ} : {A : Type ℓ} → String → Option A → Result A
or_err msg (some a) = ok a
or_err msg none = err (plain msg)

module _ {Byte : Type 0} (lib : Library Byte) where
  -- NewCipher
  unfoldable pub new_cipher : List Byte → List Byte → Result (Cipher Byte)
  new_cipher encryption_key blind_index_key = do
    fail_if (not (length encryption_key == 32)) (plain "encryption key must be 32 bytes")
    fail_if (is_nil blind_index_key) (plain "blind index key must not be empty")
    aead ← or_err "aes" (lib.new_gcm encryption_key)
    ok (record { aead = aead; blind_index_key = blind_index_key })

  -- NewCipherFromBase64
  unfoldable pub new_cipher_from_base64 : String → String → Result (Cipher Byte)
  unfolding new_cipher
  new_cipher_from_base64 encryption_key blind_index_key = do
    enc ← or_err "decode encryption key" (lib.base64_decode encryption_key)
    bi ← or_err "decode blind index key" (lib.base64_decode blind_index_key)
    new_cipher enc bi

  -- Encrypt, with the n-th read of the random source
  unfoldable pub encrypt : Cipher Byte → ℕ → String → Result String
  encrypt c n plaintext = do
    nonce ← or_err "rand" (lib.random n c.aead.nonce_size)
    ok (lib.base64_encode (nonce ++ c.aead.seal nonce (lib.bytes plaintext)))

  -- Decrypt
  unfoldable pub decrypt : Cipher Byte → String → Result String
  decrypt c ciphertext = do
    raw ← or_err "base64" (lib.base64_decode ciphertext)
    fail_if (ltb (length raw) c.aead.nonce_size) (plain "ciphertext too short")
    plaintext ←
        or_err "cipher"
          (c.aead.open_sealed (take c.aead.nonce_size raw) (drop c.aead.nonce_size raw))
    ok (lib.text plaintext)

  -- BlindIndex
  unfoldable pub blind_index : Cipher Byte → String → String
  blind_index c value = lib.hex_encode (lib.hmac_sha256 c.blind_index_key (lib.bytes value))

take-append : {Byte : Type 0} (xs ys : List Byte) → take (length xs) (xs ++ ys) ≡ xs
take-append [] ys = refl
take-append (x ∷ xs) ys = ap (λ l. x ∷ l) (take-append xs ys)

drop-append : {Byte : Type 0} (xs ys : List Byte) → drop (length xs) (xs ++ ys) ≡ ys
drop-append [] ys = refl
drop-append (x ∷ xs) ys = drop-append xs ys

length-append : {Byte : Type 0} (xs ys : List Byte) → length (xs ++ ys) ≡ length xs + length ys
length-append [] ys = omega arith
length-append (x ∷ xs) ys = omega (arith, length-append xs ys)

-- What the packages document: base64 and the conversion of strings are undone, the random source
-- gives as many bytes as asked for, and Open undoes Seal.
pub record IsSound {Byte : Type 0} (lib : Library Byte) (c : Cipher Byte) : Type 0 where
  pub base64 : (b : List Byte) → lib.base64_decode (lib.base64_encode b) ≡ some b
  pub strings : (s : String) → lib.text (lib.bytes s) ≡ s
  pub reads : (n size : ℕ) (b : List Byte) → lib.random n size ≡ some b → length b ≡ size
  pub opens :
      (nonce b : List Byte)
      → length nonce ≡ c.aead.nonce_size
      → c.aead.open_sealed nonce (c.aead.seal nonce b) ≡ some b

-- Decrypt gives back what Encrypt was given, whatever nonce was drawn.
pub decrypt-encrypt :
    {Byte : Type 0} (lib : Library Byte) (c : Cipher Byte) (n : ℕ) (plaintext ciphertext : String)
    → IsSound lib c
    → encrypt lib c n plaintext ≡ ok ciphertext
    → decrypt lib c ciphertext ≡ ok plaintext
unfolding encrypt decrypt
decrypt-encrypt {Byte} lib c n plaintext ciphertext s h =
    by_nonce (lib.random n c.aead.nonce_size) refl
  where
    sealed : List Byte → List Byte
    sealed nonce = c.aead.seal nonce (lib.bytes plaintext)

    by_nonce :
        (r : Option (List Byte))
        → lib.random n c.aead.nonce_size ≡ r
        → decrypt lib c ciphertext ≡ ok plaintext
    by_nonce none e = absurd (ground (arith, h, e))
    by_nonce (some nonce) e =
        let raw : List Byte = nonce ++ sealed nonce in
        let size : length nonce ≡ c.aead.nonce_size = s.reads n c.aead.nonce_size nonce e in
        let whole : lib.base64_encode raw ≡ ciphertext = ground (arith, h, e) in
        let front : take c.aead.nonce_size raw ≡ nonce =
          subst (λ k. take k raw ≡ nonce) size (take-append nonce (sealed nonce)) in
        let back : drop c.aead.nonce_size raw ≡ sealed nonce =
          subst (λ k. drop k raw ≡ sealed nonce) size (drop-append nonce (sealed nonce)) in
        let long : ltb (length raw) c.aead.nonce_size ≡ false =
          ground (arith, length-append nonce (sealed nonce), size) in
        rw
          (
            ← whole,
            s.base64 raw,
            long,
            front,
            back,
            s.opens nonce (lib.bytes plaintext) size,
            s.strings plaintext,
          )
          refl
