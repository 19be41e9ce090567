-- ===== src/Crypto/Engine.antt =====
-- `CryptoEngine::encrypt`, `decrypt` and `recover_legacy_gost` of common/src/crypto.cpp.
-- `native` is the build option ENCODER_NATIVE_GOST; OpenSSL, libakrypt and the two draws of
-- `RAND_bytes` are parameters.
use encoder_next.Prelude.{
  ℕ, zero, suc, Bool, not, ◌&&◌, Option, none, some, [], Bytes, is_empty, ℤ, pos, negsuc, ◌==◌,
  Result, ok, err, ◌>>=◌, ◌>>◌, attempt, require, if◌then◌else◌,
}
use encoder_next.Crypto.Ciphers.{Cipher}
use encoder_next.Crypto.Specs.{CipherSpec, cipher_specs}
use encoder_next.Crypto.Names.{HashAlg, spec_of}
use encoder_next.Crypto.OpenSsl.{OpenSsl, evp_encrypt_cipher, evp_decrypt_cipher}
use encoder_next.Crypto.Gost.{
  Akrypt, CryptoResult, gost_native_encrypt, gost_native_decrypt, gost_native_recover_legacy,
}

-- A length that OpenSSL gives as an `int`; below 0 it counts as 0.
abbrev pub size_of : ℤ → ℕ
size_of (pos n) = n
size_of (negsuc n) = 0

-- An IV is drawn only if there is one.
abbrev pub draw_iv : (ℕ → Option Bytes) → ℕ → Option Bytes
draw_iv rand zero = some []
draw_iv rand (suc n) = rand (suc n)

module _ (native : Bool) (ssl : OpenSsl) (ak : Akrypt) where
  -- The name that OpenSSL is asked for; a row without one belongs to GOST.
  abbrev pub evp_of : CipherSpec → Option ssl.Evp
  evp_of spec = elim spec.openssl_name [ none ↦ none | some name ↦ ssl.get_cipherbyname name ]

  unfoldable pub encrypt_evp :
      CipherSpec → Bytes → (ℕ → Option Bytes) → (ℕ → Option Bytes) → Result CryptoResult
  encrypt_evp spec plaintext rand_key rand_iv = do
    evp ← attempt (evp_of spec) "Cipher is not available in OpenSSL: "
    require (not (size_of (ssl.key_length evp) == 0)) "Invalid key length for cipher"
    key ← attempt (rand_key (size_of (ssl.key_length evp))) "RAND_bytes failed (key)"
    iv ← attempt (draw_iv rand_iv (size_of (ssl.iv_length evp))) "RAND_bytes failed (iv)"
    out ← evp_encrypt_cipher ssl evp plaintext key iv spec.aead spec.ccm
    ok (record { content = out.0; key = key; iv = iv; tag = out.1 })

  unfoldable pub encrypt :
      Cipher → Bytes → (ℕ → Option Bytes) → (ℕ → Option Bytes) → Result CryptoResult
  encrypt cipher plaintext rand_key rand_iv = do
    spec ← attempt (spec_of cipher cipher_specs) "Unsupported cipher"
    let gost = gost_native_encrypt ak cipher plaintext rand_key rand_iv
    if spec.gost
        then (if native
            then gost
            else err "Native GOST-MGM backend is not enabled; legacy encryption is disabled")
        else encrypt_evp spec plaintext rand_key rand_iv

  unfoldable pub decrypt_evp : CipherSpec → Bytes → Bytes → Bytes → Bytes → Result CryptoResult
  decrypt_evp spec ciphertext key iv tag = do
    require (not (spec.aead && is_empty tag)) "Missing authentication tag for AEAD cipher"
    evp ← attempt (evp_of spec) "Cipher is not available in OpenSSL: "
    out ← evp_decrypt_cipher ssl evp ciphertext key iv tag spec.aead spec.ccm
    ok (record { content = out; key = []; iv = []; tag = [] })

  unfoldable pub decrypt : Cipher → Bytes → Bytes → Bytes → Bytes → Result CryptoResult
  decrypt cipher ciphertext key iv tag = do
    spec ← attempt (spec_of cipher cipher_specs) "Unsupported cipher"
    let gost = gost_native_decrypt ak cipher ciphertext key
    if spec.gost
        then (if native
            then gost
            else err
                "Native GOST-MGM backend is not enabled; legacy files require verified recovery")
        else decrypt_evp spec ciphertext key iv tag

  unfoldable pub recover_legacy_gost : Bytes → Bytes → HashAlg → Bytes → Result CryptoResult
  recover_legacy_gost ciphertext key alg trusted_digest =
      if native
      then gost_native_recover_legacy ak ssl ciphertext key alg trusted_digest
      else err "Native GOST backend required for verified legacy recovery"
