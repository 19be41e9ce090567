-- ===== src/Crypto/Specs.antt =====
-- The table `kCipherSpecs` of common/src/crypto.cpp.
use encoder_next.Prelude.{Bool, true, false, Option, none, some, List, [], ◌∷◌, Bytes, codes}
use encoder_next.Crypto.Ciphers.{
  Cipher, kuznechik, magma, chacha20, chacha20_poly1305, aes_128_ecb, aes_128_cbc, aes_128_cfb,
  aes_128_ofb, aes_128_ctr, aes_128_gcm, aes_128_ccm, aes_128_xts, aes_128_ocb, aes_192_ecb,
  aes_192_cbc, aes_192_cfb, aes_192_ofb, aes_192_ctr, aes_192_gcm, aes_192_ccm, aes_192_ocb,
  aes_256_ecb, aes_256_cbc, aes_256_cfb, aes_256_ofb, aes_256_ctr, aes_256_gcm, aes_256_ccm,
  aes_256_xts, aes_256_ocb, twofish_128_ecb, twofish_128_cbc, twofish_128_cfb, twofish_128_ofb,
  twofish_128_ctr, twofish_192_ecb, twofish_192_cbc, twofish_192_cfb, twofish_192_ofb,
  twofish_192_ctr, twofish_256_ecb, twofish_256_cbc, twofish_256_cfb, twofish_256_ofb,
  twofish_256_ctr, des_ecb, des_cbc, des_cfb, des_ofb, des_ctr, rc4, rc4_40, rc4_128,
}

pub record CipherSpec : Type 0 where
  pub cipher : Cipher
  pub wire_name : Bytes
  pub openssl_name : Option Bytes
  pub gost : Bool
  pub aead : Bool
  pub ccm : Bool

-- `CipherSpec` values in the order of the fields.
abbrev spec : Cipher → Bytes → Option Bytes → Bool → Bool → Bool → CipherSpec
spec c wire ssl gost aead ccm = record {
  cipher = c;
  wire_name = wire;
  openssl_name = ssl;
  gost = gost;
  aead = aead;
  ccm = ccm;
}

abbrev pub cipher_specs : List CipherSpec
cipher_specs =
    spec kuznechik (codes "kuznechik") none true false false
    ∷ spec magma (codes "magma") none true false false
    ∷ spec chacha20 (codes "chacha20") (some (codes "chacha20")) false false false
    ∷ spec chacha20_poly1305 (codes "chacha20-poly1305") (some (codes "chacha20-poly1305")) false
        true false
    ∷ spec aes_128_ecb (codes "aes-128-ecb") (some (codes "aes-128-ecb")) false false false
    ∷ spec aes_128_cbc (codes "aes-128-cbc") (some (codes "aes-128-cbc")) false false false
    ∷ spec aes_128_cfb (codes "aes-128-cfb") (some (codes "aes-128-cfb")) false false false
    ∷ spec aes_128_ofb (codes "aes-128-ofb") (some (codes "aes-128-ofb")) false false false
    ∷ spec aes_128_ctr (codes "aes-128-ctr") (some (codes "aes-128-ctr")) false false false
    ∷ spec aes_128_gcm (codes "aes-128-gcm") (some (codes "aes-128-gcm")) false true false
    ∷ spec aes_128_ccm (codes "aes-128-ccm") (some (codes "aes-128-ccm")) false true true
    ∷ spec aes_128_xts (codes "aes-128-xts") (some (codes "aes-128-xts")) false false false
    ∷ spec aes_128_ocb (codes "aes-128-ocb") (some (codes "aes-128-ocb")) false true false
    ∷ spec aes_192_ecb (codes "aes-192-ecb") (some (codes "aes-192-ecb")) false false false
    ∷ spec aes_192_cbc (codes "aes-192-cbc") (some (codes "aes-192-cbc")) false false false
    ∷ spec aes_192_cfb (codes "aes-192-cfb") (some (codes "aes-192-cfb")) false false false
    ∷ spec aes_192_ofb (codes "aes-192-ofb") (some (codes "aes-192-ofb")) false false false
    ∷ spec aes_192_ctr (codes "aes-192-ctr") (some (codes "aes-192-ctr")) false false false
    ∷ spec aes_192_gcm (codes "aes-192-gcm") (some (codes "aes-192-gcm")) false true false
    ∷ spec aes_192_ccm (codes "aes-192-ccm") (some (codes "aes-192-ccm")) false true true
    ∷ spec aes_192_ocb (codes "aes-192-ocb") (some (codes "aes-192-ocb")) false true false
    ∷ spec aes_256_ecb (codes "aes-256-ecb") (some (codes "aes-256-ecb")) false false false
    ∷ spec aes_256_cbc (codes "aes-256-cbc") (some (codes "aes-256-cbc")) false false false
    ∷ spec aes_256_cfb (codes "aes-256-cfb") (some (codes "aes-256-cfb")) false false false
    ∷ spec aes_256_ofb (codes "aes-256-ofb") (some (codes "aes-256-ofb")) false false false
    ∷ spec aes_256_ctr (codes "aes-256-ctr") (some (codes "aes-256-ctr")) false false false
    ∷ spec aes_256_gcm (codes "aes-256-gcm") (some (codes "aes-256-gcm")) false true false
    ∷ spec aes_256_ccm (codes "aes-256-ccm") (some (codes "aes-256-ccm")) false true true
    ∷ spec aes_256_xts (codes "aes-256-xts") (some (codes "aes-256-xts")) false false false
    ∷ spec aes_256_ocb (codes "aes-256-ocb") (some (codes "aes-256-ocb")) false true false
    ∷ spec twofish_128_ecb (codes "twofish-128-ecb") (some (codes "twofish-128-ecb")) false false
        false
    ∷ spec twofish_128_cbc (codes "twofish-128-cbc") (some (codes "twofish-128-cbc")) false false
        false
    ∷ spec twofish_128_cfb (codes "twofish-128-cfb") (some (codes "twofish-128-cfb")) false false
        false
    ∷ spec twofish_128_ofb (codes "twofish-128-ofb") (some (codes "twofish-128-ofb")) false false
        false
    ∷ spec twofish_128_ctr (codes "twofish-128-ctr") (some (codes "twofish-128-ctr")) false false
        false
    ∷ spec twofish_192_ecb (codes "twofish-192-ecb") (some (codes "twofish-192-ecb")) false false
        false
    ∷ spec twofish_192_cbc (codes "twofish-192-cbc") (some (codes "twofish-192-cbc")) false false
        false
    ∷ spec twofish_192_cfb (codes "twofish-192-cfb") (some (codes "twofish-192-cfb")) false false
        false
    ∷ spec twofish_192_ofb (codes "twofish-192-ofb") (some (codes "twofish-192-ofb")) false false
        false
    ∷ spec twofish_192_ctr (codes "twofish-192-ctr") (some (codes "twofish-192-ctr")) false false
        false
    ∷ spec twofish_256_ecb (codes "twofish-256-ecb") (some (codes "twofish-256-ecb")) false false
        false
    ∷ spec twofish_256_cbc (codes "twofish-256-cbc") (some (codes "twofish-256-cbc")) false false
        false
    ∷ spec twofish_256_cfb (codes "twofish-256-cfb") (some (codes "twofish-256-cfb")) false false
        false
    ∷ spec twofish_256_ofb (codes "twofish-256-ofb") (some (codes "twofish-256-ofb")) false false
        false
    ∷ spec twofish_256_ctr (codes "twofish-256-ctr") (some (codes "twofish-256-ctr")) false false
        false
    ∷ spec des_ecb (codes "des-ecb") (some (codes "des-ecb")) false false false
    ∷ spec des_cbc (codes "des-cbc") (some (codes "des-cbc")) false false false
    ∷ spec des_cfb (codes "des-cfb") (some (codes "des-cfb")) false false false
    ∷ spec des_ofb (codes "des-ofb") (some (codes "des-ofb")) false false false
    ∷ spec des_ctr (codes "des-ctr") (some (codes "des-ctr")) false false false
    ∷ spec rc4 (codes "rc4") (some (codes "rc4")) false false false
    ∷ spec rc4_40 (codes "rc4-40") (some (codes "rc4-40")) false false false
    ∷ spec rc4_128 (codes "rc4-128") (some (codes "rc4")) false false false
    ∷ []
