-- ===== src/Crypto/Ciphers.antt =====
-- The enumeration of the ciphers in common/include/encoder/crypto.h.
use encoder_next.Prelude.{ℕ}

pub data Cipher : Type 0 where
  kuznechik : Cipher
  magma : Cipher
  chacha20 : Cipher
  chacha20_poly1305 : Cipher
  aes_128_ecb : Cipher
  aes_128_cbc : Cipher
  aes_128_cfb : Cipher
  aes_128_ofb : Cipher
  aes_128_ctr : Cipher
  aes_128_gcm : Cipher
  aes_128_ccm : Cipher
  aes_128_xts : Cipher
  aes_128_ocb : Cipher
  aes_192_ecb : Cipher
  aes_192_cbc : Cipher
  aes_192_cfb : Cipher
  aes_192_ofb : Cipher
  aes_192_ctr : Cipher
  aes_192_gcm : Cipher
  aes_192_ccm : Cipher
  aes_192_ocb : Cipher
  aes_256_ecb : Cipher
  aes_256_cbc : Cipher
  aes_256_cfb : Cipher
  aes_256_ofb : Cipher
  aes_256_ctr : Cipher
  aes_256_gcm : Cipher
  aes_256_ccm : Cipher
  aes_256_xts : Cipher
  aes_256_ocb : Cipher
  twofish_128_ecb : Cipher
  twofish_128_cbc : Cipher
  twofish_128_cfb : Cipher
  twofish_128_ofb : Cipher
  twofish_128_ctr : Cipher
  twofish_192_ecb : Cipher
  twofish_192_cbc : Cipher
  twofish_192_cfb : Cipher
  twofish_192_ofb : Cipher
  twofish_192_ctr : Cipher
  twofish_256_ecb : Cipher
  twofish_256_cbc : Cipher
  twofish_256_cfb : Cipher
  twofish_256_ofb : Cipher
  twofish_256_ctr : Cipher
  des_ecb : Cipher
  des_cbc : Cipher
  des_cfb : Cipher
  des_ofb : Cipher
  des_ctr : Cipher
  rc4 : Cipher
  rc4_40 : Cipher
  rc4_128 : Cipher

-- The value of an enumerator, by which two of them are compared.
abbrev pub index : Cipher → ℕ
index kuznechik = 0
index magma = 1
index chacha20 = 2
index chacha20_poly1305 = 3
index aes_128_ecb = 4
index aes_128_cbc = 5
index aes_128_cfb = 6
index aes_128_ofb = 7
index aes_128_ctr = 8
index aes_128_gcm = 9
index aes_128_ccm = 10
index aes_128_xts = 11
index aes_128_ocb = 12
index aes_192_ecb = 13
index aes_192_cbc = 14
index aes_192_cfb = 15
index aes_192_ofb = 16
index aes_192_ctr = 17
index aes_192_gcm = 18
index aes_192_ccm = 19
index aes_192_ocb = 20
index aes_256_ecb = 21
index aes_256_cbc = 22
index aes_256_cfb = 23
index aes_256_ofb = 24
index aes_256_ctr = 25
index aes_256_gcm = 26
index aes_256_ccm = 27
index aes_256_xts = 28
index aes_256_ocb = 29
index twofish_128_ecb = 30
index twofish_128_cbc = 31
index twofish_128_cfb = 32
index twofish_128_ofb = 33
index twofish_128_ctr = 34
index twofish_192_ecb = 35
index twofish_192_cbc = 36
index twofish_192_cfb = 37
index twofish_192_ofb = 38
index twofish_192_ctr = 39
index twofish_256_ecb = 40
index twofish_256_cbc = 41
index twofish_256_cfb = 42
index twofish_256_ofb = 43
index twofish_256_ctr = 44
index des_ecb = 45
index des_cbc = 46
index des_cfb = 47
index des_ofb = 48
index des_ctr = 49
index rc4 = 50
index rc4_40 = 51
index rc4_128 = 52
