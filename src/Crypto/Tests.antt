-- ===== src/Crypto/Tests.antt =====
-- Runs of common/src/crypto.cpp and common/src/gost_native.cpp on the small libraries of Toy.
use encoder_next.Prelude.{◌≡◌, refl, true, some, [], ◌∷◌, Bytes, codes, ok}
use encoder_next.Crypto.Ciphers.{kuznechik, aes_256_gcm, chacha20_poly1305}
use encoder_next.Crypto.Names.{
  sha256, normalize_cipher_name, skip_spaces, drop_last_spaces, spec_named, spec_of,
  cipher_from_string,
}
use encoder_next.Crypto.OpenSsl.{evp_encrypt_cipher}
use encoder_next.Crypto.Digest.{hash, digest_of}
use encoder_next.Crypto.Gost.{
  CryptoResult, gost_native_encrypt, gost_native_recover_legacy, write_le, clear_last, setup,
  decrypt_blocks, recover_padded,
}
use encoder_next.Crypto.Recovery.{gost_native_recover_legacy-Trusted, Trusted}
use encoder_next.Crypto.Engine.{encrypt, decrypt, encrypt_evp}
use encoder_next.Crypto.EngineLaw.{decrypt-encrypt}
use encoder_next.Crypto.Toy.{
  toy_ssl, toy_law, toy_akrypt, toy_akrypt_law, toy_rand, toy_rand-Fills, toy_Described,
}

upper_name : cipher_from_string (codes " ChaCha20_Poly1305 ") ≡ some chacha20_poly1305
unfolding cipher_from_string normalize_cipher_name skip_spaces drop_last_spaces spec_named
upper_name = refl

-- A frame of Kuznechik, and a result of the engine.
abbrev a_frame : CryptoResult
a_frame = record {
  content =
      69 ∷ 78 ∷ 71 ∷ 79 ∷ 83 ∷ 84 ∷ 48 ∷ 50 ∷ 2 ∷ 16 ∷ 2 ∷ 0 ∷ 0 ∷ 0 ∷ 0 ∷ 0 ∷ 0 ∷ 0 ∷ 5 ∷ 5 ∷ 5 ∷ 5
      ∷ 5 ∷ 5 ∷ 5 ∷ 5 ∷ 5 ∷ 5 ∷ 5 ∷ 5 ∷ 5 ∷ 5 ∷ 5 ∷ 5 ∷ 41 ∷ 42 ∷ 5 ∷ 5 ∷ 5 ∷ 5 ∷ 5 ∷ 5 ∷ 5 ∷ 5 ∷ 5
      ∷ 5 ∷ 5 ∷ 5 ∷ 5 ∷ 5 ∷ 5 ∷ 5 ∷ [];
  key =
      5 ∷ 5 ∷ 5 ∷ 5 ∷ 5 ∷ 5 ∷ 5 ∷ 5 ∷ 5 ∷ 5 ∷ 5 ∷ 5 ∷ 5 ∷ 5 ∷ 5 ∷ 5 ∷ 5 ∷ 5 ∷ 5 ∷ 5 ∷ 5 ∷ 5 ∷ 5 ∷ 5
      ∷ 5 ∷ 5 ∷ 5 ∷ 5 ∷ 5 ∷ 5 ∷ 5 ∷ 5 ∷ [];
  iv = [];
  tag = [];
}

framed : gost_native_encrypt toy_akrypt kuznechik (40 ∷ 41 ∷ []) toy_rand toy_rand ≡ ok a_frame
unfolding gost_native_encrypt write_le clear_last
framed = refl

abbrev a_result : CryptoResult
a_result = record {
  content = 2 ∷ 3 ∷ [];
  key = 5 ∷ 5 ∷ 5 ∷ 5 ∷ [];
  iv = 5 ∷ 5 ∷ [];
  tag = 7 ∷ 7 ∷ 7 ∷ 7 ∷ 7 ∷ 7 ∷ 7 ∷ 7 ∷ 7 ∷ 7 ∷ 7 ∷ 7 ∷ 7 ∷ 7 ∷ 7 ∷ 7 ∷ [];
}

encrypted : encrypt true toy_ssl toy_akrypt aes_256_gcm (1 ∷ 2 ∷ []) toy_rand toy_rand ≡ ok a_result
unfolding encrypt encrypt_evp evp_encrypt_cipher spec_of
encrypted = refl

decrypt-encrypt_example :
    decrypt true toy_ssl toy_akrypt aes_256_gcm a_result.content a_result.key a_result.iv
      a_result.tag
    ≡ ok (record { content = 1 ∷ 2 ∷ []; key = []; iv = []; tag = [] })
decrypt-encrypt_example =
    decrypt-encrypt toy_ssl toy_law true toy_akrypt toy_akrypt_law toy_Described aes_256_gcm
      (1 ∷ 2 ∷ []) toy_rand toy_rand a_result toy_rand-Fills toy_rand-Fills encrypted

-- An old file: an IV and one block, which decrypts to fifteen bytes and a byte of padding.
abbrev old_file : Bytes
old_file =
    0 ∷ 0 ∷ 0 ∷ 0 ∷ 0 ∷ 0 ∷ 0 ∷ 0 ∷ 0 ∷ 0 ∷ 0 ∷ 0 ∷ 0 ∷ 0 ∷ 0 ∷ 0 ∷ 18 ∷ 18 ∷ 18 ∷ 18 ∷ 18 ∷ 18 ∷ 18
    ∷ 18 ∷ 18 ∷ 18 ∷ 18 ∷ 18 ∷ 18 ∷ 18 ∷ 18 ∷ 2 ∷ []

abbrev old_text : CryptoResult
old_text = record {
  content = 17 ∷ 17 ∷ 17 ∷ 17 ∷ 17 ∷ 17 ∷ 17 ∷ 17 ∷ 17 ∷ 17 ∷ 17 ∷ 17 ∷ 17 ∷ 17 ∷ 17 ∷ [];
  key = [];
  iv = [];
  tag = [];
}

abbrev old_digest : Bytes
old_digest = codes "111111111111111111111111111111"

recovered_old :
    gost_native_recover_legacy toy_akrypt toy_ssl old_file a_frame.key sha256 old_digest
    ≡ ok old_text
unfolding gost_native_recover_legacy recover_padded hash digest_of
recovered_old = refl

gost_native_recover_legacy-Trusted_example :
    (ctx : Bytes) × (plain : Bytes) × (setup toy_akrypt kuznechik a_frame.key ≡ some ctx)
    × (decrypt_blocks toy_akrypt ctx old_file ≡ some plain)
    × Trusted toy_akrypt toy_ssl sha256 old_digest plain old_text
gost_native_recover_legacy-Trusted_example =
    gost_native_recover_legacy-Trusted toy_akrypt toy_ssl sha256 old_digest old_file a_frame.key
      old_text recovered_old
