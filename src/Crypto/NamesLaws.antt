-- ===== src/Crypto/NamesLaws.antt =====
-- Which names common/src/crypto.cpp reads, and as which ciphers and digests.
use encoder_next.Prelude.{
  ◌≡◌, refl, ◌↔◌, inl, inr, Bool, true, some, List, [], ◌∷◌, Bytes, bytes_eq, bytes_eq_sound, ap,
  ◌∙◌, sym, arith, Bool-cases, all,
}
use encoder_next.Crypto.Ciphers.{
  Cipher, kuznechik, magma, chacha20, chacha20_poly1305, aes_128_ecb, aes_128_cbc, aes_128_cfb,
  aes_128_ofb, aes_128_ctr, aes_128_gcm, aes_128_ccm, aes_128_xts, aes_128_ocb, aes_192_ecb,
  aes_192_cbc, aes_192_cfb, aes_192_ofb, aes_192_ctr, aes_192_gcm, aes_192_ccm, aes_192_ocb,
  aes_256_ecb, aes_256_cbc, aes_256_cfb, aes_256_ofb, aes_256_ctr, aes_256_gcm, aes_256_ccm,
  aes_256_xts, aes_256_ocb, twofish_128_ecb, twofish_128_cbc, twofish_128_cfb, twofish_128_ofb,
  twofish_128_ctr, twofish_192_ecb, twofish_192_cbc, twofish_192_cfb, twofish_192_ofb,
  twofish_192_ctr, twofish_256_ecb, twofish_256_cbc, twofish_256_cfb, twofish_256_ofb,
  twofish_256_ctr, des_ecb, des_cbc, des_cfb, des_ofb, des_ctr, rc4, rc4_40, rc4_128,
}
use encoder_next.Crypto.Specs.{CipherSpec, cipher_specs}
use encoder_next.Crypto.Names.{
  HashAlg, sha256, sha512, sha3_256, sha3_512, blake2b_512, streebog, normalize_cipher_name,
  skip_spaces, drop_last_spaces, spec_of, spec_named, cipher_found, cipher_to_string,
  cipher_from_string, hash_to_string, hash_from_string,
}

-- The name of a cipher is in normal form, and its row is found under it.
name_row :
    (c : Cipher)
    → (normalize_cipher_name (cipher_to_string c) ≡ cipher_to_string c)
      × (cipher_found (spec_named (cipher_to_string c) cipher_specs) ≡ some c)
unfolding cipher_to_string spec_of spec_named normalize_cipher_name skip_spaces drop_last_spaces
name_row kuznechik = (refl, refl)
name_row magma = (refl, refl)
name_row chacha20 = (refl, refl)
name_row chacha20_poly1305 = (refl, refl)
name_row aes_128_ecb = (refl, refl)
name_row aes_128_cbc = (refl, refl)
name_row aes_128_cfb = (refl, refl)
name_row aes_128_ofb = (refl, refl)
name_row aes_128_ctr = (refl, refl)
name_row aes_128_gcm = (refl, refl)
name_row aes_128_ccm = (refl, refl)
name_row aes_128_xts = (refl, refl)
name_row aes_128_ocb = (refl, refl)
name_row aes_192_ecb = (refl, refl)
name_row aes_192_cbc = (refl, refl)
name_row aes_192_cfb = (refl, refl)
name_row aes_192_ofb = (refl, refl)
name_row aes_192_ctr = (refl, refl)
name_row aes_192_gcm = (refl, refl)
name_row aes_192_ccm = (refl, refl)
name_row aes_192_ocb = (refl, refl)
name_row aes_256_ecb = (refl, refl)
name_row aes_256_cbc = (refl, refl)
name_row aes_256_cfb = (refl, refl)
name_row aes_256_ofb = (refl, refl)
name_row aes_256_ctr = (refl, refl)
name_row aes_256_gcm = (refl, refl)
name_row aes_256_ccm = (refl, refl)
name_row aes_256_xts = (refl, refl)
name_row aes_256_ocb = (refl, refl)
name_row twofish_128_ecb = (refl, refl)
name_row twofish_128_cbc = (refl, refl)
name_row twofish_128_cfb = (refl, refl)
name_row twofish_128_ofb = (refl, refl)
name_row twofish_128_ctr = (refl, refl)
name_row twofish_192_ecb = (refl, refl)
name_row twofish_192_cbc = (refl, refl)
name_row twofish_192_cfb = (refl, refl)
name_row twofish_192_ofb = (refl, refl)
name_row twofish_192_ctr = (refl, refl)
name_row twofish_256_ecb = (refl, refl)
name_row twofish_256_cbc = (refl, refl)
name_row twofish_256_cfb = (refl, refl)
name_row twofish_256_ofb = (refl, refl)
name_row twofish_256_ctr = (refl, refl)
name_row des_ecb = (refl, refl)
name_row des_cbc = (refl, refl)
name_row des_cfb = (refl, refl)
name_row des_ofb = (refl, refl)
name_row des_ctr = (refl, refl)
name_row rc4 = (refl, refl)
name_row rc4_40 = (refl, refl)
name_row rc4_128 = (refl, refl)

-- A row has the name that its cipher has.
abbrev own_name : CipherSpec → Bool
own_name s = bytes_eq (cipher_to_string s.cipher) s.wire_name

own_names : all own_name cipher_specs ≡ true
unfolding cipher_to_string spec_of
own_names = refl

spec_named_own :
    (name : Bytes) (c : Cipher) (rows : List CipherSpec)
    → all own_name rows ≡ true
    → cipher_found (spec_named name rows) ≡ some c
    → name ≡ cipher_to_string c
unfolding spec_named
spec_named_own name c [] h k = absurd (cc k)
spec_named_own name c (s ∷ rows) h k = elim (Bool-cases (bytes_eq name s.wire_name)) [
  | inl e ↦
      let same : s.cipher ≡ c = cc (rw (e, spec_named) at k) in
      let own : bytes_eq (cipher_to_string s.cipher) s.wire_name ≡ true = ground arith in
      bytes_eq_sound _ _ e ∙ sym (bytes_eq_sound _ _ own) ∙ ap cipher_to_string same
  | inr e ↦ spec_named_own name c rows (ground arith) (rw (e, spec_named) at k)
]

-- A text is read as a cipher exactly if, without the blanks around it, in lower case and with dashes
-- for underscores, it is the name of that cipher.
pub cipher_from_string_iff :
    (c : Cipher) (value : Bytes)
    → (cipher_from_string value ≡ some c) ↔ (normalize_cipher_name value ≡ cipher_to_string c)
unfolding cipher_from_string
cipher_from_string_iff c value = (
  spec_named_own (normalize_cipher_name value) c cipher_specs own_names,
  λ e. ap (λ name. cipher_found (spec_named name cipher_specs)) e ∙ (name_row c).1,
)

hash_names : (a : HashAlg) → hash_from_string (hash_to_string a) ≡ some a
unfolding hash_from_string hash_to_string normalize_cipher_name skip_spaces drop_last_spaces
hash_names sha256 = refl
hash_names sha512 = refl
hash_names sha3_256 = refl
hash_names sha3_512 = refl
hash_names blake2b_512 = refl
hash_names streebog = refl

-- The name of a cipher reads as that cipher, and the name of a digest as that digest.
pub cipher_from_string-cipher_to_string :
    (c : Cipher) (a : HashAlg)
    → (cipher_from_string (cipher_to_string c) ≡ some c)
      × (hash_from_string (hash_to_string a) ≡ some a)
cipher_from_string-cipher_to_string c a =
    ((cipher_from_string_iff c (cipher_to_string c)).1 (name_row c).0, hash_names a)
