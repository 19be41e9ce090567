-- ===== src/Crypto/Names.antt =====
-- The names of ciphers and digests in common/src/crypto.cpp.
-- A name is a byte string; `std::isspace` and `std::tolower` are those of the C locale.
use encoder_next.Prelude.{
  ℕ, ◌+◌, Bool, ◌||◌, Option, none, some, List, [], ◌∷◌, Bytes, codes, bytes_eq, ◌==◌,
  if◌then◌else◌, between, is_empty, map, ◌&&◌,
}
use encoder_next.Crypto.Ciphers.{Cipher, index}
use encoder_next.Crypto.Specs.{CipherSpec, cipher_specs}

pub data HashAlg : Type 0 where
  sha256 : HashAlg
  sha512 : HashAlg
  sha3_256 : HashAlg
  sha3_512 : HashAlg
  blake2b_512 : HashAlg
  streebog : HashAlg

abbrev is_space : ℕ → Bool
is_space c = c == b' ' || between 9 13 c

unfoldable pub skip_spaces : Bytes → Bytes
skip_spaces [] = []
skip_spaces (c ∷ cs) = let rest = skip_spaces cs in if is_space c then rest else c ∷ cs

unfoldable pub drop_last_spaces : Bytes → Bytes
drop_last_spaces [] = []
drop_last_spaces (c ∷ cs) =
    let rest = drop_last_spaces cs in if is_space c && is_empty rest then [] else c ∷ rest

abbrev pub fold_char : ℕ → ℕ
fold_char c = if c == b'_' then b'-' else if between b'A' b'Z' c then c + 32 else c

unfoldable pub normalize_cipher_name : Bytes → Bytes
normalize_cipher_name value = map fold_char (drop_last_spaces (skip_spaces value))

-- `find_cipher_spec` on a cipher, and on a name that is normalised already.
unfoldable pub spec_of : Cipher → List CipherSpec → Option CipherSpec
spec_of c [] = none
spec_of c (s ∷ rest) = if index s.cipher == index c then some s else spec_of c rest

unfoldable pub spec_named : Bytes → List CipherSpec → Option CipherSpec
spec_named name [] = none
spec_named name (s ∷ rest) = if bytes_eq name s.wire_name then some s else spec_named name rest

abbrev pub name_found : Option CipherSpec → Bytes
name_found none = codes "unknown"
name_found (some s) = s.wire_name

unfoldable pub cipher_to_string : Cipher → Bytes
cipher_to_string c = name_found (spec_of c cipher_specs)

abbrev pub cipher_found : Option CipherSpec → Option Cipher
cipher_found none = none
cipher_found (some s) = some s.cipher

unfoldable pub cipher_from_string : Bytes → Option Cipher
cipher_from_string value = cipher_found (spec_named (normalize_cipher_name value) cipher_specs)

unfoldable pub hash_to_string : HashAlg → Bytes
hash_to_string sha256 = codes "sha256"
hash_to_string sha512 = codes "sha512"
hash_to_string sha3_256 = codes "sha3-256"
hash_to_string sha3_512 = codes "sha3-512"
hash_to_string blake2b_512 = codes "blake2b-512"
hash_to_string streebog = codes "streebog"

abbrev pub hash_named : Bytes → Option HashAlg
hash_named v =
    if bytes_eq v (codes "sha256")
    then some sha256
    else if bytes_eq v (codes "sha512")
    then some sha512
    else if bytes_eq v (codes "sha3-256")
    then some sha3_256
    else if bytes_eq v (codes "sha3-512")
    then some sha3_512
    else if bytes_eq v (codes "blake2b-512") || bytes_eq v (codes "blake2b512")
    then some blake2b_512
    else if bytes_eq v (codes "streebog")
    then some streebog
    else none

unfoldable pub hash_from_string : Bytes → Option HashAlg
hash_from_string value = hash_named (normalize_cipher_name value)
