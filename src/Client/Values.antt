-- ===== src/Client/Values.antt =====
-- Texts without blanks that client/src/client_core.cpp puts into a header: names of ciphers and
-- digests, and Base64.
use encoder_next.Prelude.{
  ℕ, ◌+◌, ◌*◌, ◌/◌, ◌%◌, ◌^◌, ◌≡◌, refl, Bool, true, false, not, some, List, [], ◌∷◌, Bytes,
  IsBytes, all, is_empty, ◌==◌, if_cases, not_sep, arith,
}
use encoder_next.Encoding.Base64.{symbol, base64_encode}
use encoder_next.Encoding.Base64.RoundTrip.{passes, passes_at, base64_decode-encode}
use encoder_next.Crypto.Ciphers.{Cipher, index}
use encoder_next.Crypto.Specs.{CipherSpec, cipher_specs}
use encoder_next.Crypto.Names.{
  HashAlg, sha256, sha512, sha3_256, sha3_512, blake2b_512, streebog, spec_of, name_found,
  cipher_to_string, hash_to_string,
}
use encoder_next.Protocol.{is_blank, trim, trim_start, trim_end}
use encoder_next.Client.Embedded.{decoded, encoded}

abbrev pub is_solid : ℕ → Bool
is_solid c = not (is_blank c)

-- A value that a header takes and gives back.
abbrev pub IsValue : Bytes → Type 0
IsValue v = (all (not_sep 10) v ≡ true) × (trim v ≡ v)

trim_end_solid : (v : Bytes) → all is_solid v ≡ true → trim_end v ≡ v
unfolding trim_end
trim_end_solid [] h = refl
trim_end_solid (c ∷ cs) h =
    let rest = trim_end_solid cs (ground arith) in
    let solid : is_blank c ≡ false = ground arith in rw (rest, solid) refl

not_line_end : (v : Bytes) → all is_solid v ≡ true → all (not_sep 10) v ≡ true
not_line_end [] h = refl
not_line_end (c ∷ cs) h = ground (arith, not_line_end cs)

pub solid-IsValue : (v : Bytes) → all is_solid v ≡ true → IsValue v
unfolding trim trim_start trim_end
solid-IsValue [] h = (refl, refl)
solid-IsValue (c ∷ cs) h =
    let solid : is_blank c ≡ false = ground arith in
    (not_line_end (c ∷ cs) h, rw solid (trim_end_solid (c ∷ cs) h))

symbol_table : passes (λ i. is_solid (symbol i)) 64 ≡ true
unfolding passes
symbol_table = refl

symbol_solid : (i : ℕ) → is_solid (symbol (i % 64)) ≡ true
symbol_solid i = passes_at (λ i. is_solid (symbol i)) (i % 64) 64 (omega arith) symbol_table

pub base64_encode_solid : (bytes : Bytes) → all is_solid (base64_encode bytes) ≡ true
unfolding base64_encode
base64_encode_solid [] = refl
base64_encode_solid (a ∷ []) =
    let t = a * 65536 in rw (symbol_solid (t / 2 ^ 18), symbol_solid (t / 2 ^ 12)) refl
base64_encode_solid (a ∷ b ∷ []) =
    let t = a * 65536 + b * 256 in
    rw (symbol_solid (t / 2 ^ 18), symbol_solid (t / 2 ^ 12), symbol_solid (t / 2 ^ 6)) refl
base64_encode_solid (a ∷ b ∷ c ∷ rest) =
    let t = a * 65536 + b * 256 + c in
    rw
      (
        symbol_solid (t / 2 ^ 18),
        symbol_solid (t / 2 ^ 12),
        symbol_solid (t / 2 ^ 6),
        symbol_solid t,
      )
      (base64_encode_solid rest)

pub base64_encode_some : (bytes : Bytes) → is_empty (base64_encode bytes) ≡ is_empty bytes
unfolding base64_encode
base64_encode_some [] = refl
base64_encode_some (a ∷ []) = refl
base64_encode_some (a ∷ b ∷ []) = refl
base64_encode_some (a ∷ b ∷ c ∷ rest) = refl

-- The field of bytes gives them back.
pub decoded-base64_encode :
    (bytes : Bytes) → IsBytes bytes → decoded (base64_encode bytes) ≡ some bytes
unfolding decoded base64_encode
decoded-base64_encode [] h = refl
decoded-base64_encode (b ∷ bs) h =
    rw (base64_encode_some (b ∷ bs), base64_decode-encode (b ∷ bs) h) refl

pub decoded-encoded : (bytes : Bytes) → IsBytes bytes → decoded (encoded bytes) ≡ some bytes
unfolding decoded
decoded-encoded [] h = refl
decoded-encoded (b ∷ bs) h = decoded-base64_encode (b ∷ bs) h

pub encoded-IsValue : (bytes : Bytes) → IsValue (encoded bytes)
encoded-IsValue [] = solid-IsValue [] refl
encoded-IsValue (b ∷ bs) = solid-IsValue (base64_encode (b ∷ bs)) (base64_encode_solid (b ∷ bs))

named_solid :
    (c : Cipher) (rows : List CipherSpec)
    → all (λ s. all is_solid s.wire_name) rows ≡ true
    → all is_solid (name_found (spec_of c rows)) ≡ true
unfolding spec_of
named_solid c [] h = refl
named_solid c (s ∷ rows) h =
    if_cases (λ o. all is_solid (name_found o) ≡ true) (index s.cipher == index c) (some s)
      (spec_of c rows) (λ e. ground arith) (λ e. named_solid c rows (ground arith))

names_solid : all (λ (s : CipherSpec). all is_solid s.wire_name) cipher_specs ≡ true
names_solid = refl

pub cipher_to_string-IsValue : (c : Cipher) → IsValue (cipher_to_string c)
unfolding cipher_to_string
cipher_to_string-IsValue c =
    solid-IsValue (cipher_to_string c) (named_solid c cipher_specs names_solid)

hash_solid : (a : HashAlg) → all is_solid (hash_to_string a) ≡ true
unfolding hash_to_string
hash_solid sha256 = refl
hash_solid sha512 = refl
hash_solid sha3_256 = refl
hash_solid sha3_512 = refl
hash_solid blake2b_512 = refl
hash_solid streebog = refl

pub hash_to_string-IsValue : (a : HashAlg) → IsValue (hash_to_string a)
hash_to_string-IsValue a = solid-IsValue (hash_to_string a) (hash_solid a)
