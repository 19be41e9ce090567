-- ===== src/Crypto/Gost.antt =====
-- common/src/gost_native.cpp: the GOST ciphers of a build with ENCODER_NATIVE_GOST.
-- The library libakrypt is a parameter. A size is below 2 ^ 64, and the mutex is left out.
use encoder_next.Prelude.{
  ℕ, zero, suc, ◌+◌, ◌-◌, ◌*◌, ◌/◌, ◌%◌, Bool, not, ◌&&◌, Option, some, [], ◌∷◌, ◌++◌, Bytes,
  length, is_empty, take, drop, get_or, all, bytes_eq, leb, ◌==◌, Result, ok, err, ◌>>=◌, ◌>>◌,
  attempt, require, if◌then◌else◌, String,
}
use encoder_next.Crypto.Ciphers.{Cipher, kuznechik, magma}
use encoder_next.Crypto.Names.{HashAlg}
use encoder_next.Crypto.OpenSsl.{OpenSsl}
use encoder_next.Crypto.Digest.{hash}

pub record CryptoResult : Type 0 where
  pub content : Bytes
  pub key : Bytes
  pub iv : Bytes
  pub tag : Bytes

-- libakrypt: whether it starts and passes its own tests, a key in the form of a cipher, and the modes
-- MGM, with the header that is authenticated, the text and the IV (and the tag), and CBC.
pub record Akrypt : Type 1 where
  pub Key : Type 0
  pub ready : Bool
  pub magma_key : Bytes → Option Key
  pub kuznechik_key : Bytes → Option Key
  pub encrypt_mgm : Key → Bytes → Bytes → Bytes → Option (Bytes × Bytes)
  pub decrypt_mgm : Key → Bytes → Bytes → Bytes → Bytes → Option Bytes
  pub decrypt_cbc : Key → Bytes → Bytes → Option Bytes

abbrev pub header_size : ℕ
header_size = 18

abbrev pub max_size : ℕ
max_size = 104857600

-- "ENGOST02".
abbrev pub magic : Bytes
magic = 69 ∷ 78 ∷ 71 ∷ 79 ∷ 83 ∷ 84 ∷ 48 ∷ 50 ∷ []

abbrev pub failure : String
failure = "GOST-MGM operation failed or data authentication rejected"

-- `id`: 0 is no cipher of this kind.
abbrev pub id_of : Cipher → ℕ
id_of magma = 1
id_of kuznechik = 2
id_of _ = 0

abbrev pub block_of : Cipher → ℕ
block_of magma = 8
block_of _ = 16

-- The eight bytes of a size, the low one first; the first argument is what is still to be written.
unfoldable pub write_le : ℕ → ℕ → Bytes
write_le zero value = []
write_le (suc n) value = (value % 256) ∷ write_le n (value / 256)

unfoldable pub read_le : Bytes → ℕ
read_le [] = 0
read_le (b ∷ bs) = b + 256 * read_le bs

abbrev pub clear_first : Bytes → Bytes
clear_first [] = []
clear_first (b ∷ bs) = (b % 128) ∷ bs

unfoldable pub clear_last : Bytes → Bytes
clear_last [] = []
clear_last (b ∷ []) = (b % 128) ∷ []
clear_last (b ∷ c ∷ bs) = b ∷ clear_last (c ∷ bs)

abbrev pub frame_header : Cipher → ℕ → Bytes
frame_header cipher size = magic ++ (id_of cipher ∷ block_of cipher ∷ write_le 8 size)

-- The guards of `gost_native_decrypt`, in their order.
abbrev pub takes : Cipher → Bytes → Bytes → Bool
takes cipher frame key =
    not (id_of cipher == 0) && length key == 32 && leb header_size (length frame)

abbrev pub marked : Cipher → Bytes → Bool
marked cipher frame =
    bytes_eq magic (take 8 frame)
    && get_or frame 8 0 == id_of cipher
    && get_or frame 9 0 == block_of cipher

abbrev pub frame_size : Bytes → ℕ
frame_size frame = read_le (take 8 (drop 10 frame))

abbrev pub sized : ℕ → ℕ → Bytes → Bool
sized block size frame = leb size max_size && length frame == header_size + block * 2 + size

-- The last byte, if it is a padding of that length.
abbrev pub is_padded : Bytes → ℕ → Bool
is_padded plain padding =
    not (padding == 0)
    && leb padding 15
    && all (λ value. value == padding) (drop (length plain - padding) plain)

abbrev pub recovered : Bytes → CryptoResult
recovered plain = record { content = plain; key = []; iv = []; tag = [] }

-- A failure under the message of this file.
abbrev pub relabel {ℓ} : {A : Type ℓ} → Result A → Result A
relabel (ok a) = ok a
relabel (err e) = err failure

module _ (ak : Akrypt) where
  abbrev pub setup : Cipher → Bytes → Option ak.Key
  setup magma key = ak.magma_key key
  setup _ key = ak.kuznechik_key key

  -- The arguments behind the plaintext are what `RAND_bytes` gives for the key and for the IV.
  unfoldable pub gost_native_encrypt :
      Cipher → Bytes → (ℕ → Option Bytes) → (ℕ → Option Bytes) → Result CryptoResult
  gost_native_encrypt cipher plain rand_key rand_iv = do
    require (not (id_of cipher == 0) && leb (length plain) max_size) failure
    require ak.ready failure
    let header = frame_header cipher (length plain)
    key ← attempt (rand_key 32) failure
    random ← attempt (rand_iv (block_of cipher)) failure
    let iv = clear_last (clear_first random)
    ctx ← attempt (setup cipher key) failure
    sealed ← attempt (ak.encrypt_mgm ctx header plain iv) failure
    ok (record { content = header ++ (iv ++ (sealed.0 ++ sealed.1)); key = key; iv = []; tag = [] })

  -- The call of MGM on the parts of a frame with a text of that size.
  abbrev pub open_frame : ak.Key → ℕ → ℕ → Bytes → Option Bytes
  open_frame ctx block size frame =
      let rest = drop header_size frame in
      let body = drop block rest in
      ak.decrypt_mgm ctx (take header_size frame) (take size body) (take block rest)
        (drop size body)

  unfoldable pub gost_native_decrypt : Cipher → Bytes → Bytes → Result CryptoResult
  gost_native_decrypt cipher frame key = do
    require (takes cipher frame key) failure
    require (marked cipher frame) failure
    require (sized (block_of cipher) (frame_size frame) frame) failure
    require ak.ready failure
    ctx ← attempt (setup cipher key) failure
    plain ← attempt (open_frame ctx (block_of cipher) (frame_size frame) frame) failure
    ok (record { content = plain; key = []; iv = []; tag = [] })

  -- CBC is called only if there is anything behind the IV.
  abbrev pub decrypt_blocks : ak.Key → Bytes → Option Bytes
  decrypt_blocks ctx frame =
      if is_empty (drop 16 frame)
      then some []
      else ak.decrypt_cbc ctx (drop 16 frame) (take 16 frame)

  module _ (ssl : OpenSsl) where
    -- The part behind the first digest, which did not match.
    unfoldable pub recover_padded : HashAlg → Bytes → Bytes → Result CryptoResult
    recover_padded alg digest plain = do
      require (not (is_empty plain)) failure
      let padding = get_or plain (length plain - 1) 0
      require (is_padded plain padding) failure
      let shorter = take (length plain - padding) plain
      again ← relabel (hash ssl alg shorter)
      require (bytes_eq again.hex digest) failure
      ok (recovered shorter)

    unfoldable pub gost_native_recover_legacy :
        Bytes → Bytes → HashAlg → Bytes → Result CryptoResult
    gost_native_recover_legacy frame key alg digest = do
      require
          (length key == 32
            && leb 16 (length frame)
            && (length frame - 16) % 16 == 0
            && leb (length frame) (max_size + 32)
            && not (is_empty digest))
          failure
      require ak.ready failure
      ctx ← attempt (setup kuznechik key) failure
      plain ← attempt (decrypt_blocks ctx frame) failure
      calculated ← hash ssl alg plain
      if bytes_eq calculated.hex digest
          then ok (recovered plain)
          else recover_padded alg digest plain
