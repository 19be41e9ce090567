-- ===== src/Server/Decrypt.antt =====
-- `handle_decrypt` of server/src/main.cpp. Zeroing the buffers is left out.
use encoder_next.Prelude.{
  ℕ, Bool, true, false, not, ◌&&◌, ◌||◌, Option, none, some, [], ◌∷◌, ◌++◌, Bytes, codes, bytes_eq,
  length, is_empty, take, ltb, decimal, if◌then◌else◌,
}
use encoder_next.Encoding.Base64.{base64_decode}
use encoder_next.Protocol.{Header, get, set}
use encoder_next.Crypto.Ciphers.{Cipher, kuznechik, magma}
use encoder_next.Crypto.Names.{cipher_from_string, hash_from_string}
use encoder_next.Crypto.Digest.{HashResult, hash}
use encoder_next.Crypto.Gost.{CryptoResult, magic}
use encoder_next.Crypto.Engine.{decrypt, recover_legacy_gost}
use encoder_next.Server.Context.{
  ServerContext, Env, Setup, Step, Note, event, alert, done, ◌>>=◌, ◌>>◌, answer, reads, or_refuse,
  insist, change, note,
}
use encoder_next.Server.Keys.{
  StoredKey, HashRecord, load_key, load_hash_record, key_path, hash_path,
}
use encoder_next.Server.Access.{user_of, may_decrypt, admit}
use encoder_next.Server.Encrypt.{engine, read_exact, file_op}

-- Base64 text of the request; `none` is a text that does not decode.
abbrev decoded : Bytes × Bool → Option Bytes
decoded (bytes, fine) = if fine then some bytes else none

abbrev full_key : Option Bytes → Option Bytes
full_key none = none
full_key (some key) = if is_empty key then none else some key

-- A field that may be missing.
abbrev optional : Bytes → Option Bytes
optional text = if is_empty text then some [] else decoded (base64_decode text)

abbrev pub own_key : Header → Option Bytes
own_key req = full_key (decoded (base64_decode (get (codes "key") [] req)))

abbrev pub own_iv : Header → Option Bytes
own_iv req = optional (get (codes "iv") [] req)

abbrev pub own_tag : Header → Option Bytes
own_tag req = optional (get (codes "tag") [] req)

abbrev is_gost : Cipher → Bool
is_gost kuznechik = true
is_gost magma = true
is_gost _ = false

-- A GOST file without the mark of the new frames.
abbrev pub is_legacy : Cipher → Bytes → Bool
is_legacy cipher ciphertext =
    is_gost cipher && (ltb (length ciphertext) 8 || not (bytes_eq (take 8 ciphertext) magic))

abbrev note_if : Bool → Note → Step (Unit {0})
note_if b n ctx = done tt (record ctx { notes = if b then n ∷ ctx.notes else ctx.notes })

abbrev pub decrypt_denied : Bytes
decrypt_denied = codes "Decryption is not allowed for this account"

module _ (setup : Setup) (env : Env) where
  -- The key, IV and tag: from the server's file, or from the request.
  unfoldable pub key_for : Header → Step StoredKey
  key_for req = do
    let key_id = get (codes "key_id") [] req
    let stored = reads (λ ctx. load_key (key_path setup key_id) ctx.files)
    let own = do
      key ← or_refuse (own_key req) (codes "Invalid key")
      iv ← or_refuse (own_iv req) (codes "Invalid IV")
      tag ← or_refuse (own_tag req) (codes "Invalid tag")
      answer (record { key = key; iv = iv; tag = tag })
    if is_empty key_id then own else (stored >>= λ found. or_refuse found (codes "Key not found"))

  abbrev legacy_refusal : Bytes
  legacy_refusal = codes "Legacy GOST requires the original trusted server hash record"

  -- The record of a digest that the request names.
  abbrev pub record_of : Header → ServerContext → Option HashRecord
  record_of req ctx = load_hash_record (hash_path setup (get (codes "file_id") [] req)) ctx.files

  -- An old file: only the server's own record of its digest lets it be opened.
  unfoldable pub open_legacy : Header → Bytes → Bytes → Step CryptoResult
  open_legacy req ciphertext key = do
    insist (not (is_empty (get (codes "file_id") [] req))) legacy_refusal
    found ← reads (record_of req)
    trusted ← or_refuse found legacy_refusal
    alg ← or_refuse (hash_from_string trusted.alg) legacy_refusal
    engine (recover_legacy_gost setup.native setup.ssl setup.ak ciphertext key alg trusted.hex)
        (codes "Decrypt failed: ")

  unfoldable pub open_file : Header → Cipher → Bytes → StoredKey → Step CryptoResult
  open_file req cipher ciphertext k =
      if is_legacy cipher ciphertext
      then open_legacy req ciphertext k.key
      else engine (decrypt setup.native setup.ssl setup.ak cipher ciphertext k.key k.iv k.tag)
          (codes "Decrypt failed: ")

  abbrev mismatch_detail : Header → HashRecord → Bytes
  mismatch_detail req r =
      codes "file_id="
      ++ get (codes "file_id") [] req
      ++ codes " request="
      ++ get (codes "hash") [] req
      ++ codes " stored="
      ++ r.alg

  abbrev failed_detail : Header → HashRecord → HashResult → Bytes
  failed_detail req r digest =
      codes "file_id="
      ++ get (codes "file_id") [] req
      ++ codes " expected="
      ++ r.hex
      ++ codes " got="
      ++ digest.hex

  -- The digest of the text against the server's record.
  unfoldable pub check_digest : Header → CryptoResult → Step (Unit {0})
  check_digest req r = do
    found ← reads (record_of req)
    trusted ← or_refuse found (codes "Hash record not found")
    let hash_str = get (codes "hash") [] req
    note_if (not (is_empty hash_str) && not (bytes_eq hash_str trusted.alg))
        (event (codes "hash_mismatch") (user_of req) (mismatch_detail req trusted))
    alg ← or_refuse (hash_from_string trusted.alg) (codes "Unknown hash algorithm")
    digest ← engine (hash setup.ssl alg r.content) (codes "Hash failed: ")
    note_if (not (bytes_eq digest.hex trusted.hex))
        (alert (codes "integrity_failed") (user_of req) (failed_detail req trusted digest))
    insist (bytes_eq digest.hex trusted.hex) (codes "Integrity check failed")

  -- It is checked only if the request names a file.
  abbrev pub check_named : Header → CryptoResult → Step (Unit {0})
  check_named req r =
      if is_empty (get (codes "file_id") [] req) then answer tt else check_digest req r

  abbrev decrypt_detail : Header → ℕ → CryptoResult → Bytes
  decrypt_detail req file_size r =
      codes "file_id="
      ++ get (codes "file_id") [] req
      ++ codes " enc_size="
      ++ decimal file_size
      ++ codes " plain_size="
      ++ decimal (length r.content)
      ++ codes " cipher="
      ++ get (codes "cipher") [] req

  abbrev pub decrypt_header : CryptoResult → Header
  decrypt_header r =
      set (codes "plain_size") (decimal (length r.content)) (set (codes "status") (codes "ok") [])

  -- What is left once the client is admitted.
  unfoldable pub decrypt_admitted : Header → ℕ → Step (Header × Bytes)
  decrypt_admitted req file_size = do
    cipher ← or_refuse (cipher_from_string (get (codes "cipher") [] req)) (codes "Unknown cipher")
    ciphertext ← or_refuse (read_exact file_size env.stream) (codes "Failed to read file")
    k ← key_for req
    r ← open_file req cipher ciphertext k
    check_named req r
    change (file_op setup env (user_of req) (codes "decrypt") (length r.content))
    note (event (codes "decrypt") (user_of req) (decrypt_detail req file_size r))
    answer (decrypt_header r, r.content)

  unfoldable pub handle_decrypt : Header → Step (Header × Bytes)
  handle_decrypt req = do
    file_size ← admit setup env req (codes "decrypt") may_decrypt decrypt_denied
    decrypt_admitted req file_size
