-- ===== src/Client/Embedded.antt =====
-- Encrypted files with a header of client/src/client_core.cpp: `write_embedded_file`,
-- `read_embedded_file` and `extract_metadata_from_header`.
use encoder_next.Prelude.{
  Bool, true, false, ◌&&◌, Option, none, some, [], ◌∷◌, ◌++◌, Bytes, codes, bytes_eq, has_prefix,
  is_empty, drop, ◌==◌, if◌then◌else◌, Map, find, Result, ok, err, ◌>>=◌, attempt,
}
use encoder_next.Encoding.Base64.{base64_encode, base64_decode}
use encoder_next.Crypto.Names.{
  cipher_to_string, cipher_from_string, hash_to_string, hash_from_string,
}
use encoder_next.Protocol.{Header, get, set, serialize, parse, cons_before}
use encoder_next.Server.Context.{Written}
use encoder_next.Server.Keys.{write_file}
use encoder_next.Client.{EncryptParams, EncryptResult, Metadata}

abbrev pub magic : Bytes
magic = codes "CIPHEATOR" ++ (10 ∷ [])

-- A field that is set unless its value is empty.
unfoldable pub set_some : Bytes → Bytes → Header → Header
set_some name value h = if is_empty value then h else set name value h

abbrev pub encoded : Bytes → Bytes
encoded bytes = if is_empty bytes then [] else base64_encode bytes

-- The fields that every file has.
abbrev pub first_fields : EncryptParams → Bytes → Header
first_fields params key_storage = set (codes "key_storage") key_storage (
    set (codes "hash") (hash_to_string params.hash) (
      set (codes "cipher") (cipher_to_string params.cipher) (set (codes "version") (codes "1") [])))

abbrev pub optional_fields : EncryptResult → Header → Header
optional_fields r h =
    let ids = set_some (codes "key_id") r.key_id (set_some (codes "file_id") r.file_id h) in
    set_some (codes "tag") (encoded r.tag)
      (set_some (codes "iv") (encoded r.iv) (set_some (codes "hash_value") r.hash_value ids))

abbrev pub key_field : EncryptResult → Bytes → Header → Result Header
key_field r key_storage h =
    if bytes_eq key_storage (codes "client")
    then (if is_empty r.key
        then err "Missing client key"
        else ok (set (codes "key") (base64_encode r.key) h))
    else ok h

unfoldable pub embedded_header : EncryptParams → EncryptResult → Bytes → Result Header
embedded_header params r key_storage =
    key_field r key_storage (optional_fields r (first_fields params key_storage))

abbrev pub embedded_bytes : Header → Bytes → Bytes
embedded_bytes header enc_data = magic ++ (serialize header ++ enc_data)

abbrev pub write_result : Bool × Map Bytes → Result (Unit {0}) × Map Bytes
write_result (true, files) = (ok tt, files)
write_result (false, files) = (err "Failed to write encrypted file", files)

abbrev pub write_header_and_data :
    Written → Bytes → Bytes → Result Header → Map Bytes → Result (Unit {0}) × Map Bytes
write_header_and_data w path enc_data (err message) files = (err message, files)
write_header_and_data w path enc_data (ok header) files =
    write_result (write_file w path (embedded_bytes header enc_data) files)

unfoldable pub write_embedded_file :
    Written
    → Bytes
    → EncryptParams
    → EncryptResult
    → Bytes
    → Bytes
    → Map Bytes
    → Result (Unit {0}) × Map Bytes
write_embedded_file w path params r key_storage enc_data files =
    write_header_and_data w path enc_data (embedded_header params r key_storage) files

pub data EmbeddedReadResult : Type 0 where
  not_embedded : Bytes → EmbeddedReadResult
  embedded : Header → Bytes → EmbeddedReadResult
  unreadable : Bytes → EmbeddedReadResult

-- Up to the first two line ends in a row, with them, and the rest.
unfoldable pub split_end : Bytes → Option (Bytes × Bytes)
split_end [] = none
split_end (c ∷ []) = none
split_end (c ∷ d ∷ rest) =
    let later = split_end (d ∷ rest) in
    if (c == 10) && (d == 10) then some (c ∷ d ∷ [], rest) else cons_before c later

abbrev pub read_split : Option (Bytes × Bytes) → EmbeddedReadResult
read_split none = unreadable (codes "Invalid embedded header")
read_split (some (header, ciphertext)) = embedded (parse header) ciphertext

unfoldable pub read_embedded : Bytes → EmbeddedReadResult
read_embedded file =
    if has_prefix magic file then read_split (split_end (drop 10 file)) else not_embedded file

abbrev pub read_found : Option Bytes → EmbeddedReadResult
read_found none = unreadable (codes "Failed to read file")
read_found (some file) = read_embedded file

unfoldable pub read_embedded_file : Bytes → Map Bytes → EmbeddedReadResult
read_embedded_file path files = read_found (find path files)

-- An empty text stands for no bytes.
unfoldable pub decoded : Bytes → Option Bytes
decoded text =
    if is_empty text
    then some []
    else if (base64_decode text).1
    then some (base64_decode text).0
    else none

unfoldable pub extract_metadata_from_header : Header → Result Metadata
extract_metadata_from_header hdr = do
  cipher ←
      attempt (cipher_from_string (get (codes "cipher") [] hdr)) "Invalid cipher in embedded header"
  hash ← attempt (hash_from_string (get (codes "hash") [] hdr)) "Invalid hash in embedded header"
  key ← attempt (decoded (get (codes "key") [] hdr)) "Invalid key in embedded header"
  iv ← attempt (decoded (get (codes "iv") [] hdr)) "Invalid iv in embedded header"
  tag ← attempt (decoded (get (codes "tag") [] hdr)) "Invalid tag in embedded header"
  ok (record {
    key_storage = get (codes "key_storage") (codes "server") hdr;
    file_id = get (codes "file_id") [] hdr;
    key_id = get (codes "key_id") [] hdr;
    hash_value = get (codes "hash_value") [] hdr;
    key_file = [];
    cipher = cipher;
    hash = hash;
    key = key;
    iv = iv;
    tag = tag;
  })
