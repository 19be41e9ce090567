-- ===== src/Server/Keys.antt =====
-- The files of keys and digests in server/src/main.cpp: `store_key`, `load_key`, `parse_hash_record`
-- and `load_hash_record`, with `read_file` and `write_file` of common/src/bytes.cpp.
-- The lengths in a file of a key are below 2 ^ 32, and their sum does not wrap.
use encoder_next.Prelude.{
  ℕ, ◌+◌, Bool, true, false, ◌||◌, Option, none, some, ◌∷◌, ◌++◌, Bytes, codes, length, is_empty,
  take, drop, ltb, if◌then◌else◌, find, put, Map,
}
use encoder_next.Encoding.Bytes.{read_be32, write_be32}
use encoder_next.Protocol.{cut}
use encoder_next.Server.Context.{Setup, Written, written, not_opened, cut_short, path_in}

pub record StoredKey : Type 0 where
  pub key : Bytes
  pub iv : Bytes
  pub tag : Bytes

-- The bytes of a stored key: three lengths, and what they measure.
unfoldable pub key_blob : StoredKey → Bytes
key_blob k =
    (write_be32 (length k.key) ++ (write_be32 (length k.iv) ++ write_be32 (length k.tag)))
    ++ (k.key ++ (k.iv ++ k.tag))

-- The three lengths of a blob that has them.
abbrev pub key_len : Bytes → ℕ
key_len blob = read_be32 blob

abbrev pub iv_len : Bytes → ℕ
iv_len blob = read_be32 (drop 4 blob)

abbrev pub tag_len : Bytes → ℕ
tag_len blob = read_be32 (drop 8 blob)

unfoldable pub parse_key : Bytes → Option StoredKey
parse_key blob =
    let rest = drop 12 blob in
    if ltb (length blob) 12
    then none
    else if ltb (length blob) (12 + key_len blob + iv_len blob + tag_len blob)
    then none
    else some (record {
      key = take (key_len blob) rest;
      iv = take (iv_len blob) (drop (key_len blob) rest);
      tag = take (tag_len blob) (drop (iv_len blob) (drop (key_len blob) rest));
    })

-- `write_file`: whether it succeeded, and the files behind it.
unfoldable pub write_file : Written → Bytes → Bytes → Map Bytes → Bool × Map Bytes
write_file written path bytes files = (true, put path bytes files)
write_file not_opened path bytes files = (false, files)
write_file (cut_short part) path bytes files = (false, put path part files)

abbrev pub key_path : Setup → Bytes → Bytes
key_path setup key_id = path_in setup.keys_dir (key_id ++ codes ".bin")

abbrev pub hash_path : Setup → Bytes → Bytes
hash_path setup file_id = path_in setup.hashes_dir (file_id ++ codes ".hash")

abbrev pub read_key : Option Bytes → Option StoredKey
read_key none = none
read_key (some blob) = parse_key blob

unfoldable pub load_key : Bytes → Map Bytes → Option StoredKey
load_key path files = read_key (find path files)

pub record HashRecord : Type 0 where
  pub alg : Bytes
  pub hex : Bytes
  pub file_name : Bytes

abbrev pub full_record : Bytes → Option (Bytes × Bytes) → Option HashRecord
full_record alg none = none
full_record alg (some (hex, name)) =
    if is_empty alg || is_empty hex
    then none
    else some (record { alg = alg; hex = hex; file_name = name })

abbrev pub from_colon : Option (Bytes × Bytes) → Option HashRecord
from_colon none = none
from_colon (some (alg, rest)) = full_record alg (cut b':' rest)

-- The text up to the first colon, up to the second, and the rest.
unfoldable pub parse_hash_record : Bytes → Option HashRecord
parse_hash_record payload = from_colon (cut b':' payload)

abbrev pub read_record : Option Bytes → Option HashRecord
read_record none = none
read_record (some payload) = if is_empty payload then none else parse_hash_record payload

unfoldable pub load_hash_record : Bytes → Map Bytes → Option HashRecord
load_hash_record path files = read_record (find path files)

abbrev pub hash_payload : Bytes → Bytes → Bytes → Bytes
hash_payload alg hex name = alg ++ (b':' ∷ (hex ++ (b':' ∷ name)))
