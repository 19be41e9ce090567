-- ===== src/Client/MetadataFile.antt =====
-- The older files beside an encrypted one in client/src/client_core.cpp: `write_metadata`,
-- `read_metadata`, `store_key_file` and `load_key_file`.
use encoder_next.Prelude.{
  Bool, true, false, Option, none, some, List, [], ◌∷◌, ◌++◌, Bytes, codes, bytes_eq, is_empty,
  if◌then◌else◌, Map, find, getlines, Result, ok, err, ◌>>=◌,
}
use encoder_next.Encoding.Base64.{base64_encode, base64_decode}
use encoder_next.Crypto.Ciphers.{Cipher}
use encoder_next.Crypto.Names.{
  HashAlg, sha256, cipher_to_string, cipher_from_string, hash_to_string, hash_from_string,
}
use encoder_next.Protocol.{cut}
use encoder_next.Server.Context.{Written}
use encoder_next.Server.Keys.{StoredKey, key_blob, load_key, write_file}
use encoder_next.Client.{EncryptParams, EncryptResult, Metadata}

abbrev line : Bytes → Bytes → Bytes
line name value = name ++ (b'=' ∷ (value ++ (10 ∷ [])))

abbrev line_some : Bytes → Bytes → Bytes
line_some name value = if is_empty value then [] else line name value

abbrev line_encoded : Bytes → Bytes → Bytes
line_encoded name bytes = if is_empty bytes then [] else line name (base64_encode bytes)

-- The text that `write_metadata` writes.
unfoldable pub metadata_text : Bytes → EncryptParams → EncryptResult → Bytes
metadata_text file_path params r =
    line (codes "cipher") (cipher_to_string params.cipher)
    ++ line (codes "hash") (hash_to_string params.hash)
    ++ line (codes "key_storage") params.key_storage
    ++ line_some (codes "file_id") r.file_id
    ++ line_some (codes "key_id") r.key_id
    ++ line_some (codes "hash_value") r.hash_value
    ++ line_encoded (codes "iv") r.iv
    ++ line_encoded (codes "tag") r.tag
    ++ (if bytes_eq params.key_storage (codes "client")
        then line (codes "key_file") (file_path ++ codes ".key")
        else [])

-- What the loop has seen: the cipher, if there was one, whether there was a key storage, and the
-- rest.
pub record Seen : Type 0 where
  pub cipher : Option Cipher
  pub hash : HashAlg
  pub key_storage : Option Bytes
  pub file_id : Bytes
  pub key_id : Bytes
  pub hash_value : Bytes
  pub key_file : Bytes
  pub iv : Bytes
  pub tag : Bytes

abbrev pub none_seen : Seen
none_seen = record {
  cipher = none;
  hash = sha256;
  key_storage = none;
  file_id = [];
  key_id = [];
  hash_value = [];
  key_file = [];
  iv = [];
  tag = [];
}

abbrev pub with_cipher : Option Cipher → Seen → Result Seen
with_cipher none seen = err "Invalid cipher in metadata"
with_cipher (some c) seen = ok (record seen { cipher = some c })

abbrev pub with_hash : Option HashAlg → Seen → Result Seen
with_hash none seen = err "Invalid hash in metadata"
with_hash (some h) seen = ok (record seen { hash = h })

abbrev pub with_iv : Bytes × Bool → Seen → Result Seen
with_iv (bytes, true) seen = ok (record seen { iv = bytes })
with_iv (bytes, false) seen = err "Invalid iv"

abbrev pub with_tag : Bytes × Bool → Seen → Result Seen
with_tag (bytes, true) seen = ok (record seen { tag = bytes })
with_tag (bytes, false) seen = err "Invalid tag"

unfoldable pub read_entry : Bytes → Bytes → Seen → Result Seen
read_entry name val seen =
    if bytes_eq name (codes "cipher")
    then with_cipher (cipher_from_string val) seen
    else if bytes_eq name (codes "hash")
    then with_hash (hash_from_string val) seen
    else if bytes_eq name (codes "key_storage")
    then ok (record seen { key_storage = some val })
    else if bytes_eq name (codes "file_id")
    then ok (record seen { file_id = val })
    else if bytes_eq name (codes "key_id")
    then ok (record seen { key_id = val })
    else if bytes_eq name (codes "hash_value")
    then ok (record seen { hash_value = val })
    else if bytes_eq name (codes "key_file")
    then ok (record seen { key_file = val })
    else if bytes_eq name (codes "iv")
    then with_iv (base64_decode val) seen
    else if bytes_eq name (codes "tag")
    then with_tag (base64_decode val) seen
    else ok seen

abbrev pub read_cut : Option (Bytes × Bytes) → Seen → Result Seen
read_cut none seen = ok seen
read_cut (some (name, val)) seen = read_entry name val seen

unfoldable pub read_lines : List Bytes → Seen → Result Seen
read_lines [] seen = ok seen
read_lines (l ∷ ls) seen = read_cut (cut b'=' l) seen >>= read_lines ls

abbrev pub complete : Option Cipher → Option Bytes → Seen → Result Metadata
complete (some cipher) (some key_storage) s = ok (record {
  key_storage = key_storage;
  file_id = s.file_id;
  key_id = s.key_id;
  hash_value = s.hash_value;
  key_file = s.key_file;
  cipher = cipher;
  hash = s.hash;
  key = [];
  iv = s.iv;
  tag = s.tag;
})
complete _ _ s = err "Incomplete metadata"

unfoldable pub parse_metadata : Bytes → Result Metadata
parse_metadata text = do
  seen ← read_lines (getlines 10 text) none_seen
  complete seen.cipher seen.key_storage seen

abbrev metadata_found : Option Bytes → Result Metadata
metadata_found none = err "Metadata file not found"
metadata_found (some text) = parse_metadata text

unfoldable pub read_metadata : Bytes → Map Bytes → Result Metadata
read_metadata file_path files = metadata_found (find (file_path ++ codes ".cph") files)

-- The layout of a key file is that of the server's.
unfoldable pub store_key_file : Written → Bytes → StoredKey → Map Bytes → Bool × Map Bytes
store_key_file w path key files = write_file w path (key_blob key) files

unfoldable pub load_key_file : Bytes → Map Bytes → Option StoredKey
load_key_file path files = load_key path files
