-- ===== src/Client.antt =====
-- client/src/client_core.cpp: what the client application asks of the server, and its files.
-- The answer of the server to the bytes that it is sent, the connection, the environment of the
-- process and the file system are arguments; a path names one file. The lines for stderr and the wiping
-- of buffers are left out.
pub mod Embedded
pub mod MetadataFile
pub mod Outcome
pub mod Core
pub mod Decrypt
pub mod Fields
pub mod Values
pub mod RoundTrip
pub mod Reopen
pub mod Untouched
mod Tests
use encoder_next.Prelude.{
  ℕ, ℤ, ◌≡◌, refl, Bool, true, false, List, [], ◌∷◌, ◌++◌, Bytes, codes, Map, bytes_eq, hex_encode,
  if◌then◌else◌, Result, ok, err, Option, none, some,
}
use encoder_next.Server.Context.{Written}
use encoder_next.Crypto.Names.{HashAlg}
use encoder_next.Crypto.Ciphers.{Cipher}

pub record EncryptParams : Type 0 where
  pub username : Bytes
  pub password : Bytes
  pub file_path : Bytes
  pub cipher : Cipher
  pub hash : HashAlg
  pub key_storage : Bytes

pub record EncryptResult : Type 0 where
  pub file_id : Bytes
  pub key_id : Bytes
  pub hash_value : Bytes
  pub key : Bytes
  pub iv : Bytes
  pub tag : Bytes

pub record DecryptParams : Type 0 where
  pub username : Bytes
  pub password : Bytes
  pub file_path : Bytes

-- What a file says of its encryption, in its header or in the file beside it.
pub record Metadata : Type 0 where
  pub key_storage : Bytes
  pub file_id : Bytes
  pub key_id : Bytes
  pub hash_value : Bytes
  pub key_file : Bytes
  pub cipher : Cipher
  pub hash : HashAlg
  pub key : Bytes
  pub iv : Bytes
  pub tag : Bytes

-- The environment variables and `SHA256`, and for the n-th line that a call logs, what its write
-- comes to and the time in seconds.
pub record Host : Type 0 where
  pub host_label : Bytes
  pub user_label : Bytes
  pub home_label : Bytes
  pub sha256 : Bytes → Bytes
  pub log_writes : ℕ → Written × ℤ

abbrev pub client_id_value : Host → Bytes
client_id_value h =
    hex_encode (h.sha256 (h.host_label ++ (b'|' ∷ (h.user_label ++ (b'|' ∷ h.home_label)))))

unfoldable pub remove : Bytes → Map Bytes → Map Bytes
remove path [] = []
remove path (x ∷ xs) = let rest = remove path xs in if bytes_eq x.0 path then rest else x ∷ rest
