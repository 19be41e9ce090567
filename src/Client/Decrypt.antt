-- ===== src/Client/Decrypt.antt =====
-- Decryption in client/src/client_core.cpp: what a file says of its encryption, and the request.
use encoder_next.Prelude.{
  ℕ, Bool, true, false, not, Option, none, some, [], ◌∷◌, ◌++◌, Bytes, codes, bytes_eq, is_empty,
  length, if◌then◌else◌, Map, decimal,
}
use encoder_next.Encoding.Base64.{base64_encode}
use encoder_next.Crypto.Names.{cipher_to_string, hash_to_string}
use encoder_next.Protocol.{Header, set}
use encoder_next.Server.Keys.{StoredKey}
use encoder_next.Client.{DecryptParams, Metadata, Host}
use encoder_next.Client.Embedded.{
  EmbeddedReadResult, embedded, not_embedded, unreadable, read_embedded_file,
  extract_metadata_from_header, set_some,
}
use encoder_next.Client.MetadataFile.{read_metadata, load_key_file}
use encoder_next.Client.Outcome.{Outcome, fine, failed, ◌>>=◌, from_result, traced, keep_log}
use encoder_next.Client.Core.{Peer, send_request, status_ok, server_error, request}

-- Whether the header was in the file, what it says, and the text.
abbrev pub Source : Type 0
Source = Bool × Metadata × Bytes

abbrev pub with_text : Bool → Bytes → Outcome Metadata → Outcome Source
with_text is_embedded ciphertext (failed lines message) = failed lines message
with_text is_embedded ciphertext (fine m) = fine (is_embedded, m, ciphertext)

abbrev pub source_in : Bytes → Map Bytes → EmbeddedReadResult → Outcome Source
source_in path files (unreadable message) =
    failed ((codes "decrypt_file failed to read embedded file: " ++ message) ∷ []) message
source_in path files (embedded header ciphertext) = with_text true ciphertext (
    traced (λ message. codes "decrypt_file failed to parse embedded metadata: " ++ message)
      (from_result (extract_metadata_from_header header)))
source_in path files (not_embedded ciphertext) = with_text false ciphertext (
    traced (λ message. codes "decrypt_file failed to read metadata: " ++ message)
      (from_result (read_metadata path files)))

unfoldable pub source_of : Bytes → Map Bytes → Outcome Source
source_of path files = source_in path files (read_embedded_file path files)

-- The key, the IV and the tag of a client's file.
abbrev with_key_file : Bytes → Option StoredKey → Metadata → Outcome Metadata
with_key_file key_file none m =
    failed ((codes "decrypt_file failed to load key file: " ++ key_file) ∷ [])
      (codes "Failed to load key")
with_key_file key_file (some k) m = fine (record m { key = k.key; iv = k.iv; tag = k.tag })

unfoldable pub resolve_key : Bytes → Map Bytes → Source → Outcome Metadata
resolve_key path files (is_embedded, m, _) =
    let key_file = if is_empty m.key_file then path ++ codes ".key" else m.key_file in
    if bytes_eq m.key_storage (codes "server")
    then (if is_empty m.key_id
        then failed (codes "decrypt_file missing key_id for server storage" ∷ [])
            (codes "Missing key_id")
        else fine m)
    else if bytes_eq m.key_storage (codes "client")
    then (if not (is_empty m.key)
        then fine m
        else if is_embedded
        then failed (codes "decrypt_file missing embedded key" ∷ []) (codes "Missing embedded key")
        else with_key_file key_file (load_key_file key_file files) m)
    else failed ((codes "decrypt_file unknown key storage: " ++ m.key_storage) ∷ [])
        (codes "Unknown key storage")

abbrev pub set_key : Metadata → Header → Header
set_key m header =
    if bytes_eq m.key_storage (codes "server")
    then set (codes "key_id") m.key_id header
    else set_some (codes "tag") (if is_empty m.tag then [] else base64_encode m.tag) (
        set_some (codes "iv") (if is_empty m.iv then [] else base64_encode m.iv)
          (set (codes "key") (base64_encode m.key) header))

unfoldable pub decrypt_request : Host → DecryptParams → Metadata → ℕ → Header
decrypt_request host params m size = set_key m (
    set_some (codes "file_id") m.file_id (
      set (codes "file_size") (decimal size) (
        set (codes "hash") (hash_to_string m.hash) (
          set (codes "cipher") (cipher_to_string m.cipher)
            (request host (codes "decrypt") params.username params.password)))))

-- The plaintext, and what the file said of its encryption.
unfoldable pub decrypted : Peer → Host → DecryptParams → Map Bytes → Outcome (Bytes × Metadata)
decrypted peer host params files = do
  source ← source_of params.file_path files
  m ← resolve_key params.file_path files source
  reply ←
      traced (λ message. codes "decrypt request failed")
        (send_request peer (decrypt_request host params m (length source.2)) source.2)
  answer ←
      traced (λ message. codes "decrypt server error: " ++ message) (status_ok server_error reply)
  fine (answer.1, m)

unfoldable pub decrypt_file :
    Peer → Host → DecryptParams → Map Bytes → Outcome (Bytes × Metadata) × Map Bytes
decrypt_file peer host params files = keep_log host (decrypted peer host params files, files)
