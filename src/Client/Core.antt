-- ===== src/Client/Core.antt =====
-- `ClientCore` of client/src/client_core.cpp: requests, and the commands of the client but decryption.
use encoder_next.Prelude.{
  ℕ, ◌-◌, Bool, true, false, not, Option, none, some, [], ◌∷◌, ◌++◌, Bytes, codes, bytes_eq,
  is_empty, length, take, ltb, if◌then◌else◌, between, Map, find, Result, ok, err, decimal,
}
use encoder_next.Crypto.Names.{cipher_to_string, hash_to_string}
use encoder_next.Protocol.{Header, get, set, serialize, read_header}
use encoder_next.Server.Context.{Written, stoull}
use encoder_next.Client.{EncryptParams, EncryptResult, Host, client_id_value, remove}
use encoder_next.Client.Embedded.{write_embedded_file, decoded}
use encoder_next.Client.Outcome.{Outcome, fine, failed, ◌>>=◌, or_fail, traced, keep_log}

-- How far a connection gets, with the text of the error where there is one.
pub data Link : Type 0 where
  no_network : Link
  unreachable : Bytes → Link
  no_tls : Bytes → Link
  no_handshake : Bytes → Link
  header_lost : Link
  payload_lost : Link
  connected : Link

-- The line for the log and the message of a connection that is not made or breaks while the request
-- is sent.
unfoldable pub link_error : Bytes → Link → Option (Bytes × Bytes)
link_error address no_network =
    some (codes "net_init failed", codes "Network initialization failed")
link_error address (unreachable e) = some (
  codes "socket connect failed: " ++ e,
  codes "Cannot reach " ++ address ++ codes ". Check the address, network and server. " ++ e,
)
link_error address (no_tls e) = some (
  codes "tls init failed: " ++ e,
  codes "Cannot load TLS configuration. Check the certificate file. " ++ e,
)
link_error address (no_handshake e) = some (
  codes "tls connect failed: " ++ e,
  codes "TLS handshake failed. Check the certificate and device clocks. " ++ e,
)
link_error address header_lost =
    some (codes "write header failed", codes "Connection lost while sending the request")
link_error address payload_lost =
    some (codes "write payload failed", codes "Connection lost while sending the file")
link_error address connected = none

-- The connection, the stream that the server sends for the bytes of a request, and the address
-- and port as the messages show them.
pub record Peer : Type 0 where
  pub link : Link
  pub answers : Bytes → Bytes
  pub address : Bytes

-- The size of what follows the header: `none` is a number that does not read.
abbrev pub size_of : Header → Option ℕ
size_of resp =
    let enc = get (codes "enc_size") [] resp in
    let plain = get (codes "plain_size") [] resp in
    if not (is_empty enc) then stoull enc else if not (is_empty plain) then stoull plain else some 0

abbrev receive : Header → ℕ → Bytes → Outcome (Header × Bytes)
receive resp size stream =
    if ltb (length stream) size
    then failed (codes "read payload failed" ∷ [])
        (codes "Connection lost while receiving the file")
    else fine (resp, take size stream)

abbrev receive_answer : Option (Header × Bytes) → Outcome (Header × Bytes)
receive_answer none =
    failed (codes "read header failed" ∷ [])
      (codes "Server closed the connection or returned an invalid response")
receive_answer (some (resp, stream)) =
    or_fail (size_of resp) (codes "Invalid or incomplete server response")
    >>= (λ size. receive resp size stream)

abbrev exchange : Option (Bytes × Bytes) → Peer → Header → Bytes → Outcome (Header × Bytes)
exchange (some (line, message)) peer header payload = failed (line ∷ []) message
exchange none peer header payload =
    receive_answer (read_header 65536 (peer.answers (serialize header ++ payload)))

-- The answer to a request, and the bytes behind it.
unfoldable pub send_request : Peer → Header → Bytes → Outcome (Header × Bytes)
send_request peer header payload = exchange (link_error peer.address peer.link) peer header payload

-- An answer whose status is not "ok" gives its message.
abbrev pub status_ok : Bytes → Header × Bytes → Outcome (Header × Bytes)
status_ok default (resp, out) =
    if bytes_eq (get (codes "status") [] resp) (codes "ok")
    then fine (resp, out)
    else failed [] (get (codes "message") default resp)

abbrev pub server_error : Bytes
server_error = codes "Server error"

-- The fields that every request begins with.
abbrev pub request : Host → Bytes → Bytes → Bytes → Header
request host op username password = set (codes "client_host") host.host_label (
    set (codes "client_id") (client_id_value host)
      (set (codes "password") password (set (codes "username") username (set (codes "op") op []))))

abbrev pub chosen_storage : Bytes → EncryptParams → Bytes
chosen_storage default params = if is_empty params.key_storage then default else params.key_storage

-- The last argument but one is the file's name without its directory.
unfoldable pub encrypt_request : Host → EncryptParams → Bytes → Bytes → ℕ → Header
encrypt_request host params key_storage file_name size = set (codes "file_size") (decimal size) (
    set (codes "file_name") file_name (
      set (codes "key_storage") key_storage (
        set (codes "hash") (hash_to_string params.hash) (
          set (codes "cipher") (cipher_to_string params.cipher)
            (request host (codes "encrypt") params.username params.password)))))

unfoldable pub encrypt_result : Header → Outcome EncryptResult
encrypt_result resp = do
  key ← or_fail (decoded (get (codes "key") [] resp)) (codes "Invalid key")
  iv ← or_fail (decoded (get (codes "iv") [] resp)) (codes "Invalid iv")
  tag ← or_fail (decoded (get (codes "tag") [] resp)) (codes "Invalid tag")
  fine (record {
    file_id = get (codes "file_id") [] resp;
    key_id = get (codes "key_id") [] resp;
    hash_value = get (codes "hash_value") [] resp;
    key = key;
    iv = iv;
    tag = tag;
  })

-- What `encrypt_data` gets from the server.
unfoldable pub request_encryption :
    Peer → Host → EncryptParams → Bytes → Bytes → Bytes → Outcome (EncryptResult × Bytes)
request_encryption peer host params key_storage file_name data' = do
  reply ←
      traced (λ message. codes "encrypt request failed")
        (send_request peer (encrypt_request host params key_storage file_name (length data')) data')
  answer ←
      traced (λ message. codes "encrypt server error: " ++ message) (status_ok server_error reply)
  result ← encrypt_result answer.0
  fine (result, answer.1)

-- How the writes of `encrypt_data` end: the new file, and whether the two older ones are removed.
pub record Writes : Type 0 where
  pub embedded_file : Written
  pub removes_metadata : Bool
  pub removes_key : Bool

abbrev remove_if : Bool → Bytes → Map Bytes → Map Bytes
remove_if true path files = remove path files
remove_if false path files = files

abbrev pub tidy :
    Writes
    → Bytes
    → EncryptResult
    → Result (Unit {0}) × Map Bytes
    → Outcome EncryptResult × Map Bytes
tidy w path result (err message, files) = (
  failed ((codes "encrypt failed to write embedded file: " ++ codes message) ∷ []) (codes message),
  files,
)
tidy w path result (ok _, files) = (
  fine result,
  remove_if w.removes_key (path ++ codes ".key")
      (remove_if w.removes_metadata (path ++ codes ".cph") files),
)

abbrev pub keep_encrypted :
    Writes
    → EncryptParams
    → Bytes
    → Outcome (EncryptResult × Bytes)
    → Map Bytes
    → Outcome EncryptResult × Map Bytes
keep_encrypted w params key_storage (failed lines message) files = (failed lines message, files)
keep_encrypted w params key_storage (fine (result, enc_data)) files =
    tidy w params.file_path result (
      write_embedded_file w.embedded_file params.file_path params result key_storage enc_data files)

abbrev pub only_result : Outcome (EncryptResult × Bytes) → Outcome EncryptResult
only_result (failed lines message) = failed lines message
only_result (fine (result, enc_data)) = fine result

unfoldable pub encrypt_data :
    Peer
    → Host
    → Bytes
    → Writes
    → EncryptParams
    → Bytes
    → Bytes
    → Bool
    → Map Bytes
    → Outcome EncryptResult × Map Bytes
encrypt_data peer host default w params file_name data' write_to_disk files =
    let key_storage = chosen_storage default params in
    let reply = request_encryption peer host params key_storage file_name data' in
    keep_log host (
      if write_to_disk
      then keep_encrypted w params key_storage reply files
      else (only_result reply, files))

unfoldable pub encrypt_file :
    Peer
    → Host
    → Bytes
    → Writes
    → EncryptParams
    → Bytes
    → Map Bytes
    → Outcome EncryptResult × Map Bytes
encrypt_file peer host default w params file_name files = elim (find params.file_path files) [
  | none ↦ keep_log host (
    failed ((codes "encrypt_file failed to read file: " ++ params.file_path) ∷ [])
        (codes "Failed to read file"),
    files,
  )
  | some plaintext ↦ encrypt_data peer host default w params file_name plaintext true files
]

unfoldable pub password_changed : Peer → Host → Bytes → Bytes → Bytes → Outcome (Unit {0})
password_changed peer host username password new_password = do
  reply ←
      send_request peer
        (set (codes "new_password") new_password
          (request host (codes "change_password") username password))
        []
  answer ← status_ok server_error reply
  fine tt

unfoldable pub change_password :
    Peer → Host → Bytes → Bytes → Bytes → Map Bytes → Outcome (Unit {0}) × Map Bytes
change_password peer host username password new_password files =
    keep_log host (password_changed peer host username password new_password, files)

abbrev pub read_permissions : Bytes → Outcome ℕ
read_permissions (c ∷ []) =
    if between b'0' b'3' c
    then fine (c - b'0')
    else failed [] (codes "Invalid permissions in server response")
read_permissions _ = failed [] (codes "Invalid permissions in server response")

unfoldable pub authenticated : Peer → Host → Bytes → Bytes → Outcome ℕ
authenticated peer host username password = do
  reply ← send_request peer (request host (codes "auth_check") username password) []
  answer ← status_ok (codes "Authentication failed") reply
  read_permissions (get (codes "permissions") (codes "3") answer.0)

-- The permissions of the user.
unfoldable pub authenticate : Peer → Host → Bytes → Bytes → Map Bytes → Outcome ℕ × Map Bytes
authenticate peer host username password files =
    keep_log host (authenticated peer host username password, files)
