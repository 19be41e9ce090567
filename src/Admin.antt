-- ===== src/Admin.antt =====
-- admin/src/admin_client.cpp: what the administrator's application asks of a server.
-- The connection and the stream that the server sends for the bytes of a request are arguments.
pub mod Report
mod Tests
use encoder_next.Prelude.{
  ℕ, Bool, true, false, ◌||◌, Option, none, some, List, [], ◌∷◌, ◌++◌, Bytes, codes, bytes_eq,
  is_empty, length, take, ltb, if◌then◌else◌, decimal, getlines, ℤ,
}
use encoder_next.Protocol.{Header, get, set, serialize, read_header}
use encoder_next.Server.Context.{stoull}
use encoder_next.Client.Outcome.{Outcome, fine, failed, ◌>>=◌, or_fail}
use encoder_next.Client.Core.{status_ok}

pub record AdminDevice : Type 0 where
  pub name : Bytes
  pub host : Bytes
  pub port : ℤ
  pub token : Bytes

unfoldable pub normalize_host : Bytes → Bytes
normalize_host host =
    if bytes_eq host (codes "0.0.0.0") || bytes_eq host (codes "::")
    then codes "127.0.0.1"
    else host

-- How far a connection gets, with the text of the error where there is one.
pub data Connection : Type 0 where
  no_network : Connection
  no_connection : Bytes → Connection
  no_timeout : Connection
  no_tls : Bytes → Connection
  no_handshake : Bytes → Connection
  header_lost : Connection
  established : Connection

unfoldable pub connection_error : Connection → Option Bytes
connection_error no_network = some (codes "Network init failed")
connection_error (no_connection e) = some (codes "Connect failed: " ++ e)
connection_error no_timeout = some (codes "Cannot set network I/O timeout")
connection_error (no_tls e) = some (codes "TLS init failed: " ++ e)
connection_error (no_handshake e) = some (codes "TLS connect failed: " ++ e)
connection_error header_lost = some (codes "Failed to send header")
connection_error established = none

-- What `send_request` waits for one read or write, in milliseconds.
unfoldable pub io_timeout : Header → ℕ
io_timeout header =
    let op = get (codes "op") [] header in
    if bytes_eq op (codes "admin_wifi_scan") || bytes_eq op (codes "admin_wifi_change")
    then 35000
    else 5000

-- A host, a port and a timeout make a connection, and the bytes of a request make an answer.
pub record Network : Type 0 where
  pub connect : Bytes → ℤ → ℕ → Connection
  pub answers : Bytes → Bytes

abbrev pub payload_limit : ℕ
payload_limit = 8388608

abbrev pub payload_size : Header → Option ℕ
payload_size resp =
    let size = get (codes "payload_size") [] resp in if is_empty size then some 0 else stoull size

abbrev pub receive : Header → ℕ → Bytes → Outcome (Header × Bytes)
receive resp size stream =
    if ltb payload_limit size
    then failed [] (codes "Administrative response exceeds 8 MiB limit")
    else if ltb (length stream) size
    then failed [] (codes "Failed to read payload")
    else fine (resp, take size stream)

abbrev pub receive_answer : Option (Header × Bytes) → Outcome (Header × Bytes)
receive_answer none = failed [] (codes "Failed to read response")
receive_answer (some (resp, stream)) =
    or_fail (payload_size resp) (codes "Invalid payload_size")
    >>= (λ size. receive resp size stream)

abbrev pub exchange : Option Bytes → (Bytes → Bytes) → Header → Outcome (Header × Bytes)
exchange (some message) answers header = failed [] message
exchange none answers header = receive_answer (read_header 65536 (answers (serialize header)))

unfoldable pub send_request : Network → AdminDevice → Header → Outcome (Header × Bytes)
send_request network device header =
    exchange
      (connection_error
        (network.connect (normalize_host device.host) device.port (io_timeout header)))
      network.answers header

abbrev pub server_error : Bytes
server_error = codes "Server error"

-- A request whose answer has the status "ok".
unfoldable pub command : Network → AdminDevice → Header → Outcome (Header × Bytes)
command network device header = send_request network device header >>= status_ok server_error

unfoldable pub user_command : Network → AdminDevice → Header → Outcome Bytes
user_command network device request = do
  answer ← command network device (set (codes "admin_token") device.token request)
  fine answer.1

unfoldable pub nonempty_lines : List Bytes → List Bytes
nonempty_lines [] = []
nonempty_lines (line ∷ lines) =
    let rest = nonempty_lines lines in if is_empty line then rest else line ∷ rest

abbrev pub payload_lines : Bytes → List Bytes
payload_lines payload = nonempty_lines (getlines 10 payload)

abbrev pub request : Bytes → AdminDevice → Header
request op device = set (codes "admin_token") device.token (set (codes "op") op [])

abbrev pub limited : Bytes → AdminDevice → ℕ → Header
limited op device limit = set (codes "limit") (decimal limit) (request op device)

-- The new `last_id`: one that is missing or does not read leaves the caller's as it was.
abbrev or_same : ℕ → Option ℕ → ℕ
or_same last none = last
or_same last (some n) = n

unfoldable pub get_alerts : Network → AdminDevice → ℕ → ℕ → ℕ → Outcome (ℕ × List Bytes)
get_alerts network device since_id limit last = do
  answer ← command network device (
      set (codes "limit") (decimal limit)
        (set (codes "since_id") (decimal since_id) (request (codes "admin_get_alerts") device)))
  fine (or_same last (stoull (get (codes "last_id") [] answer.0)), payload_lines answer.1)

abbrev pub get_report : Bytes → Network → AdminDevice → ℕ → Outcome (List Bytes)
get_report op network device limit = do
  answer ← command network device (limited op device limit)
  fine (payload_lines answer.1)

unfoldable pub get_logs : Network → AdminDevice → ℕ → Outcome (List Bytes)
get_logs = get_report (codes "admin_get_logs")

unfoldable pub get_stats : Network → AdminDevice → ℕ → Outcome (List Bytes)
get_stats = get_report (codes "admin_get_stats")

unfoldable pub get_locks : Network → AdminDevice → ℕ → Outcome (List Bytes)
get_locks = get_report (codes "admin_get_locks")

-- Whether clients are bound, and the clients.
unfoldable pub get_binding : Network → AdminDevice → ℕ → Outcome (Bool × List Bytes)
get_binding network device limit = do
  answer ← command network device (limited (codes "admin_get_binding") device limit)
  let enabled = get (codes "binding_enabled") [] answer.0
  fine (bytes_eq enabled (codes "1") || bytes_eq enabled (codes "true"), payload_lines answer.1)

abbrev pub flag : Bool → Bytes
flag b = if b then codes "1" else codes "0"

abbrev pub ordered : Network → AdminDevice → Header → Outcome (Unit {0})
ordered network device header = do answer ← command network device header; fine tt

unfoldable pub set_binding : Network → AdminDevice → Bool → Outcome (Unit {0})
set_binding network device enabled =
    ordered network device
      (set (codes "enabled") (flag enabled) (request (codes "admin_set_binding") device))

unfoldable pub set_client_allowed : Network → AdminDevice → Bytes → Bool → Outcome (Unit {0})
set_client_allowed network device client_id allowed = ordered network device (
    set (codes "allowed") (flag allowed)
      (set (codes "client_id") client_id (request (codes "admin_set_client_allowed") device)))

unfoldable pub unlock_user : Network → AdminDevice → Bytes → Outcome (Unit {0})
unlock_user network device username =
    ordered network device
      (set (codes "username") username (request (codes "admin_unlock_user") device))
