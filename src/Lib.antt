-- ===== src/Lib.antt =====
-- Verification of the encoder server and of the libraries that it shares with its clients.
--
-- The server encrypts and decrypts files for users that it knows, with keys that it may keep. Its
-- privileged Wi-Fi helper may cut the machine off the network and so must be able to undo what it
-- did; the monitor locks the accounts of users that behave oddly:
--
--   Server        server/src/main.cpp        the commands of clients: encrypt, decrypt, change_password,
--                 auth_check and what they check first, and those of the administrator
--   Server.Audit  server/src/audit.cpp       the log and the numbered alerts
--   Server.Config common/src/config.cpp      the configuration file
--   Client        client/src/client_core.cpp the requests of a user's program, and its files
--   Admin         admin/src/admin_client.cpp the requests of the administrator's application
--   Wifi.LinkProbe common/src/wifi_link_probe.cpp   whether the requested network is reached
--   Wifi.Profile  common/src/wifi_profile.cpp   which network names and keys are accepted
--   Wifi.Backend  common/include/encoder/wifi_change.h   the adapter that changes the machine
--   Wifi.Change   common/src/wifi_change.cpp    one change, until it is confirmed or undone
--   Wifi.Session  common/src/wifi_session.cpp   the change behind its ticket
--   Wifi.Rpc      common/src/wifi_rpc.cpp       the text protocol in front of the session
--   Wifi.Draft    common/src/wifi_config_draft.cpp   the documents of a profile, and their readers
--   Wifi.Netplan  server/src/netplan_files.cpp   the file that the program manages
--   Wifi.Managed  server/src/wifi_managed_backend.cpp and wifi_recovery_worker.cpp   the adapter
--                 that changes this machine, over Wifi.Journal and Wifi.Netplan
--   Wifi.Journal  server/src/wifi_journal.cpp   the durable record that recovery works from
--   Auth          common/src/auth.cpp           users, passwords and permissions, and their file
--   Monitor       server/src/monitor.cpp        what users do, and when that locks them
--   ScanLimit     server/src/scan_limit.cpp     the pause between scans of the radio
--   Protocol      common/src/protocol.cpp       the header of a request or an answer
--   Crypto        common/src/crypto.cpp, gost_native.cpp   ciphers, digests and their names
--   Encoding      common/src/base64.cpp and common/src/bytes.cpp
--   Prelude       tests, lists, maps, numbers and byte strings that the parts share
--
-- A command is a chain of steps on `ServerContext` (Server.Context): Server.Access admits it, which
-- calls Binding, Auth.verify and Monitor.Store, and Server.Encrypt, Decrypt and Account do its work
-- with Crypto.Engine, the files of Server.Keys and Auth.upsert. A packet goes through Rpc.handle to
-- Session.start, status, confirm or cancel, and from there to the functions of Change of the same
-- names, which call the adapter. A command of a user is recorded by Monitor.Store, which raises
-- alerts (Monitor, Monitor.FileOps) and answers whether the user is locked. An operation takes the
-- object it changes and the state of what stands outside, and returns both. Byte strings are lists of
-- numbers; a C++ exception or a null result is an `err` or a `none`; a message is a string.
--
-- Parameters: the adapter (`WifiChangeBackend`) and its factory, the random bytes and the clock's
-- time of each call, OpenSSL (the record `OpenSsl`, with the laws `OpenSslLaw`) and libakrypt
-- (`Akrypt`, `AkryptLaw`), PBKDF2 (`derive`, of the profile and of the user store), SHA-256
-- (`checksum`; where a theorem needs it, that a digest has 32 bytes), the restore callback of the
-- journal, the failures of the operating system in each call (`Faults`, `ScanFaults`,
-- `NetplanFaults`, `Written`), what the managed adapter asks of the machine (`Surroundings`), the
-- monitor's comparisons of floating-point numbers (in `MonitorConfig`); and for the client, the
-- connection and the answers of the server (`Peer`), its environment and the writes of its log
-- (`Host`), and what its other writes come to; and for the administrator, the connection with its
-- answers (`Network`). A mutex or a file lock makes a method one step. Every loop is a recursion
-- on its list or its count; a decimal number is printed in at most as many rounds as the number
-- itself and one more, and a text is sent or received in at most one round for each byte, which is
-- enough in both cases. Numbers of 32 and 64 bits wrap where the program lets them; the monitor's
-- times are unbounded.
--
-- Not modelled: sockets and TLS, process control, the Qt applications, the start-up of
-- server/src/main.cpp (its file of the binding policy is a text that the commands do not rewrite
-- here), the file of the monitor, and the texts of errors that the managed adapter keeps.
pub mod Admin
pub mod Auth
pub mod Client
pub mod Crypto
pub mod Encoding
pub mod Monitor
pub mod Prelude
pub mod Protocol
pub mod ScanLimit
pub mod Server
pub mod Wifi
