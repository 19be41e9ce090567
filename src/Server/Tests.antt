-- ===== src/Server/Tests.antt =====
-- Requests to server/src/main.cpp, with the small libraries of Crypto.Toy and a derivation that copies
-- the password.
use encoder_next.Prelude.{
  ok, ◌+◌, ◌≡◌, refl, Bool, true, false, none, some, [], ◌∷◌, Bytes, codes, is_empty, ltb, pos,
  find, put, digits_value, ◌+ℤ◌, ◌-ℤ◌,
}
use encoder_next.Encoding.Base64.{
  base64_decode, decode_loop, decode_round, base64_value, add_sextet,
}
use encoder_next.Auth.{
  verify, upsert, exists, valid_username, pbkdf2_hash, hex_to_bytes, hex_pairs, permissions_of,
}
use encoder_next.Auth.File.{save}
use encoder_next.Monitor.{
  MonitorConfig, count_login, is_outside_work_hours, is_suspicious_hour, note_login_success, raise,
}
use encoder_next.Monitor.Store.{is_locked, record_login_success, stats_of}
use encoder_next.Protocol.{Header, get, cut}
use encoder_next.Crypto.Toy.{toy_ssl, toy_akrypt, toy_rand}
use encoder_next.Crypto.Names.{
  skip_spaces, cipher_from_string, drop_last_spaces, hash_from_string, normalize_cipher_name,
  spec_named, spec_of,
}
use encoder_next.Crypto.Digest.{digest_of, hash}
use encoder_next.Crypto.Engine.{encrypt, encrypt_evp, decrypt, decrypt_evp}
use encoder_next.Crypto.OpenSsl.{evp_encrypt_cipher, evp_decrypt_cipher}
use encoder_next.Server.Keys.{load_hash_record, parse_hash_record, write_file}
use encoder_next.Server.Context.{
  ServerContext, Env, Setup, Outcome, done, refused, written, stoull, leading_digits, path_in,
}
use encoder_next.Server.Binding.{register_client, is_client_allowed, enforce_client_binding}
use encoder_next.Server.Access.{
  check_lock, authenticate, logged_in, admit, log_in, may_decrypt, user_of, password_of,
}
use encoder_next.Server.Encrypt.{handle_encrypt, encrypt_admitted, keep_key}
use encoder_next.Server.Decrypt.{handle_decrypt, decrypt_admitted, key_for, open_file, check_digest}
use encoder_next.Server.Account.{
  handle_change_password, change_logged_in, store_password, handle_auth_check,
}
use encoder_next.Server.Guards.{Admitted, handle_decrypt-Admitted}
use encoder_next.Server.Integrity.{Intact, handle_decrypt-Intact}
use encoder_next.Server.Effects.{after, Keeps}
use encoder_next.Server.WrongPassword.{Refuses, wrong_password-Refuses}
use encoder_next.Server.PasswordChange.{
  Changed, handle_change_password-Keeps, handle_change_password-Changed,
}
use encoder_next.Server.Admin.{Services, set_binding}
use encoder_next.Server.Session.{AdminSetup, Connection, token_fits, handle_admin, handle_session}
use encoder_next.Server.Authority.{Outside}
use encoder_next.Server.NoToken.{handle_session-Outside}

abbrev cfg : MonitorConfig
cfg = record {
  failed_login_threshold = 3;
  failed_login_window_sec = pos 600;
  bulk_files_threshold = 20;
  bulk_files_window_sec = pos 300;
  time_min_samples = 5;
  hour_below = λ count total. ltb (count + count) total;
  alert_cooldown_sec = pos 600;
  work_hours_start = pos 8;
  work_hours_end = pos 20;
  lock_failed_login_sec = pos 0;
  lock_bulk_files_sec = pos 0;
  lock_suspicious_time_sec = pos 0;
  decrypt_burst_threshold = 20;
  decrypt_burst_window_sec = pos 60;
  decrypt_volume_threshold_mb = 256;
  decrypt_volume_window_sec = pos 300;
  profile_min_decrypt_samples = 20;
  rate_exceeds = λ current ops logins. false;
  bytes_exceed = λ bytes total ops. false;
}

abbrev setup : Setup
setup = record {
  keys_dir = codes "k";
  hashes_dir = codes "h";
  max_file_bytes = 1000;
  monitor_config = cfg;
  derive = λ password salt. some password;
  native = true;
  ssl = toy_ssl;
  ak = toy_akrypt;
}

abbrev env : Bool → Bytes → Env
env full bytes = record {
  registered_at = pos 100;
  checked_at = pos 100;
  failed_at = pos 100;
  logged_in_at = pos 100;
  logged_in_hour = 12;
  rechecked_at = pos 100;
  worked_at = pos 101;
  stream = bytes;
  rand_key = toy_rand;
  rand_iv = toy_rand;
  salt = some (1 ∷ 2 ∷ []);
  key_name = 10 ∷ [];
  file_name = 11 ∷ [];
  key_written = written;
  hash_written = written;
  save_fails = full;
  rename_fails = false;
}

-- One user, whose password is "pw".
abbrev start : ServerContext
start = record {
  users =
      (
        codes "al",
        record {
          username = codes "al";
          salt_hex = codes "00ff";
          hash_hex = codes "7077";
          blocked = false;
          permissions = 3;
        },
      )
      ∷ [];
  users_file = none;
  monitor = [];
  binding_enabled = false;
  client_bindings = [];
  files = [];
  notes = [];
}

abbrev req : Bytes → Header → Header
req password more = (codes "username", codes "al") ∷ (codes "password", password) ∷ more

-- The context behind an outcome, and what it answers.
abbrev reply_of {ℓ} : {A : Type ℓ} → A → Outcome A → A
reply_of default (done a c) = a
reply_of default (refused m c) = default

abbrev is_done {ℓ} : {A : Type ℓ} → Outcome A → Bool
is_done (done a c) = true
is_done (refused m c) = false

shape {ℓ} :
    {A : Type ℓ} (default : A) (o : Outcome A)
    → is_done o ≡ true
    → o ≡ done (reply_of default o) (after o)
shape default (done a c) h = refl
shape default (refused m c) h = absurd (cc h)

abbrev encrypting : Header
encrypting = req (codes "pw") (
    (codes "cipher", codes "aes-256-gcm")
    ∷ (codes "hash", codes "sha256")
    ∷ (codes "file_size", codes "2")
    ∷ (codes "file_name", codes "f")
    ∷ [])

abbrev encrypted : Outcome (Header × Bytes)
encrypted = handle_encrypt setup (env false (1 ∷ 2 ∷ [])) encrypting start

encrypts : is_done encrypted ≡ true
unfolding handle_encrypt admit stoull skip_spaces get find leading_digits digits_value
    enforce_client_binding is_client_allowed register_client check_lock is_locked authenticate
    verify pbkdf2_hash hex_to_bytes hex_pairs permissions_of digest_of hash encrypt encrypt_evp
    cipher_from_string drop_last_spaces hash_from_string normalize_cipher_name spec_named spec_of
    evp_encrypt_cipher record_login_success stats_of count_login is_outside_work_hours
    is_suspicious_hour note_login_success raise ◌+ℤ◌ ◌-ℤ◌ put logged_in encrypt_admitted keep_key
    write_file path_in
encrypts = refl

-- The record of the digest of the bytes 1 and 2, and a request with the key in it.
abbrev with_record : ServerContext
with_record = record start { files = (codes "h/0b.hash", codes "sha256:0102:f") ∷ [] }

abbrev decrypting : Header
decrypting = req (codes "pw") (
    (codes "cipher", codes "aes-256-gcm")
    ∷ (codes "file_size", codes "2")
    ∷ (codes "file_id", codes "0b")
    ∷ (codes "key", codes "BQUFBQ==")
    ∷ (codes "iv", codes "BQU=")
    ∷ (codes "tag", codes "Bwc=")
    ∷ [])

abbrev decrypted : Outcome (Header × Bytes)
decrypted = handle_decrypt setup (env false (2 ∷ 3 ∷ [])) decrypting with_record

decrypts : is_done decrypted ≡ true
unfolding handle_decrypt admit stoull skip_spaces get find leading_digits digits_value
    enforce_client_binding is_client_allowed register_client check_lock is_locked authenticate
    verify pbkdf2_hash hex_to_bytes hex_pairs permissions_of digest_of hash encrypt encrypt_evp
    cipher_from_string drop_last_spaces hash_from_string normalize_cipher_name spec_named spec_of
    evp_encrypt_cipher record_login_success stats_of count_login is_outside_work_hours
    is_suspicious_hour note_login_success raise ◌+ℤ◌ ◌-ℤ◌ put logged_in decrypt_admitted key_for
    base64_decode decode_loop decode_round base64_value add_sextet open_file decrypt decrypt_evp
    evp_decrypt_cipher check_digest load_hash_record parse_hash_record cut path_in
decrypts = refl

handle_decrypt-Admitted_example :
    Admitted setup (env false (2 ∷ 3 ∷ [])) may_decrypt decrypting with_record
handle_decrypt-Admitted_example =
    handle_decrypt-Admitted setup (env false (2 ∷ 3 ∷ [])) decrypting with_record (after decrypted)
      (reply_of ([], []) decrypted) (shape ([], []) decrypted decrypts)

names_file : is_empty (get (codes "file_id") [] decrypting) ≡ false
unfolding get find
names_file = refl

handle_decrypt-Intact_example :
    Intact setup
      (env false (2 ∷ 3 ∷ []))
      decrypting
      with_record.files
      (reply_of ([], []) decrypted).1
handle_decrypt-Intact_example =
    handle_decrypt-Intact setup (env false (2 ∷ 3 ∷ [])) decrypting with_record (after decrypted)
      (reply_of ([], []) decrypted) names_file (shape ([], []) decrypted decrypts)

wrong_password :
    verify setup.derive
      (user_of (req (codes "no") []))
      (password_of (req (codes "no") []))
      start.users
    ≡ false
unfolding verify find pbkdf2_hash hex_to_bytes hex_pairs get
wrong_password = refl

wrong_password-Refuses_example :
    Refuses start (handle_encrypt setup (env false []) (req (codes "no") []) start)
    × Refuses start (handle_decrypt setup (env false []) (req (codes "no") []) start)
    × Refuses start (handle_change_password setup (env false []) (req (codes "no") []) start)
    × Refuses start (handle_auth_check setup (env false []) (req (codes "no") []) start)
wrong_password-Refuses_example =
    wrong_password-Refuses setup (env false []) (req (codes "no") []) start wrong_password

abbrev renewing : Header
renewing = req (codes "pw") ((codes "new_password", codes "new") ∷ [])

abbrev renewed : Bool → Outcome Header
renewed full = handle_change_password setup (env full []) renewing start

renews : is_done (renewed false) ≡ true
unfolding handle_change_password log_in get find enforce_client_binding is_client_allowed
    register_client check_lock is_locked authenticate verify pbkdf2_hash hex_to_bytes hex_pairs
    logged_in change_logged_in store_password upsert exists valid_username save
renews = refl

handle_change_password-Changed_example :
    Changed setup
      (env false [])
      renewing
      start.users
      (after (renewed false)).users
      (after (renewed false)).users_file
handle_change_password-Changed_example =
    handle_change_password-Changed setup (env false []) renewing start (after (renewed false))
      (reply_of [] (renewed false)) (shape [] (renewed false) renews)

-- The disk is full.
abbrev message_of {ℓ} : {A : Type ℓ} → Outcome A → Bytes
message_of (done a c) = []
message_of (refused m c) = m

fails : is_done (renewed true) ≡ false
unfolding handle_change_password log_in get find enforce_client_binding is_client_allowed
    register_client check_lock is_locked authenticate verify pbkdf2_hash hex_to_bytes hex_pairs
    logged_in change_logged_in store_password upsert exists valid_username save
fails = refl

fail_shape {ℓ} :
    {A : Type ℓ} (o : Outcome A) → is_done o ≡ false → o ≡ refused (message_of o) (after o)
fail_shape (done a c) h = absurd (cc h)
fail_shape (refused m c) h = refl

handle_change_password-Keeps_example : Keeps start (after (renewed true))
handle_change_password-Keeps_example =
    handle_change_password-Keeps setup (env true []) renewing (message_of (renewed true)) start
      (after (renewed true)) (fail_shape (renewed true) fails)

abbrev admin : AdminSetup
admin = record {
  admin_token = codes "t";
  wifi_change_enabled = true;
  wifi_scan_enabled = true;
  wifi_read_enabled = true;
}

abbrev services : Services
services = record {
  wifi_change = λ packet. none;
  wifi_scan = ok [];
  wifi_snapshot = λ status. ok [];
  network_status = ok [];
  alerts_since = λ since limit. [];
  tail_logs = λ limit. [];
  dump_stats = λ limit. [];
}

abbrev connection : Connection
connection = record { admin_only = false; wifi_recovery_path = false }

-- The right token, and a wrong one.
abbrev unbinding : Bytes → Header
unbinding token =
    (codes "op", codes "admin_set_binding")
    ∷ (codes "admin_token", token)
    ∷ (codes "enabled", codes "0")
    ∷ []

abbrev bound : ServerContext
bound = record start { binding_enabled = true }

unbinds :
    (after (
      handle_session setup
        (env false [])
        admin
        services
        connection
        (unbinding (codes "t"))
        bound)).binding_enabled
    ≡ false
unfolding handle_session get find handle_admin set_binding
unbinds = refl

wrong_token : token_fits admin (unbinding (codes "x")) ≡ false
unfolding get find
wrong_token = refl

handle_session-Outside_example : Outside (unbinding (codes "x")) bound (
    after
      (handle_session setup (env false []) admin services connection (unbinding (codes "x")) bound))
handle_session-Outside_example =
    handle_session-Outside setup (env false []) (unbinding (codes "x")) admin services connection
      bound wrong_token
