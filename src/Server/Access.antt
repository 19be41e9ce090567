-- ===== src/Server/Access.antt =====
-- What a command of server/src/main.cpp asks for before it works: the size, the binding of the client,
-- no lock, the password, and the permission. Reading away the payload of a refused request leaves
-- nothing behind and is left out.
use encoder_next.Prelude.{
  ℕ, ◌/◌, ◌%◌, Bool, Option, none, some, List, [], ◌∷◌, ◌++◌, Bytes, codes, leb, ◌==◌,
  if◌then◌else◌, ℤ,
}
use encoder_next.Auth.{verify, permissions_of}
use encoder_next.Monitor.{Entry}
use encoder_next.Monitor.Store.{Users, is_locked, record_login_success, record_login_failure}
use encoder_next.Protocol.{Header, get}
use encoder_next.Server.Context.{
  ServerContext, Env, Setup, Step, event, monitored, ◌>>=◌, ◌>>◌, answer, refuse, reads, or_refuse,
  insist, change, note, to_string, stoull,
}
use encoder_next.Server.Binding.{enforce_client_binding}

abbrev pub user_of : Header → Bytes
user_of req = get (codes "username") [] req

abbrev pub password_of : Header → Bytes
password_of req = get (codes "password") [] req

-- A call of the monitor, which hands its entries to the audit service.
abbrev pub monitor_call : Users × List Entry → ServerContext → ServerContext
monitor_call (users, entries) ctx = record ctx {
  monitor = users;
  notes = monitored entries ∷ ctx.notes;
}

abbrev pub stop_locked : Bytes → Bytes → Option ℤ → Step (Unit {0})
stop_locked username detail none = answer tt
stop_locked username detail (some remaining) = do
  note (event (codes "auth_locked") username (detail ++ to_string remaining))
  refuse (codes "Account locked. Try again in " ++ to_string remaining ++ codes "s")

unfoldable pub check_lock : ℤ → Bytes → Bytes → Step (Unit {0})
check_lock now username detail = do
  locked ← reads (λ ctx. is_locked username now ctx.monitor)
  stop_locked username detail locked

-- Bit 0 of the permissions allows encryption, bit 1 decryption.
abbrev pub may_encrypt : ℕ → Bool
may_encrypt permissions = permissions % 2 == 1

abbrev pub may_decrypt : ℕ → Bool
may_decrypt permissions = permissions / 2 % 2 == 1

module _ (setup : Setup) (env : Env) where
  unfoldable pub login_failed : Bytes → ServerContext → ServerContext
  login_failed username ctx =
      monitor_call (record_login_failure setup.monitor_config username env.failed_at ctx.monitor)
        ctx

  unfoldable pub logged_in : Bytes → ServerContext → ServerContext
  logged_in username ctx =
      monitor_call
        (record_login_success setup.monitor_config username env.logged_in_at env.logged_in_hour
          ctx.monitor)
        ctx

  unfoldable pub authenticate : Bytes → Bytes → Bytes → Step (Unit {0})
  authenticate username password op = do
    matches ← reads (λ ctx. verify setup.derive username password ctx.users)
    if matches
        then answer tt
        else (change (login_failed username)
            >> note (event (codes "auth_failed") username op)
            >> refuse (codes "Authentication failed"))

  -- What `handle_encrypt` and `handle_decrypt` begin with; the size of the file is what is left.
  unfoldable pub admit : Header → Bytes → (ℕ → Bool) → Bytes → Step ℕ
  admit req op may denied = do
    file_size ←
        or_refuse (stoull (get (codes "file_size") (codes "0") req)) (codes "Invalid file_size")
    insist (leb file_size setup.max_file_bytes) (codes "File too large")
    enforce_client_binding env req (user_of req) op
    check_lock env.checked_at (user_of req) (op ++ codes " remaining_sec=")
    authenticate (user_of req) (password_of req) op
    permissions ← reads (λ ctx. permissions_of (user_of req) ctx.users)
    insist (may permissions) denied
    change (logged_in (user_of req))
    check_lock env.rechecked_at (user_of req) (op ++ codes " post_login remaining_sec=")
    answer file_size

  -- What `handle_change_password` and `handle_auth_check` begin with.
  unfoldable pub log_in : Header → Bytes → Step (Unit {0})
  log_in req op = do
    enforce_client_binding env req (user_of req) op
    check_lock env.checked_at (user_of req) (op ++ codes " remaining_sec=")
    authenticate (user_of req) (password_of req) op
    change (logged_in (user_of req))
