-- ===== src/Server/Session.antt =====
-- `handle_session` of server/src/main.cpp, behind the header of the request: which operation it is,
-- and whether an administrator asks for it.
use encoder_next.Prelude.{
  Bool, true, false, not, ◌&&◌, Option, none, some, [], Bytes, codes, bytes_eq, has_prefix,
  is_empty, ltb, length, if◌then◌else◌,
}
use encoder_next.Protocol.{Header, get}
use encoder_next.Server.Context.{Env, Setup, Step, ◌>>=◌, ◌>>◌, answer, refuse, or_refuse, insist}
use encoder_next.Server.Encrypt.{engine, handle_encrypt}
use encoder_next.Server.Decrypt.{handle_decrypt}
use encoder_next.Server.Account.{handle_change_password, handle_auth_check}
use encoder_next.Server.Users.{
  UserOp, create_user, reset_password, block_user, permit, handle_user_op,
}
use encoder_next.Server.Admin.{
  Services, Answer, report, join_lines, limited, list_users, get_alerts, get_locks, handle_unlock,
  get_binding, set_binding, set_client_allowed,
}

-- The configuration that the administrative operations look at.
pub record AdminSetup : Type 0 where
  pub admin_token : Bytes
  pub wifi_change_enabled : Bool
  pub wifi_scan_enabled : Bool
  pub wifi_read_enabled : Bool

-- A connection: whether it came to the administrative port, and over the path of recovery.
pub record Connection : Type 0 where
  pub admin_only : Bool
  pub wifi_recovery_path : Bool

abbrev pub is_admin : Bytes → Bool
is_admin op = has_prefix (codes "admin_") op

-- An empty token in the configuration lets nobody in.
abbrev pub token_fits : AdminSetup → Header → Bool
token_fits admin req =
    not (is_empty admin.admin_token)
    && bytes_eq (get (codes "admin_token") [] req) admin.admin_token

abbrev without_payload : Header → Answer
without_payload header = (header, [])

abbrev pub header_only : Step Header → Step Answer
header_only step = step >>= λ header. answer (without_payload header)

module _ (setup : Setup) (env : Env) (admin : AdminSetup) (services : Services) where
  unfoldable pub handle_wifi_change : Connection → Header → Step Answer
  handle_wifi_change connection req = do
    insist (connection.admin_only && admin.wifi_change_enabled && connection.wifi_recovery_path)
        (codes "Wi-Fi change disabled or requires Ethernet admin connection")
    let packet = get (codes "wifi_packet") [] req
    insist (not (is_empty packet) && not (ltb 256 (length packet))) (codes "Invalid Wi-Fi request")
    payload ←
        or_refuse (services.wifi_change packet)
          (codes "Wi-Fi helper unavailable; operation outcome unknown")
    answer (report payload)

  unfoldable pub handle_wifi_scan : Step Answer
  handle_wifi_scan = do
    insist admin.wifi_scan_enabled (codes "Wi-Fi scanning is disabled on this server")
    payload ← engine services.wifi_scan []
    answer (report payload)

  unfoldable pub handle_wifi_read : Bool → Step Answer
  handle_wifi_read status = do
    insist admin.wifi_read_enabled (codes "Wi-Fi diagnostics are disabled on this server")
    payload ← engine (services.wifi_snapshot status) []
    answer (report payload)

  unfoldable pub handle_network_status : Step Answer
  handle_network_status = do payload ← engine services.network_status []; answer (report payload)

  -- The operations on users.
  abbrev pub user_op_of : Bytes → Option UserOp
  user_op_of op =
      if bytes_eq op (codes "admin_create_user")
      then some create_user
      else if bytes_eq op (codes "admin_reset_password")
      then some reset_password
      else if bytes_eq op (codes "admin_block_user")
      then some block_user
      else if bytes_eq op (codes "admin_set_permissions")
      then some permit
      else none

  abbrev pub report_op : Bytes → Header → Step Answer
  report_op op req =
      if bytes_eq op (codes "admin_get_alerts")
      then get_alerts services req
      else if bytes_eq op (codes "admin_get_logs")
      then limited 200 (λ n. answer (report (join_lines (services.tail_logs n)))) req
      else if bytes_eq op (codes "admin_get_stats")
      then limited 200 (λ n. answer (report (join_lines (services.dump_stats n)))) req
      else if bytes_eq op (codes "admin_get_locks")
      then limited 200 (get_locks env) req
      else if bytes_eq op (codes "admin_unlock_user")
      then handle_unlock req
      else if bytes_eq op (codes "admin_get_binding")
      then limited 500 get_binding req
      else if bytes_eq op (codes "admin_set_binding")
      then set_binding req
      else if bytes_eq op (codes "admin_set_client_allowed")
      then set_client_allowed env req
      else refuse (codes "Unknown admin operation")

  abbrev pub user_op : Option UserOp → Bytes → Header → Step Answer
  user_op none op req = report_op op req
  user_op (some kind) op req = header_only (handle_user_op setup env kind req)

  unfoldable pub handle_admin : Connection → Bytes → Header → Step Answer
  handle_admin connection op req =
      if bytes_eq op (codes "admin_wifi_change")
      then handle_wifi_change connection req
      else if bytes_eq op (codes "admin_wifi_scan")
      then handle_wifi_scan
      else if bytes_eq op (codes "admin_wifi_results")
      then handle_wifi_read false
      else if bytes_eq op (codes "admin_wifi_status")
      then handle_wifi_read true
      else if bytes_eq op (codes "admin_network_status")
      then handle_network_status
      else if bytes_eq op (codes "admin_list_users")
      then list_users
      else user_op (user_op_of op) op req

  unfoldable pub handle_client : Bytes → Header → Step Answer
  handle_client op req =
      if bytes_eq op (codes "encrypt")
      then handle_encrypt setup env req
      else if bytes_eq op (codes "decrypt")
      then handle_decrypt setup env req
      else if bytes_eq op (codes "change_password")
      then header_only (handle_change_password setup env req)
      else if bytes_eq op (codes "auth_check")
      then header_only (handle_auth_check setup env req)
      else refuse (codes "Unknown operation")

  unfoldable pub handle_session : Connection → Header → Step Answer
  handle_session connection req =
      let op = get (codes "op") [] req in
      if connection.admin_only && not (is_admin op)
      then refuse (codes "Administrative port accepts only admin operations")
      else if is_admin op
      then (if token_fits admin req
          then handle_admin connection op req
          else refuse (codes "Unauthorized"))
      else handle_client op req
