-- ===== src/Server/Account.antt =====
-- `handle_change_password` and `handle_auth_check` of server/src/main.cpp.
use encoder_next.Prelude.{Option, Bool, true, false, [], Bytes, codes, decimal}
use encoder_next.Auth.{UserStore, upsert, permissions_of}
use encoder_next.Auth.File.{save}
use encoder_next.Protocol.{Header, get, set}
use encoder_next.Server.Context.{
  ServerContext, Env, Setup, Step, event, ◌>>=◌, ◌>>◌, answer, reads, insist, change, note,
}
use encoder_next.Server.Access.{user_of, log_in}

abbrev pub ok_message : Bytes → Header
ok_message text = set (codes "message") text (set (codes "status") (codes "ok") [])

-- The context behind `upsert` and `save`, and whether both succeeded; otherwise the users are the
-- previous ones.
abbrev pub stored : Bool → Bool → UserStore → Option Bytes → ServerContext → Bool × ServerContext
stored true true users disk ctx = (true, record ctx { users = users; users_file = disk })
stored true false users disk ctx = (false, record ctx { users_file = disk })
stored false saved users disk ctx = (false, ctx)

module _ (setup : Setup) (env : Env) where
  unfoldable pub store_password : Bytes → Bytes → ServerContext → Bool × ServerContext
  store_password username password ctx =
      let (updated, users) = upsert setup.derive username password env.salt ctx.users in
      let (saved, disk) = save env.save_fails env.rename_fails users ctx.users_file in
      stored updated saved users disk ctx

  -- What is left once the user is logged in.
  unfoldable pub change_logged_in : Header → Step Header
  change_logged_in req = do
    outcome ← reads (store_password (user_of req) (get (codes "new_password") [] req))
    change (λ ctx. outcome.1)
    insist outcome.0 (codes "Cannot save password change")
    note (event (codes "change_password") (user_of req) (codes "ok"))
    answer (ok_message (codes "Password updated"))

  unfoldable pub handle_change_password : Header → Step Header
  handle_change_password req = do
    log_in setup env req (codes "change_password")
    change_logged_in req

  unfoldable pub check_logged_in : Header → Step Header
  check_logged_in req = do
    note (event (codes "auth_ok") (user_of req) (codes "auth_check"))
    permissions ← reads (λ ctx. permissions_of (user_of req) ctx.users)
    answer (
        set (codes "permissions") (decimal permissions)
          (ok_message (codes "Authentication successful")))

  unfoldable pub handle_auth_check : Header → Step Header
  handle_auth_check req = do log_in setup env req (codes "auth_check"); check_logged_in req
