-- ===== src/Server/Users.antt =====
-- The administrator's operations on users in server/src/main.cpp: admin_create_user,
-- admin_reset_password, admin_block_user and admin_set_permissions.
use encoder_next.Prelude.{
  ℕ, ◌-◌, Bool, false, not, ◌&&◌, ◌||◌, [], ◌∷◌, Bytes, codes, bytes_eq, between, leb, length,
  if◌then◌else◌,
}
use encoder_next.Auth.{UserStore, valid_username, exists, set_permissions, set_blocked, upsert}
use encoder_next.Auth.File.{save}
use encoder_next.Protocol.{Header, get}
use encoder_next.Server.Context.{
  Env, Setup, Step, event, ◌>>=◌, ◌>>◌, answer, reads, insist, change, note,
}
use encoder_next.Server.Access.{user_of}
use encoder_next.Server.Account.{ok_message, stored}

pub data UserOp : Type 0 where
  create_user : UserOp
  reset_password : UserOp
  block_user : UserOp
  permit : UserOp

-- A user that is created must not be there, any other must.
abbrev pub fits_presence : UserOp → Bool → Bool
fits_presence create_user here = not here
fits_presence _ here = here

abbrev pub op_text : UserOp → Bytes
op_text create_user = codes "admin_create_user"
op_text reset_password = codes "admin_reset_password"
op_text block_user = codes "admin_block_user"
op_text permit = codes "admin_set_permissions"

-- One digit from 0 to 3.
abbrev pub is_permission : Bytes → Bool
is_permission (c ∷ []) = between b'0' b'3' c
is_permission _ = false

abbrev pub permission_value : Bytes → ℕ
permission_value (c ∷ _) = c - b'0'
permission_value [] = 0

abbrev pub fits_password : Bytes → Bool
fits_password password = leb 8 (length password) && leb (length password) 1024

module _ (setup : Setup) (env : Env) where
  -- The users behind the operation, and whether it succeeded; a value that does not fit is refused.
  unfoldable pub updated : UserOp → Header → Step (Bool × UserStore)
  updated permit req = do
    let value = get (codes "permissions") [] req
    insist (is_permission value) (codes "Invalid permissions")
    reads (λ ctx. set_permissions (user_of req) (permission_value value) ctx.users)
  updated block_user req = do
    let value = get (codes "blocked") [] req
    insist (bytes_eq value (codes "0") || bytes_eq value (codes "1"))
        (codes "Invalid blocked value")
    reads (λ ctx. set_blocked (user_of req) (bytes_eq value (codes "1")) ctx.users)
  updated _ req = do
    let password = get (codes "new_password") [] req
    insist (fits_password password) (codes "Password must contain 8-1024 bytes")
    reads (λ ctx. upsert setup.derive (user_of req) password env.salt ctx.users)

  unfoldable pub handle_user_op : UserOp → Header → Step Header
  handle_user_op op req = do
    insist (valid_username (user_of req))
        (codes "Username must contain 1-64 Latin letters, digits, dots, underscores or hyphens")
    here ← reads (λ ctx. exists (user_of req) ctx.users)
    insist (fits_presence op here)
        (if here then codes "User already exists" else codes "User not found")
    result ← updated op req
    file ← reads (λ ctx. save env.save_fails env.rename_fails result.1 ctx.users_file)
    outcome ← reads (λ ctx. stored result.0 file.0 result.1 file.1 ctx)
    change (λ ctx. outcome.1)
    insist outcome.0 (codes "Cannot save user database")
    note (event (op_text op) (codes "admin") (user_of req))
    answer (ok_message (codes "User updated"))
