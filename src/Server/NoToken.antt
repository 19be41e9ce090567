-- ===== src/Server/NoToken.antt =====
-- Requests to `handle_session` of server/src/main.cpp without the administrator's token.
use encoder_next.Prelude.{
  ◌≡◌, inl, inr, refl, true, false, not, ◌&&◌, [], Bytes, codes, bytes_eq, if_both, Bool-cases,
}
use encoder_next.Auth.{upsert}
use encoder_next.Auth.Passwords.{verify-upsert}
use encoder_next.Auth.File.{save}
use encoder_next.Protocol.{Header, get}
use encoder_next.Server.Context.{ServerContext, Env, Setup, Step}
use encoder_next.Server.Binding.{is_client_allowed}
use encoder_next.Server.Access.{user_of, may_encrypt, may_decrypt, admit, log_in}
use encoder_next.Server.Encrypt.{encrypt_denied, handle_encrypt}
use encoder_next.Server.Decrypt.{decrypt_denied, handle_decrypt}
use encoder_next.Server.Account.{
  stored, store_password, change_logged_in, handle_change_password, check_logged_in,
  handle_auth_check,
}
use encoder_next.Server.Admin.{Services, Answer}
use encoder_next.Server.Session.{
  AdminSetup, Connection, is_admin, token_fits, header_only, handle_client, handle_session,
}
use encoder_next.Server.Effects.{after, log_in-Keeps, admit-Keeps}
use encoder_next.Server.Authority.{
  Outside, Keeps-Outside, pass_on-Outside, encrypt_admitted-Outside, decrypt_admitted-Outside,
  stored-Outside,
}

module _ (setup : Setup) (env : Env) (req : Header) where
  change_logged_in-Outside :
      (c : ServerContext) → Outside req c (after (change_logged_in setup env req c))
  unfolding change_logged_in store_password is_client_allowed
  change_logged_in-Outside c =
      let password = get (codes "new_password") [] req in
      let made = upsert setup.derive (user_of req) password env.salt c.users in
      let written = save env.save_fails env.rename_fails made.1 c.users_file in
      let outcome = stored made.0 written.0 made.1 written.1 c in
      let others = λ (e : made.0 ≡ true).
        (verify-upsert setup.derive (user_of req) password env.salt c.users e).2 in
      let changed = stored-Outside req setup env made.0 written.0 made.1 written.1 c others in
      elim (Bool-cases outcome.0) [ inl e ↦ rw e changed | inr e ↦ rw e changed ]

  handle_encrypt-Outside :
      (c : ServerContext) → Outside req c (after (handle_encrypt setup env req c))
  unfolding handle_encrypt
  handle_encrypt-Outside c =
      let begun = admit setup env req (codes "encrypt") may_encrypt encrypt_denied c in
      pass_on-Outside req _ begun c
        (Keeps-Outside req c (after begun) (admit-Keeps setup env req _ _ may_encrypt c))
        (encrypt_admitted-Outside req setup env)

  handle_decrypt-Outside :
      (c : ServerContext) → Outside req c (after (handle_decrypt setup env req c))
  unfolding handle_decrypt
  handle_decrypt-Outside c =
      let begun = admit setup env req (codes "decrypt") may_decrypt decrypt_denied c in
      pass_on-Outside req _ begun c
        (Keeps-Outside req c (after begun) (admit-Keeps setup env req _ _ may_decrypt c))
        (decrypt_admitted-Outside req setup env)

  handle_change_password-Outside :
      (c : ServerContext) → Outside req c (after (handle_change_password setup env req c))
  unfolding handle_change_password
  handle_change_password-Outside c =
      let begun = log_in setup env req (codes "change_password") c in
      pass_on-Outside req (λ _. change_logged_in setup env req) begun c
        (Keeps-Outside req c (after begun) (log_in-Keeps setup env req _ c))
        (λ _ d. change_logged_in-Outside d)

  handle_auth_check-Outside :
      (c : ServerContext) → Outside req c (after (handle_auth_check setup env req c))
  unfolding handle_auth_check check_logged_in is_client_allowed
  handle_auth_check-Outside c =
      let begun = log_in setup env req (codes "auth_check") c in
      pass_on-Outside req (λ _. check_logged_in setup env req) begun c
        (Keeps-Outside req c (after begun) (log_in-Keeps setup env req _ c))
        (λ _ d. (refl, λ _. refl, λ _ _. refl))

  header_only-Outside :
      (step : Step Header) (c : ServerContext)
      → Outside req c (after (step c))
      → Outside req c (after (header_only step c))
  header_only-Outside step c k =
      pass_on-Outside req _ (step c) c k (λ _ d. (refl, λ _. refl, λ _ _. refl))

  module _ (admin : AdminSetup) (services : Services) where
    abbrev Leaves : ServerContext → Step Answer → Type 0
    Leaves c step = Outside req c (after (step c))

    handle_client-Outside :
        (op : Bytes) (c : ServerContext) → Leaves c (handle_client setup env admin services op req)
    unfolding handle_client
    handle_client-Outside op c =
        if_both (Leaves c) (bytes_eq op (codes "encrypt")) _ _ (handle_encrypt-Outside c) (
          if_both (Leaves c) (bytes_eq op (codes "decrypt")) _ _ (handle_decrypt-Outside c) (
            if_both (Leaves c) (bytes_eq op (codes "change_password")) _ _
              (header_only-Outside (handle_change_password setup env req) c
                (handle_change_password-Outside c))
              (if_both (Leaves c) (bytes_eq op (codes "auth_check")) _ _
                (header_only-Outside (handle_auth_check setup env req) c
                  (handle_auth_check-Outside c))
                (refl, λ _. refl, λ _ _. refl))))

    -- A request that does not carry the administrator's token, or that comes to a server without one,
    -- does not change, whatever its operation, whether clients are bound, which clients are allowed, or
    -- any user but the one that it names.
    pub handle_session-Outside :
        (connection : Connection) (c : ServerContext)
        → token_fits admin req ≡ false
        → Outside req c (after (handle_session setup env admin services connection req c))
    unfolding handle_session is_client_allowed
    handle_session-Outside connection c wrong =
        let op = get (codes "op") [] req in
        if_both (Leaves c) (connection.admin_only && not (is_admin op)) _ _
          (refl, λ _. refl, λ _ _. refl)
          (if_both (Leaves c) (is_admin op) _ _ (rw wrong (refl, λ _. refl, λ _ _. refl))
            (handle_client-Outside op c))
