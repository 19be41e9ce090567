-- ===== src/Server/Guards.antt =====
-- What has been checked before a command of server/src/main.cpp answers.
use encoder_next.Prelude.{
  ℕ, ◌≡◌, inl, inr, Bool, true, none, Bytes, codes, leb, Bool-cases, Option-cases, ℤ,
}
use encoder_next.Auth.{verify, permissions_of}
use encoder_next.Monitor.Store.{is_locked}
use encoder_next.Protocol.{Header, get}
use encoder_next.Server.Context.{
  ServerContext, Env, Setup, Step, done, pass_on, pass_on_inv, or_refuse_inv, insist_inv, stoull,
}
use encoder_next.Server.Binding.{
  client_of, host_of, register_client, is_client_allowed, enforce_client_binding,
}
use encoder_next.Server.Access.{
  user_of, password_of, check_lock, logged_in, authenticate, may_encrypt, may_decrypt, admit,
  log_in,
}
use encoder_next.Server.Encrypt.{encrypt_denied, handle_encrypt, encrypt_admitted}
use encoder_next.Server.Decrypt.{decrypt_denied, handle_decrypt, decrypt_admitted}

module _ {κ} {B : Type κ} (next : Step B) (b : B) (c c' : ServerContext) where
  -- Behind the guard, the chain goes on in a context that is known.
  enforce_inv :
      (env : Env) (req : Header) (username op : Bytes)
      → let met = register_client (client_of req) (host_of req) env.registered_at c in
        pass_on (λ _. next) (enforce_client_binding env req username op c) ≡ done b c'
        → (is_client_allowed (client_of req) met ≡ true) × (next met ≡ done b c')
  unfolding enforce_client_binding
  enforce_inv env req username op h =
      let met = register_client (client_of req) (host_of req) env.registered_at c in
      elim (Bool-cases (is_client_allowed (client_of req) met)) [
        | inl e ↦ (e, rw e at h)
        | inr e ↦ absurd (cc (rw e at h))
      ]

  check_lock_inv :
      (now : ℤ) (username detail : Bytes)
      → pass_on (λ _. next) (check_lock now username detail c) ≡ done b c'
      → (is_locked username now c.monitor ≡ none) × (next c ≡ done b c')
  unfolding check_lock
  check_lock_inv now username detail h = elim (Option-cases (is_locked username now c.monitor)) [
    | inl e ↦ (e, rw e at h)
    | inr (r, e) ↦ absurd (cc (rw e at h))
  ]

  authenticate_inv :
      (setup : Setup) (env : Env) (username password op : Bytes)
      → pass_on (λ _. next) (authenticate setup env username password op c) ≡ done b c'
      → (verify setup.derive username password c.users ≡ true) × (next c ≡ done b c')
  unfolding authenticate
  authenticate_inv setup env username password op h =
      elim (Bool-cases (verify setup.derive username password c.users)) [
        | inl e ↦ (e, rw e at h)
        | inr e ↦ absurd (cc (rw e at h))
      ]

module _ (setup : Setup) (env : Env) where
  -- The context once the client is registered, and once its user is logged in.
  abbrev pub registered : Header → ServerContext → ServerContext
  registered req c = register_client (client_of req) (host_of req) env.registered_at c

  abbrev pub entered : Header → ServerContext → ServerContext
  entered req c = logged_in setup env (user_of req) (registered req c)

  -- The client is allowed, its user not locked, and the password the user's.
  abbrev pub Known : Header → ServerContext → Type 0
  Known req c =
      (is_client_allowed (client_of req) (registered req c) ≡ true)
      × (is_locked (user_of req) env.checked_at c.monitor ≡ none)
      × (verify setup.derive (user_of req) (password_of req) c.users ≡ true)

  -- The user also has the permission, and logging in has not locked the user either.
  abbrev pub Admitted : (ℕ → Bool) → Header → ServerContext → Type 0
  Admitted may req c =
      Known req c
      × (may (permissions_of (user_of req) c.users) ≡ true)
      × (is_locked (user_of req) env.rechecked_at (entered req c).monitor ≡ none)

  pub log_in_inv :
      (req : Header) (op : Bytes) (c c' : ServerContext) (u : Unit {0})
      → log_in setup env req op c ≡ done u c'
      → Known req c × (entered req c ≡ c')
  unfolding log_in register_client
  log_in_inv req op c c' u h =
      let (allowed, r1) = enforce_inv _ u c c' env req (user_of req) op h in
      let (unlocked, r2) = check_lock_inv _ u _ c' env.checked_at (user_of req) _ r1 in
      let (verified, r3) =
        authenticate_inv _ u _ c' setup env (user_of req) (password_of req) op r2 in
      ((allowed, unlocked, verified), cc r3)

  pub admit_inv :
      (req : Header) (op denied : Bytes) (may : ℕ → Bool) (c c' : ServerContext) (n : ℕ)
      → admit setup env req op may denied c ≡ done n c'
      → Admitted may req c × (entered req c ≡ c')
  unfolding admit register_client logged_in
  admit_inv req op denied may c c' n h =
      let size = stoull (get (codes "file_size") (codes "0") req) in
      let (file_size, e0, r0) = or_refuse_inv _ size _ c h in
      let (small, r1) = insist_inv _ (leb file_size setup.max_file_bytes) _ c r0 in
      let (allowed, r2) = enforce_inv _ n c c' env req (user_of req) op r1 in
      let (unlocked, r3) = check_lock_inv _ n _ c' env.checked_at (user_of req) _ r2 in
      let (verified, r4) =
        authenticate_inv _ n _ c' setup env (user_of req) (password_of req) op r3 in
      let (permitted, r5) = insist_inv _ (may (permissions_of (user_of req) c.users)) _ _ r4 in
      let (still, r6) = check_lock_inv _ n (entered req c) c' env.rechecked_at (user_of req) _ r5 in
      (((allowed, unlocked, verified), permitted, still), cc r6)

  -- A file is encrypted only for a client that the binding allows and a user who is not locked, gave
  -- the right password, is not blocked, has the permission bit, and was not locked by this login.
  pub handle_encrypt-Admitted :
      (req : Header) (c c' : ServerContext) (reply : Header × Bytes)
      → handle_encrypt setup env req c ≡ done reply c'
      → Admitted may_encrypt req c
  unfolding handle_encrypt
  handle_encrypt-Admitted req c c' reply h =
      let begun = admit setup env req (codes "encrypt") may_encrypt encrypt_denied c in
      let (n, c1, e, r) = pass_on_inv (encrypt_admitted setup env req) begun h in
      (admit_inv req _ _ may_encrypt c c1 n e).0

  -- A file is decrypted only for a client that the binding allows and a user who is not locked, gave
  -- the right password, is not blocked, has the permission bit, and was not locked by this login.
  pub handle_decrypt-Admitted :
      (req : Header) (c c' : ServerContext) (reply : Header × Bytes)
      → handle_decrypt setup env req c ≡ done reply c'
      → Admitted may_decrypt req c
  unfolding handle_decrypt
  handle_decrypt-Admitted req c c' reply h =
      let begun = admit setup env req (codes "decrypt") may_decrypt decrypt_denied c in
      let (n, c1, e, r) = pass_on_inv (decrypt_admitted setup env req) begun h in
      (admit_inv req _ _ may_decrypt c c1 n e).0
