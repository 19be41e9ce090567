-- ===== src/Server/PasswordChange.antt =====
-- `handle_change_password` of server/src/main.cpp: all of the change is made and saved, or none.
use encoder_next.Prelude.{
  ◌≡◌, ◌≢◌, inl, inr, refl, sym, ap, ◌∙◌, Bool, true, false, not, Option, none, some, [], Bytes,
  codes, find, Bool-cases,
}
use mathlib.Core.Path.{subst}
use encoder_next.Auth.{
  UserRecord, UserStore, verify, upsert, permissions_of, kept_blocked, kept_permissions,
  verify_found,
}
use encoder_next.Auth.Passwords.{verify-upsert}
use encoder_next.Auth.File.{save, user_file}
use encoder_next.Protocol.{Header, get}
use encoder_next.Server.Context.{
  ServerContext, Env, Setup, Step, Outcome, done, refused, pass_on, pass_on_inv, done_inj,
}
use encoder_next.Server.Binding.{register_client, is_client_allowed}
use encoder_next.Server.Access.{user_of, password_of, log_in, logged_in}
use encoder_next.Server.Account.{stored, store_password, change_logged_in, handle_change_password}
use encoder_next.Server.Guards.{log_in_inv}
use encoder_next.Server.Effects.{after, Keeps, Keeps-trans, log_in-Keeps}

unblocked :
    (derive : Bytes → Bytes → Option Bytes) (password : Bytes) (found : Option UserRecord)
    → verify_found derive password found ≡ true
    → kept_blocked found ≡ false
unblocked derive password none h = absurd (cc h)
unblocked derive password (some r) h = elim (Bool-cases r.blocked) [
  | inl e ↦ absurd (cc (rw e at h))
  | inr e ↦ e
]

-- A store that failed kept everything, if the file was kept whenever it was not saved.
stored-Keeps :
    (updated saved : Bool) (users : UserStore) (disk : Option Bytes) (c : ServerContext)
    → (saved ≡ false → disk ≡ c.users_file)
    → (stored updated saved users disk c).0 ≡ false
    → Keeps c (stored updated saved users disk c).1
unfolding is_client_allowed
stored-Keeps true true users disk c same h = absurd (cc h)
stored-Keeps true false users disk c same h = (refl, same refl, refl, refl, λ _. refl)
stored-Keeps false saved users disk c same h = (refl, refl, refl, refl, λ _. refl)

save_failed :
    (w r : Bool) (users : UserStore) (disk : Option Bytes)
    → (save w r users disk).0 ≡ false
    → (save w r users disk).1 ≡ disk
unfolding save
save_failed true r users disk h = refl
save_failed false true users disk h = refl
save_failed false false users disk h = absurd (cc h)

save_done :
    (w r : Bool) (users : UserStore) (disk : Option Bytes)
    → (save w r users disk).0 ≡ true
    → (save w r users disk).1 ≡ some (user_file users)
unfolding save
save_done true r users disk h = absurd (cc h)
save_done false true users disk h = absurd (cc h)
save_done false false users disk h = refl

-- A store that succeeded.
stored_done :
    (updated saved : Bool) (users : UserStore) (disk : Option Bytes) (c : ServerContext)
    → (stored updated saved users disk c).0 ≡ true
    → (updated ≡ true)
      × (saved ≡ true)
      × ((stored updated saved users disk c).1.users ≡ users)
      × ((stored updated saved users disk c).1.users_file ≡ disk)
stored_done true true users disk c h = (refl, refl, refl, refl)
stored_done true false users disk c h = absurd (cc h)
stored_done false saved users disk c h = absurd (cc h)

module _ (setup : Setup) (env : Env) (req : Header) where
  abbrev new_password : Bytes
  new_password = get (codes "new_password") [] req

  change_refused :
      (m : Bytes) (c c' : ServerContext)
      → change_logged_in setup env req c ≡ refused m c'
      → Keeps c c'
  unfolding change_logged_in store_password
  change_refused m c c' h =
      let outcome = store_password setup env (user_of req) new_password c in
      let users = (upsert setup.derive (user_of req) new_password env.salt c.users).1 in
      elim (Bool-cases outcome.0) [
        | inl e ↦ absurd (cc (rw e at h))
        | inr e ↦
            let same : outcome.1 ≡ c' = cc (rw e at h) in
            subst (Keeps c) same (
              stored-Keeps _ _ users _ c
                (save_failed env.save_fails env.rename_fails users c.users_file) e)
      ]

  change_done :
      (c c' : ServerContext) (reply : Header)
      → change_logged_in setup env req c ≡ done reply c'
      → let users = (upsert setup.derive (user_of req) new_password env.salt c.users).1 in
        ((upsert setup.derive (user_of req) new_password env.salt c.users).0 ≡ true)
        × (c'.users ≡ users)
        × (c'.users_file ≡ some (user_file users))
  unfolding change_logged_in store_password
  change_done c c' reply h =
      let outcome = store_password setup env (user_of req) new_password c in
      let users = (upsert setup.derive (user_of req) new_password env.salt c.users).1 in
      elim (Bool-cases outcome.0) [
        | inl e ↦
            let (made, saved, same_users, same_file) = stored_done _ _ users _ c e in
            let (_, same) = done_inj _ reply _ c' (rw e at h) in
            let file = save_done env.save_fails env.rename_fails users c.users_file saved in
            (
              made,
              ap (λ (x : ServerContext). x.users) (sym same) ∙ same_users,
              ap (λ (x : ServerContext). x.users_file) (sym same) ∙ same_file ∙ file,
            )
        | inr e ↦ absurd (cc (rw e at h))
      ]

  refused_either :
      (next : Unit {0} → Step Header) (o : Outcome (Unit {0})) (m : Bytes) (c c' : ServerContext)
      → Keeps c (after o)
      → ((d : ServerContext) → next tt d ≡ refused m c' → Keeps d c')
      → pass_on next o ≡ refused m c'
      → Keeps c c'
  refused_either next (done u d) m c c' k more h = Keeps-trans c d c' k (more d h)
  refused_either next (refused m' d) m c c' k more h =
      let same : d ≡ c' = cc h in subst (Keeps c) same k

  -- A password change that is refused, be it that the file cannot be written, leaves the users, their
  -- file, the files of keys and digests, whether clients are bound and which are allowed as they were.
  pub handle_change_password-Keeps :
      (m : Bytes) (c c' : ServerContext)
      → handle_change_password setup env req c ≡ refused m c'
      → Keeps c c'
  unfolding handle_change_password
  handle_change_password-Keeps m c c' h =
      refused_either (λ _. change_logged_in setup env req) _ m c c'
        (log_in-Keeps setup env req (codes "change_password") c) (λ d e. change_refused m d c' e) h

  -- The users and the file before and after a change.
  abbrev pub Changed : UserStore → UserStore → Option Bytes → Type 0
  Changed users users' file =
      (verify setup.derive (user_of req) new_password users' ≡ true)
      × (permissions_of (user_of req) users' ≡ kept_permissions (find (user_of req) users))
      × ((other : Bytes) → other ≢ user_of req → find other users' ≡ find other users)
      × (file ≡ some (user_file users'))

  upsert-Changed :
      (users users' : UserStore) (file : Option Bytes)
      → kept_blocked (find (user_of req) users) ≡ false
      → (upsert setup.derive (user_of req) new_password env.salt users).0 ≡ true
      → users' ≡ (upsert setup.derive (user_of req) new_password env.salt users).1
      → file ≡ some (user_file (upsert setup.derive (user_of req) new_password env.salt users).1)
      → Changed users users' file
  upsert-Changed users users' file free made same saved =
      let (verified, permitted, others) =
        verify-upsert setup.derive (user_of req) new_password env.salt users made in
      subst (λ (x : UserStore). Changed users x file) (sym same)
        (verified ∙ ap not free, permitted, others, saved)

  -- After a password change that is answered, the new password lets the user in, with the permissions
  -- of before; no other user has changed, and the file holds the users as they are now.
  pub handle_change_password-Changed :
      (c c' : ServerContext) (reply : Header)
      → handle_change_password setup env req c ≡ done reply c'
      → Changed c.users c'.users c'.users_file
  unfolding handle_change_password logged_in register_client verify
  handle_change_password-Changed c c' reply h =
      let begun = log_in setup env req (codes "change_password") c in
      let (u, d, e, r) = pass_on_inv (λ _. change_logged_in setup env req) begun h in
      let ((allowed, unlocked, verified), same) = log_in_inv setup env req _ c d u e in
      let (made, users, file) = change_done d c' reply r in
      let before : c.users ≡ d.users = ap (λ (x : ServerContext). x.users) same in
      let free = unblocked setup.derive (password_of req) (find (user_of req) c.users) verified in
      let now_free =
        ap (λ (x : UserStore). kept_blocked (find (user_of req) x)) (sym before) ∙ free in
      subst (λ (x : UserStore). Changed x c'.users c'.users_file) (sym before)
        (upsert-Changed d.users c'.users c'.users_file now_free made users file)
