-- ===== src/Server/Effects.antt =====
-- What the commands of server/src/main.cpp leave as it is, whether they answer or refuse.
use encoder_next.Prelude.{
  ℕ, ◌≡◌, inl, inr, refl, ◌∙◌, Bool, true, false, Option, none, some, Bytes, codes, leb, Bool-cases,
  Option-cases, ℤ,
}
use encoder_next.Auth.{verify, permissions_of}
use encoder_next.Monitor.Store.{is_locked}
use encoder_next.Protocol.{Header, get}
use encoder_next.Server.Context.{
  ServerContext, Env, Setup, Step, Outcome, done, refused, pass_on, or_refuse, insist, stoull,
}
use encoder_next.Server.Binding.{
  client_of, host_of, register_client, is_client_allowed, enforce_client_binding,
}
use encoder_next.Server.Clients.{is_client_allowed-register_client}
use encoder_next.Server.Access.{
  user_of, password_of, check_lock, login_failed, logged_in, authenticate, admit, log_in,
}

-- The context that an outcome leaves behind.
abbrev pub after {ℓ} : {A : Type ℓ} → Outcome A → ServerContext
after (done a c) = c
after (refused message c) = c

-- The users, their file, the files of keys and digests, whether clients are bound, and which are
-- allowed.
abbrev pub Keeps : ServerContext → ServerContext → Type 0
Keeps c c' =
    (c'.users ≡ c.users)
    × (c'.users_file ≡ c.users_file)
    × (c'.files ≡ c.files)
    × (c'.binding_enabled ≡ c.binding_enabled)
    × ((client : Bytes) → is_client_allowed client c' ≡ is_client_allowed client c)

pub Keeps-trans : (a b c : ServerContext) → Keeps a b → Keeps b c → Keeps a c
Keeps-trans a b c (u, f, s, e, l) (u', f', s', e', l') =
    (u' ∙ u, f' ∙ f, s' ∙ s, e' ∙ e, λ client. l' client ∙ l client)

pub pass_on-Keeps {ℓ κ} :
    {A : Type ℓ} {B : Type κ} (next : A → Step B) (o : Outcome A) (c : ServerContext)
    → Keeps c (after o)
    → ((a : A) (d : ServerContext) → Keeps d (after (next a d)))
    → Keeps c (after (pass_on next o))
pass_on-Keeps next (done a d) c k more = Keeps-trans c d (after (next a d)) k (more a d)
pass_on-Keeps next (refused m d) c k more = k

or_refuse-Keeps {ℓ} :
    {A : Type ℓ} (o : Option A) (m : Bytes) (c : ServerContext) → Keeps c (after (or_refuse o m c))
or_refuse-Keeps none m c = (refl, refl, refl, refl, λ _. refl)
or_refuse-Keeps (some a) m c = (refl, refl, refl, refl, λ _. refl)

insist-Keeps : (t : Bool) (m : Bytes) (c : ServerContext) → Keeps c (after (insist t m c))
insist-Keeps true m c = (refl, refl, refl, refl, λ _. refl)
insist-Keeps false m c = (refl, refl, refl, refl, λ _. refl)

module _ (env : Env) (req : Header) (username op : Bytes) (c : ServerContext) where
  registered-Keeps : Keeps c (register_client (client_of req) (host_of req) env.registered_at c)
  unfolding register_client
  registered-Keeps = (
    refl,
    refl,
    refl,
    refl,
    λ client.
        is_client_allowed-register_client (client_of req) client (host_of req) env.registered_at c,
  )

  enforce-Keeps : Keeps c (after (enforce_client_binding env req username op c))
  unfolding enforce_client_binding register_client is_client_allowed
  enforce-Keeps =
      let met = register_client (client_of req) (host_of req) env.registered_at c in
      elim (Bool-cases (is_client_allowed (client_of req) met)) [
        | inl e ↦ rw e registered-Keeps
        | inr e ↦ rw e registered-Keeps
      ]

check_lock-Keeps :
    (now : ℤ) (username detail : Bytes) (c : ServerContext)
    → Keeps c (after (check_lock now username detail c))
unfolding check_lock is_client_allowed
check_lock-Keeps now username detail c = elim (Option-cases (is_locked username now c.monitor)) [
  | inl e ↦ rw e (refl, refl, refl, refl, λ _. refl)
  | inr (r, e) ↦ rw e (refl, refl, refl, refl, λ _. refl)
]

module _ (setup : Setup) (env : Env) where
  authenticate-Keeps :
      (username password op : Bytes) (c : ServerContext)
      → Keeps c (after (authenticate setup env username password op c))
  unfolding authenticate login_failed is_client_allowed
  authenticate-Keeps username password op c =
      elim (Bool-cases (verify setup.derive username password c.users)) [
        | inl e ↦ rw e (refl, refl, refl, refl, λ _. refl)
        | inr e ↦ rw e (refl, refl, refl, refl, λ _. refl)
      ]

  pub log_in-Keeps :
      (req : Header) (op : Bytes) (c : ServerContext) → Keeps c (after (log_in setup env req op c))
  unfolding log_in logged_in is_client_allowed
  log_in-Keeps req op c =
      pass_on-Keeps _ (enforce_client_binding env req (user_of req) op c) c
        (enforce-Keeps env req (user_of req) op c)
        (λ _ d.
          pass_on-Keeps _ (check_lock env.checked_at (user_of req) _ d) d
            (check_lock-Keeps env.checked_at (user_of req) _ d)
            (λ _ d2.
              pass_on-Keeps _ (authenticate setup env (user_of req) (password_of req) op d2) d2
                (authenticate-Keeps (user_of req) (password_of req) op d2)
                (λ _ d3. (refl, refl, refl, refl, λ _. refl))))

  pub admit-Keeps :
      (req : Header) (op denied : Bytes) (may : ℕ → Bool) (c : ServerContext)
      → Keeps c (after (admit setup env req op may denied c))
  unfolding admit logged_in is_client_allowed
  admit-Keeps req op denied may c =
      pass_on-Keeps _ (or_refuse (stoull (get (codes "file_size") (codes "0") req)) _ c) c
        (or_refuse-Keeps _ _ c)
        (λ n d.
          pass_on-Keeps _ (insist (leb n setup.max_file_bytes) _ d) d (insist-Keeps _ _ d) (λ _ d1.
            pass_on-Keeps _ (enforce_client_binding env req (user_of req) op d1) d1
              (enforce-Keeps env req (user_of req) op d1)
              (λ _ d2.
                pass_on-Keeps _ (check_lock env.checked_at (user_of req) _ d2) d2
                  (check_lock-Keeps env.checked_at (user_of req) _ d2)
                  (λ _ d3.
                    pass_on-Keeps _ (authenticate setup env (user_of req) (password_of req) op d3)
                      d3 (authenticate-Keeps (user_of req) (password_of req) op d3)
                      (λ _ d4.
                        pass_on-Keeps _ (insist (may (permissions_of (user_of req) d4.users)) _ d4)
                          d4 (insist-Keeps _ _ d4)
                          (λ _ d5.
                            pass_on-Keeps _
                              (check_lock env.rechecked_at (user_of req) _
                                (logged_in setup env (user_of req) d5))
                              d5
                              (check_lock-Keeps env.rechecked_at (user_of req) _
                                (logged_in setup env (user_of req) d5))
                              (λ _ d6. (refl, refl, refl, refl, λ _. refl))))))))
