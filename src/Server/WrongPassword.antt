-- ===== src/Server/WrongPassword.antt =====
-- What a command of server/src/main.cpp does for a request with a wrong password.
use encoder_next.Prelude.{ℕ, ◌≡◌, refl, Bool, false, Bytes, codes}
use encoder_next.Auth.{verify}
use encoder_next.Protocol.{Header}
use encoder_next.Server.Context.{ServerContext, Env, Setup, Step, Outcome, done, refused, pass_on}
use encoder_next.Server.Access.{user_of, password_of, may_encrypt, may_decrypt, admit, log_in}
use encoder_next.Server.Encrypt.{encrypt_denied, encrypt_admitted, handle_encrypt}
use encoder_next.Server.Decrypt.{decrypt_denied, decrypt_admitted, handle_decrypt}
use encoder_next.Server.Account.{
  change_logged_in, handle_change_password, check_logged_in, handle_auth_check,
}
use encoder_next.Server.Guards.{log_in_inv, admit_inv}
use encoder_next.Server.Effects.{after, Keeps, log_in-Keeps, admit-Keeps}

-- The command is refused, and keeps what is stored.
abbrev pub Refuses {ℓ} : {A : Type ℓ} → ServerContext → Outcome A → Type 0
Refuses c (done a c') = ⊥
Refuses c (refused message c') = Keeps c c'

-- A chain whose beginning cannot be done.
pass_on-Refuses {ℓ κ} :
    {A : Type ℓ} {B : Type κ} (next : A → Step B) (o : Outcome A) (c : ServerContext)
    → Keeps c (after o)
    → ((a : A) (d : ServerContext) → o ≡ done a d → ⊥)
    → Refuses c (pass_on next o)
pass_on-Refuses next (done a d) c k never = absurd (never a d refl)
pass_on-Refuses next (refused m d) c k never = k

module _ (setup : Setup) (env : Env) (req : Header) (c : ServerContext) where
  -- With a password that is not the user's, encrypt, decrypt, change_password and auth_check are
  -- refused, and the users, their file, the files of keys and digests, whether clients are bound and
  -- which are allowed stay as they were.
  pub wrong_password-Refuses :
      verify setup.derive (user_of req) (password_of req) c.users ≡ false
      → Refuses c (handle_encrypt setup env req c)
        × Refuses c (handle_decrypt setup env req c)
        × Refuses c (handle_change_password setup env req c)
        × Refuses c (handle_auth_check setup env req c)
  unfolding handle_encrypt handle_decrypt handle_change_password handle_auth_check
  wrong_password-Refuses wrong =
      let admitted : (op denied : Bytes) (may : ℕ → Bool) (n : ℕ) (d : ServerContext)
          → admit setup env req op may denied c ≡ done n d
          → ⊥ =
        λ op denied may n d h.
          let (((a, l, v), p, s), e) = admit_inv setup env req op denied may c d n h in
          cc (v, wrong) in
      let logged : (op : Bytes) (u : Unit {0}) (d : ServerContext)
          → log_in setup env req op c ≡ done u d
          → ⊥ =
        λ op u d h. let ((a, l, v), e) = log_in_inv setup env req op c d u h in cc (v, wrong) in
      (
        pass_on-Refuses (encrypt_admitted setup env req) _ c
            (admit-Keeps setup env req _ _ may_encrypt c)
            (admitted (codes "encrypt") encrypt_denied may_encrypt),
        pass_on-Refuses (decrypt_admitted setup env req) _ c
            (admit-Keeps setup env req _ _ may_decrypt c)
            (admitted (codes "decrypt") decrypt_denied may_decrypt),
        pass_on-Refuses (λ _. change_logged_in setup env req) _ c
            (log_in-Keeps setup env req (codes "change_password") c)
            (logged (codes "change_password")),
        pass_on-Refuses (λ _. check_logged_in setup env req) _ c
            (log_in-Keeps setup env req (codes "auth_check") c) (logged (codes "auth_check")),
      )
