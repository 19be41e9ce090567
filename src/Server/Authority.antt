-- ===== src/Server/Authority.antt =====
-- What a request to server/src/main.cpp cannot do without the administrator's token.
use encoder_next.Prelude.{
  ℕ, ◌≡◌, ◌≢◌, refl, ap, ◌∙◌, hex_encode, Bool, true, false, not, ◌||◌, Option, none, some, [],
  Bytes, codes, bytes_eq, is_empty, find, if_both, Result, ok, err,
}
use encoder_next.Auth.{UserStore}
use encoder_next.Protocol.{Header, get}
use encoder_next.Crypto.Ciphers.{Cipher}
use encoder_next.Crypto.Names.{cipher_from_string, hash_from_string}
use encoder_next.Crypto.Digest.{hash}
use encoder_next.Crypto.Gost.{CryptoResult}
use encoder_next.Crypto.Engine.{encrypt}
use encoder_next.Server.Context.{
  ServerContext, Env, Setup, Step, Outcome, done, refused, pass_on, answer, or_refuse, insist,
}
use encoder_next.Server.Binding.{is_client_allowed}
use encoder_next.Server.Keys.{StoredKey, load_key, key_path, key_blob, write_file}
use encoder_next.Server.Access.{user_of}
use encoder_next.Server.Encrypt.{
  engine, read_exact, is_streebog, keep_key, keep_digest, encrypt_admitted,
}
use encoder_next.Server.Decrypt.{
  is_legacy, own_key, own_iv, own_tag, key_for, record_of, open_legacy, open_file, check_digest,
  check_named, decrypt_admitted,
}
use encoder_next.Server.Account.{stored}
use encoder_next.Server.Effects.{after, Keeps}

module _ (req : Header) where
  -- Whether clients are bound, which are allowed, and the users other than the request's own.
  abbrev pub Outside : ServerContext → ServerContext → Type 0
  Outside c c' =
      (c'.binding_enabled ≡ c.binding_enabled)
      × ((client : Bytes) → is_client_allowed client c' ≡ is_client_allowed client c)
      × ((other : Bytes) → other ≢ user_of req → find other c'.users ≡ find other c.users)

  pub Keeps-Outside : (c c' : ServerContext) → Keeps c c' → Outside c c'
  Keeps-Outside c c' (u, f, s, e, l) = (e, l, λ other _. ap (λ (x : UserStore). find other x) u)

  module _ {ℓ κ} {A : Type ℓ} {B : Type κ} (next : A → Step B) where
    pub pass_on-Outside :
        (o : Outcome A) (c : ServerContext)
        → Outside c (after o)
        → ((a : A) (d : ServerContext) → Outside d (after (next a d)))
        → Outside c (after (pass_on next o))
    pass_on-Outside (refused m d) c k more = k
    pass_on-Outside (done a d) c (e, l, u) more =
        let (e', l', u') = more a d in
        (e' ∙ e, λ client. l' client ∙ l client, λ other n. u' other n ∙ u other n)

    or_refuse-Outside :
        (o : Option A) (m : Bytes) (c : ServerContext)
        → ((a : A) → Outside c (after (next a c)))
        → Outside c (after (pass_on next (or_refuse o m c)))
    or_refuse-Outside none m c more = (refl, λ _. refl, λ _ _. refl)
    or_refuse-Outside (some a) m c more = more a

    engine-Outside :
        (r : Result A) (m : Bytes) (c : ServerContext)
        → ((a : A) → Outside c (after (next a c)))
        → Outside c (after (pass_on next (engine r m c)))
    engine-Outside (err e) m c more = (refl, λ _. refl, λ _ _. refl)
    engine-Outside (ok a) m c more = more a

  insist-Outside {κ} :
      {B : Type κ} (next : Unit {0} → Step B) (t : Bool) (m : Bytes) (c : ServerContext)
      → Outside c (after (next tt c))
      → Outside c (after (pass_on next (insist t m c)))
  insist-Outside next true m c more = more
  insist-Outside next false m c more = (refl, λ _. refl, λ _ _. refl)

  or_refuse_last-Outside {ℓ} :
      {A : Type ℓ} (o : Option A) (m : Bytes) (c : ServerContext)
      → Outside c (after (or_refuse o m c))
  or_refuse_last-Outside none m c = (refl, λ _. refl, λ _ _. refl)
  or_refuse_last-Outside (some a) m c = (refl, λ _. refl, λ _ _. refl)

  engine_last-Outside {ℓ} :
      {A : Type ℓ} (r : Result A) (m : Bytes) (c : ServerContext) → Outside c (after (engine r m c))
  engine_last-Outside (err e) m c = (refl, λ _. refl, λ _ _. refl)
  engine_last-Outside (ok a) m c = (refl, λ _. refl, λ _ _. refl)

  pub insist_last-Outside :
      (t : Bool) (m : Bytes) (c : ServerContext) → Outside c (after (insist t m c))
  insist_last-Outside true m c = (refl, λ _. refl, λ _ _. refl)
  insist_last-Outside false m c = (refl, λ _. refl, λ _ _. refl)

  module _ (setup : Setup) (env : Env) where
    keep_key-Outside :
        (b : Bool) (r : CryptoResult) (c : ServerContext)
        → Outside c (after (keep_key setup env b r c))
    unfolding keep_key is_client_allowed
    keep_key-Outside false r c = (refl, λ _. refl, λ _ _. refl)
    keep_key-Outside true r c =
        let key_id = hex_encode env.key_name in
        let blob = key_blob (record { key = r.key; iv = r.iv; tag = r.tag }) in
        let wrote = write_file env.key_written (key_path setup key_id) blob c.files in
        let d : ServerContext = record c { files = wrote.1 } in
        insist-Outside (λ _. answer key_id) wrote.0 (codes "Failed to store key") d
          (refl, λ _. refl, λ _ _. refl)

    pub encrypt_admitted-Outside :
        (n : ℕ) (c : ServerContext) → Outside c (after (encrypt_admitted setup env req n c))
    unfolding encrypt_admitted keep_digest is_client_allowed
    encrypt_admitted-Outside n c =
        let storage = get (codes "key_storage") (codes "server") req in
        or_refuse-Outside _ (cipher_from_string (get (codes "cipher") [] req)) _ c (λ cipher.
          or_refuse-Outside _ (hash_from_string (get (codes "hash") [] req)) _ c (λ alg.
            insist-Outside _ (not (is_streebog alg)) _ c (
              or_refuse-Outside _ (read_exact n env.stream) _ c (λ plaintext.
                engine-Outside _ (hash setup.ssl alg plaintext) _ c (λ digest.
                  engine-Outside _
                    (encrypt setup.native setup.ssl setup.ak cipher plaintext env.rand_key
                      env.rand_iv)
                    _ c
                    (λ r.
                      insist-Outside _
                        (bytes_eq storage (codes "server") || bytes_eq storage (codes "client")) _ c
                        (pass_on-Outside _
                          (keep_key setup env (bytes_eq storage (codes "server")) r c) c
                          (keep_key-Outside _ r c)
                          (λ key_id d. (refl, λ _. refl, λ _ _. refl)))))))))

    key_for-Outside : (c : ServerContext) → Outside c (after (key_for setup env req c))
    unfolding key_for
    key_for-Outside c =
        if_both (λ (step : Step StoredKey). Outside c (after (step c)))
          (is_empty (get (codes "key_id") [] req)) _ _
          (or_refuse-Outside _ (own_key req) _ c (λ key.
            or_refuse-Outside _ (own_iv req) _ c (λ iv.
              or_refuse-Outside _ (own_tag req) _ c (λ tag. (refl, λ _. refl, λ _ _. refl)))))
          (or_refuse_last-Outside (load_key (key_path setup (get (codes "key_id") [] req)) c.files)
            _ c)

    open_file-Outside :
        (cipher : Cipher) (text : Bytes) (k : StoredKey) (c : ServerContext)
        → Outside c (after (open_file setup env req cipher text k c))
    unfolding open_file open_legacy
    open_file-Outside cipher text k c =
        if_both (λ (step : Step CryptoResult). Outside c (after (step c))) (is_legacy cipher text) _
          _
          (insist-Outside _ (not (is_empty (get (codes "file_id") [] req))) _ c (
            or_refuse-Outside _ (record_of setup env req c) _ c (λ trusted.
              or_refuse-Outside _ (hash_from_string trusted.alg) _ c
                (λ alg. engine_last-Outside _ _ c))))
          (engine_last-Outside _ _ c)

    check_named-Outside :
        (r : CryptoResult) (c : ServerContext) → Outside c (after (check_named setup env req r c))
    unfolding check_digest is_client_allowed
    check_named-Outside r c =
        if_both (λ (step : Step (Unit {0})). Outside c (after (step c)))
          (is_empty (get (codes "file_id") [] req)) _ _ (refl, λ _. refl, λ _ _. refl)
          (or_refuse-Outside _ (record_of setup env req c) _ c (λ trusted.
            or_refuse-Outside _ (hash_from_string trusted.alg) _ _ (λ alg.
              engine-Outside _ (hash setup.ssl alg r.content) _ _
                (λ digest. insist_last-Outside (bytes_eq digest.hex trusted.hex) _ _))))

    pub decrypt_admitted-Outside :
        (n : ℕ) (c : ServerContext) → Outside c (after (decrypt_admitted setup env req n c))
    unfolding decrypt_admitted is_client_allowed
    decrypt_admitted-Outside n c =
        or_refuse-Outside _ (cipher_from_string (get (codes "cipher") [] req)) _ c (λ cipher.
          or_refuse-Outside _ (read_exact n env.stream) _ c (λ text.
            pass_on-Outside _ (key_for setup env req c) c (key_for-Outside c) (λ k c2.
              pass_on-Outside _ (open_file setup env req cipher text k c2) c2
                (open_file-Outside cipher text k c2)
                (λ r c3.
                  pass_on-Outside _ (check_named setup env req r c3) c3 (check_named-Outside r c3)
                    (λ u c4. (refl, λ _. refl, λ _ _. refl))))))

    pub stored-Outside :
        (made saved : Bool) (users : UserStore) (disk : Option Bytes) (c : ServerContext)
        → (made ≡ true
            → (other : Bytes) → other ≢ user_of req
            → find other users ≡ find other c.users)
        → Outside c (stored made saved users disk c).1
    unfolding is_client_allowed
    stored-Outside true true users disk c others = (refl, λ _. refl, others refl)
    stored-Outside true false users disk c others = (refl, λ _. refl, λ _ _. refl)
    stored-Outside false saved users disk c others = (refl, λ _. refl, λ _ _. refl)
