-- ===== src/Server/Integrity.antt =====
-- What `handle_decrypt` of server/src/main.cpp hands out, when the request names a file.
use encoder_next.Prelude.{
  ℕ, ◌≡◌, inl, inr, refl, sym, ap, ◌∙◌, false, not, some, [], Bytes, codes, is_empty, bytes_eq,
  bytes_eq_sound, Bool-cases, Result, ok, err, Map,
}
use mathlib.Core.Path.{subst}
use encoder_next.Protocol.{Header, get}
use encoder_next.Crypto.Ciphers.{Cipher}
use encoder_next.Crypto.Names.{HashAlg, cipher_from_string, hash_from_string}
use encoder_next.Crypto.Digest.{HashResult, hash}
use encoder_next.Crypto.Gost.{CryptoResult}
use encoder_next.Server.Context.{
  ServerContext, Env, Setup, Step, done, pass_on, pass_on_inv, or_refuse_inv, insist_inv, done_inj,
  insist_last, or_refuse_last,
}
use encoder_next.Server.Binding.{register_client}
use encoder_next.Server.Keys.{
  StoredKey, HashRecord, load_key, key_path, load_hash_record, hash_path,
}
use encoder_next.Server.Access.{may_decrypt, admit, logged_in}
use encoder_next.Server.Encrypt.{engine, read_exact}
use encoder_next.Server.Decrypt.{
  decrypt_denied, is_legacy, own_key, own_iv, own_tag, key_for, record_of, open_legacy, open_file,
  decrypt_header, check_digest, check_named, decrypt_admitted, handle_decrypt,
}
use encoder_next.Server.Guards.{admit_inv}

pub engine_inv {ℓ κ} :
    {A : Type ℓ} {B : Type κ} (next : A → Step B) (r : Result A) (heading : Bytes)
    (c : ServerContext) {b : B} {c' : ServerContext}
    → pass_on next (engine r heading c) ≡ done b c'
    → (a : A) × (r ≡ ok a) × (next a c ≡ done b c')
engine_inv next (ok a) heading c h = (a, refl, h)
engine_inv next (err m) heading c h = absurd (cc h)

module _ (setup : Setup) (env : Env) (req : Header) where
  -- The text has the digest of the record that the server has for the file.
  abbrev pub Intact : Map Bytes → Bytes → Type 0
  Intact files text =
      (trusted : HashRecord) × (alg : HashAlg) × (digest : HashResult) × (load_hash_record
          (hash_path setup (get (codes "file_id") [] req)) files
        ≡ some trusted)
      × (hash_from_string trusted.alg ≡ some alg)
      × (hash setup.ssl alg text ≡ ok digest)
      × (digest.hex ≡ trusted.hex)

  check_digest-Intact :
      (r : CryptoResult) (c c' : ServerContext) (u : Unit {0})
      → check_digest setup env req r c ≡ done u c'
      → Intact c.files r.content
  unfolding check_digest
  check_digest-Intact r c c' u h =
      let (trusted, e0, r0) = or_refuse_inv _ (record_of setup env req c) _ c h in
      let (alg, e1, r1) = or_refuse_inv _ (hash_from_string trusted.alg) _ _ r0 in
      let (digest, e2, r2) = engine_inv _ (hash setup.ssl alg r.content) _ _ r1 in
      let same = insist_last (bytes_eq digest.hex trusted.hex) _ _ c' u r2 in
      (trusted, alg, digest, e0, e1, e2, bytes_eq_sound _ _ same)

  -- Finding the key changes nothing, and neither does opening the file.
  key_for_inv :
      (c c' : ServerContext) (k : StoredKey) → key_for setup env req c ≡ done k c' → c ≡ c'
  unfolding key_for
  key_for_inv c c' k h = elim (Bool-cases (is_empty (get (codes "key_id") [] req))) [
    | inl e ↦
        let (key, e0, r0) = or_refuse_inv _ (own_key req) _ c (rw e at h) in
        let (iv, e1, r1) = or_refuse_inv _ (own_iv req) _ c r0 in
        let (tag, e2, r2) = or_refuse_inv _ (own_tag req) _ c r1 in cc r2
    | inr e ↦
        let found = load_key (key_path setup (get (codes "key_id") [] req)) c.files in
        or_refuse_last found _ c c' k (rw e at h)
  ]

  engine_last {ℓ} :
      {A : Type ℓ} (r : Result A) (heading : Bytes) (c c' : ServerContext) (a : A)
      → engine r heading c ≡ done a c'
      → c ≡ c'
  engine_last (ok x) heading c c' a h = cc h
  engine_last (err m) heading c c' a h = absurd (cc h)

  open_file_inv :
      (cipher : Cipher) (ciphertext : Bytes) (k : StoredKey) (c c' : ServerContext)
      (r : CryptoResult)
      → open_file setup env req cipher ciphertext k c ≡ done r c'
      → c ≡ c'
  unfolding open_file open_legacy
  open_file_inv cipher ciphertext k c c' r h = elim (Bool-cases (is_legacy cipher ciphertext)) [
    | inl e ↦
        let named = not (is_empty (get (codes "file_id") [] req)) in
        let (n, r0) = insist_inv _ named _ c (rw e at h) in
        let (trusted, e1, r1) = or_refuse_inv _ (record_of setup env req c) _ c r0 in
        let (alg, e2, r2) = or_refuse_inv _ (hash_from_string trusted.alg) _ c r1 in
        engine_last _ _ c c' r r2
    | inr e ↦ engine_last _ _ c c' r (rw e at h)
  ]

  check_named-Intact :
      (r : CryptoResult) (c c' : ServerContext) (u : Unit {0})
      → is_empty (get (codes "file_id") [] req) ≡ false
      → check_named setup env req r c ≡ done u c'
      → Intact c.files r.content
  check_named-Intact r c c' u named h = check_digest-Intact r c c' u (rw named at h)

  decrypt_admitted-Intact :
      (n : ℕ) (c c' : ServerContext) (reply : Header × Bytes)
      → is_empty (get (codes "file_id") [] req) ≡ false
      → decrypt_admitted setup env req n c ≡ done reply c'
      → Intact c.files reply.1
  unfolding decrypt_admitted
  decrypt_admitted-Intact n c c' reply named h =
      let (cipher, e0, r0) =
        or_refuse_inv _ (cipher_from_string (get (codes "cipher") [] req)) _ c h in
      let (text, e1, r1) = or_refuse_inv _ (read_exact n env.stream) _ c r0 in
      let (k, c2, e2, r2) = pass_on_inv _ (key_for setup env req c) r1 in
      let (r, c3, e3, r3) = pass_on_inv _ (open_file setup env req cipher text k c2) r2 in
      let (u, c4, e4, r4) = pass_on_inv _ (check_named setup env req r c3) r3 in
      let intact = check_named-Intact r c3 c4 u named e4 in
      let same = key_for_inv c c2 k e2 ∙ open_file_inv cipher text k c2 c3 r e3 in
      let (text_given, _) = done_inj (decrypt_header setup env r, r.content) reply _ c' r4 in
      subst (λ (x : ServerContext). Intact x.files reply.1) (sym same)
        (subst (Intact c3.files) (ap (λ (x : Header × Bytes). x.1) text_given) intact)

  -- A text that is handed out for a request with the name of a file has the digest that the server's
  -- record of that file holds; the record is found, and its algorithm is known.
  pub handle_decrypt-Intact :
      (c c' : ServerContext) (reply : Header × Bytes)
      → is_empty (get (codes "file_id") [] req) ≡ false
      → handle_decrypt setup env req c ≡ done reply c'
      → Intact c.files reply.1
  unfolding handle_decrypt logged_in register_client
  handle_decrypt-Intact c c' reply named h =
      let begun = admit setup env req (codes "decrypt") may_decrypt decrypt_denied c in
      let (n, c1, e, r) = pass_on_inv (decrypt_admitted setup env req) begun h in
      let (admitted, same) = admit_inv setup env req _ _ may_decrypt c c1 n e in
      subst (λ (x : ServerContext). Intact x.files reply.1) (sym same)
        (decrypt_admitted-Intact n c1 c' reply named r)
