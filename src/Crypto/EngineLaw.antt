-- ===== src/Crypto/EngineLaw.antt =====
-- What `CryptoEngine::decrypt` gives for the output of `CryptoEngine::encrypt`, common/src/crypto.cpp.
use encoder_next.Prelude.{
  ℕ, ◌≡◌, ◌↔◌, refl, sym, ap, ◌∙◌, inl, inr, Bool, true, false, not, ◌&&◌, ◌||◌, Option, some, List,
  [], ◌∷◌, Bytes, length, is_empty, all, ◌==◌, Bool-cases, Result, ok, ◌>>=◌, attempt, attempt_inv,
  attempt_step, require_inv, require_step, ok_inj, >>=_inv, arith,
}
use encoder_next.Crypto.Ciphers.{Cipher, index}
use encoder_next.Crypto.Specs.{CipherSpec, cipher_specs}
use encoder_next.Crypto.Names.{spec_of}
use encoder_next.Crypto.OpenSsl.{
  OpenSsl, ccm_mode, pointer, sealed, only_if, ccm_encrypt_setup, evp_encrypt_cipher,
}
use encoder_next.Crypto.OpenSslLaw.{OpenSslLaw}
use encoder_next.Crypto.EvpLaw.{evp_decrypt-evp_encrypt}
use encoder_next.Crypto.Gost.{Akrypt, CryptoResult}
use encoder_next.Crypto.GostLaw.{AkryptLaw, Fills, gost_native_decrypt-gost_native_encrypt}
use encoder_next.Crypto.Engine.{
  size_of, draw_iv, evp_of, encrypt_evp, encrypt, decrypt_evp, decrypt,
}

-- A test that all rows pass, the row of a cipher passes.
pub spec_of-all :
    (p : CipherSpec → Bool) (c : Cipher) (rows : List CipherSpec) (s : CipherSpec)
    → all p rows ≡ true
    → spec_of c rows ≡ some s
    → p s ≡ true
unfolding spec_of
spec_of-all p c [] s h k = absurd (cc k)
spec_of-all p c (r ∷ rows) s h k = elim (Bool-cases (index r.cipher == index c)) [
  | inl e ↦
      let same : r ≡ s = cc (rw e at k) in
      let first : p r ≡ true = ground arith in ap p (sym same) ∙ first
  | inr e ↦ spec_of-all p c rows s (ground arith) (rw (e, spec_of) at k)
]

-- CCM is a mode that authenticates.
abbrev ccm_implies : CipherSpec → Bool
ccm_implies s = not s.ccm || s.aead

ccm_tagged : all ccm_implies cipher_specs ≡ true
ccm_tagged = refl

module _ (ssl : OpenSsl) (law : OpenSslLaw ssl) where
  -- The rows of the table tell what the ciphers of OpenSSL are.
  abbrev pub Described : Bool → Akrypt → Type 0
  Described native ak =
      (c : Cipher) (s : CipherSpec) (v : ssl.Evp)
      → spec_of c cipher_specs ≡ some s
      → evp_of native ssl ak s ≡ some v
      → (law.authenticates v ≡ s.aead) × ((s.ccm ≡ true) ↔ (ssl.mode v ≡ ccm_mode))

  -- A cipher that authenticates returns a tag of 16 bytes.
  evp_encrypt_tag :
      (v : ssl.Evp) (plaintext key iv : Bytes) (ccm : Bool) (out : Bytes × Bytes)
      → evp_encrypt_cipher ssl v plaintext key iv true ccm ≡ ok out
      → length out.1 ≡ 16
  unfolding evp_encrypt_cipher
  evp_encrypt_tag v plaintext key iv ccm out h =
      let (fresh, e0, r0) = attempt_inv ssl.ctx_new _ _ h in
      let (typed, e1, r1) = attempt_inv (ssl.encrypt_init v fresh) _ _ r0 in
      let (ready, e2, r2) = >>=_inv (only_if ccm (ccm_encrypt_setup ssl iv) typed) _ r1 in
      let (keyed, e3, r3) = attempt_inv (ssl.encrypt_key key (pointer iv) ready) _ _ r2 in
      let (told, e4, r4) =
        >>=_inv
          (only_if ccm
            (λ c.
              attempt (ssl.encrypt_size (length plaintext) c) "EVP_EncryptUpdate(length) failed: ")
            keyed)
          _ r3 in
      let (x, e5, r5) = attempt_inv (sealed ssl plaintext told) _ _ r4 in
      let (y, e6, r6) = attempt_inv (ssl.encrypt_final x.1) _ _ r5 in
      let (t, e7, r7) = attempt_inv (ssl.get_tag 16 y.1) _ _ r6 in
      ap (λ (o : Bytes × Bytes). length o.1) (sym (ok_inj _ out r7)) ∙ law.tag_length 16 y.1 t e7

  evp_tag_there :
      (v : ssl.Evp) (plaintext key iv : Bytes) (aead ccm : Bool) (out : Bytes × Bytes)
      → evp_encrypt_cipher ssl v plaintext key iv aead ccm ≡ ok out
      → not (aead && is_empty out.1) ≡ true
  evp_tag_there v plaintext key iv false ccm out h = refl
  evp_tag_there v plaintext key iv true ccm out h =
      let long = evp_encrypt_tag v plaintext key iv ccm out h in ground arith

  module _ (native : Bool) (ak : Akrypt) (gost : AkryptLaw ak) (named : Described native ak) where
    abbrev plain_result : Bytes → Result CryptoResult
    plain_result text = ok (record { content = text; key = []; iv = []; tag = [] })

    decrypt_evp-encrypt_evp :
        (c : Cipher) (s : CipherSpec) (plaintext : Bytes) (rand_key rand_iv : ℕ → Option Bytes)
        (r : CryptoResult)
        → spec_of c cipher_specs ≡ some s
        → encrypt_evp native ssl ak s plaintext rand_key rand_iv ≡ ok r
        → decrypt_evp native ssl ak s r.content r.key r.iv r.tag ≡ plain_result plaintext
    unfolding encrypt_evp decrypt_evp
    decrypt_evp-encrypt_evp c s plaintext rand_key rand_iv r row h =
        let (v, e0, r0) = attempt_inv (evp_of native ssl ak s) _ _ h in
        let (keyed, r1) = require_inv (not (size_of (ssl.key_length v) == 0)) _ _ r0 in
        let (key, e2, r2) = attempt_inv (rand_key (size_of (ssl.key_length v))) _ _ r1 in
        let (iv, e3, r3) = attempt_inv (draw_iv rand_iv (size_of (ssl.iv_length v))) _ _ r2 in
        let (out, e4, r4) = >>=_inv (evp_encrypt_cipher ssl v plaintext key iv s.aead s.ccm) _ r3 in
        let (aead, ccm) = named c s v row e0 in
        let row_fine = spec_of-all ccm_implies c cipher_specs s ccm_tagged row in
        let tagged : s.ccm ≡ true → s.aead ≡ true = λ t. ground arith in
        let back =
          evp_decrypt-evp_encrypt ssl law v key iv plaintext s.aead s.ccm out aead ccm tagged e4 in
        ap (λ (x : CryptoResult). decrypt_evp native ssl ak s x.content x.key x.iv x.tag)
          (sym (ok_inj _ r r4))
        ∙ require_step (not (s.aead && is_empty out.1)) _ _
            (evp_tag_there v plaintext key iv s.aead s.ccm out e4)
            (attempt_step (evp_of native ssl ak s) _ _ e0
              (ap (λ x. x >>= λ (text : Bytes). plain_result text) back))

    -- What `encrypt` returns with any cipher of the table, its key, IV and tag included, `decrypt`
    -- turns back into the plaintext, in a build with GOST or without. OpenSSL and libakrypt behave as
    -- their laws say, the table describes OpenSSL's ciphers, and `RAND_bytes` fills its buffers.
    pub decrypt-encrypt :
        (c : Cipher) (plaintext : Bytes) (rand_key rand_iv : ℕ → Option Bytes) (r : CryptoResult)
        → Fills rand_key
        → Fills rand_iv
        → encrypt native ssl ak c plaintext rand_key rand_iv ≡ ok r
        → decrypt native ssl ak c r.content r.key r.iv r.tag ≡ plain_result plaintext
    unfolding encrypt decrypt
    decrypt-encrypt c plaintext rand_key rand_iv r fk fi h =
        let (s, row, r0) = attempt_inv (spec_of c cipher_specs) _ _ h in
        attempt_step (spec_of c cipher_specs) _ _ row (elim (Bool-cases s.gost) [
          | inr e ↦ rw e (decrypt_evp-encrypt_evp c s plaintext rand_key rand_iv r row (rw e at r0))
          | inl e ↦ elim (Bool-cases native) [
            | inl n ↦
                rw (e, n)
                  (gost_native_decrypt-gost_native_encrypt ak gost c plaintext rand_key rand_iv r fk
                    fi (rw (e, n) at r0))
            | inr n ↦ absurd (cc (rw (e, n) at r0))
          ]
        ])
