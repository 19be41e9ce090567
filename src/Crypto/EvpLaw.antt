-- ===== src/Crypto/EvpLaw.antt =====
-- What `evp_decrypt_cipher` of common/src/crypto.cpp gives for the output of `evp_encrypt_cipher`.
use encoder_next.Prelude.{
  String, ◌↔◌, ◌≡◌, ◌≢◌, refl, sym, ap, ◌∙◌, Bool, true, false, some, [], ◌++◌, Bytes, length, ok,
  attempt_inv, attempt_step, ok_inj, >>=_inv, attempt-ok,
}
use encoder_next.Crypto.OpenSslLaw.{OpenSslLaw}
use encoder_next.Crypto.OpenSsl.{
  OpenSsl, ccm_mode, pads, pointer, sealed, set_mode_padding, evp_encrypt_cipher,
  evp_decrypt_cipher, ccm_encrypt_setup,
}

module _ (ssl : OpenSsl) (law : OpenSslLaw ssl) (v : ssl.Evp) (key iv plaintext : Bytes) where
  -- A cipher without a tag.
  evp_plain :
      (out : Bytes × Bytes)
      → law.authenticates v ≡ false
      → evp_encrypt_cipher ssl v plaintext key iv false false ≡ ok out
      → evp_decrypt_cipher ssl v out.0 key iv out.1 false false ≡ ok plaintext
  unfolding evp_encrypt_cipher evp_decrypt_cipher
  evp_plain out plain h =
      let (fresh, e0, r0) = attempt_inv ssl.ctx_new _ _ h in
      let (typed, e1, r1) = attempt_inv (ssl.encrypt_init v fresh) _ _ r0 in
      let padded = set_mode_padding ssl v false typed in
      let (keyed, e2, r2) = attempt_inv (ssl.encrypt_key key (pointer iv) padded) _ _ r1 in
      let (x, e3, r3) = attempt_inv (sealed ssl plaintext keyed) _ _ r2 in
      let (y, e4, r4) = attempt_inv (ssl.encrypt_final x.1) _ _ r3 in
      let (d1, k1, a1) = law.init v fresh typed e1 in
      let a2 = law.padding v (pads (ssl.mode v)) typed d1 a1 in
      let (d3, k3, a3) = law.key_alike v key (pointer iv) _ _ keyed a2 e2 in
      let unread : law.authenticates v ≡ true → ssl.get_tag 16 y.1 ≡ some [] =
        λ t. absurd (cc (t, plain)) in
      let (u, k4, w, k5, done) =
        law.opens v [] plaintext keyed d3 x y (law.no_tag v keyed d3 plain a3) e3 e4 unread in
      let same : (x.0 ++ y.0, []) ≡ out = ok_inj _ _ r4 in
      rw (← same) (
        attempt_step _ _ _ e0 (
          attempt_step _ _ _ k1
            (attempt_step _ _ _ k3 (attempt_step _ _ _ k4 (attempt_step _ _ _ k5 (ap ok done))))))

  -- A cipher with a tag that is set behind the key.
  evp_tagged :
      (out : Bytes × Bytes)
      → ssl.mode v ≢ ccm_mode
      → evp_encrypt_cipher ssl v plaintext key iv true false ≡ ok out
      → evp_decrypt_cipher ssl v out.0 key iv out.1 true false ≡ ok plaintext
  unfolding evp_encrypt_cipher evp_decrypt_cipher
  evp_tagged out other h =
      let (fresh, e0, r0) = attempt_inv ssl.ctx_new _ _ h in
      let (typed, e1, r1) = attempt_inv (ssl.encrypt_init v fresh) _ _ r0 in
      let (keyed, e2, r2) = attempt_inv (ssl.encrypt_key key (pointer iv) typed) _ _ r1 in
      let (x, e3, r3) = attempt_inv (sealed ssl plaintext keyed) _ _ r2 in
      let (y, e4, r4) = attempt_inv (ssl.encrypt_final x.1) _ _ r3 in
      let (t, e5, r5) = attempt_inv (ssl.get_tag 16 y.1) _ _ r4 in
      let (d1, k1, a1) = law.init v fresh typed e1 in
      let (d2, k2, a2) = law.key_alike v key (pointer iv) _ _ keyed a1 e2 in
      let (d3, k3, a3) = law.tag_last v t keyed d2 other a2 (law.tag_length 16 y.1 t e5) in
      let (u, k4, w, k5, done) = law.opens v t plaintext keyed d3 x y a3 e3 e4 (λ _. e5) in
      let same : (x.0 ++ y.0, t) ≡ out = ok_inj _ _ r5 in
      rw (← same) (
        attempt_step _ _ _ e0 (
          attempt_step _ _ _ k1 (
            attempt_step _ _ _ k2 (
              attempt_step _ _ _ k3 (attempt_step _ _ _ k4 (attempt_step _ _ _ k5 (ap ok done)))))))

  -- CCM: the tag is set before the key, and the length is told.
  ccm_opens :
      (fresh typed sized ready keyed told : ssl.Ctx) (x y : Bytes × ssl.Ctx) (t : Bytes)
      → ssl.mode v ≡ ccm_mode
      → ssl.ctx_new ≡ some fresh
      → ssl.encrypt_init v fresh ≡ some typed
      → ssl.set_iv_len (length iv) typed ≡ some sized
      → ssl.set_tag_len 16 sized ≡ some ready
      → ssl.encrypt_key key (pointer iv) ready ≡ some keyed
      → ssl.encrypt_size (length plaintext) keyed ≡ some told
      → sealed ssl plaintext told ≡ some x
      → ssl.encrypt_final x.1 ≡ some y
      → ssl.get_tag 16 y.1 ≡ some t
      → evp_decrypt_cipher ssl v (x.0 ++ y.0) key iv t true true ≡ ok plaintext
  unfolding evp_decrypt_cipher
  ccm_opens fresh typed sized ready keyed told x y t ccm e0 e1 e2 e3 e4 e5 e6 e7 e8 =
      let sixteen = law.tag_length 16 y.1 t e8 in
      let (d1, k1, a1) = law.init v fresh typed e1 in
      let (d2, k2, a2) = law.iv_len v (length iv) typed d1 sized a1 e2 in
      let (d3, k3, a3) =
        law.tag_first v t sized d2 ready ccm a2 (ap (λ n. ssl.set_tag_len n sized) sixteen ∙ e3) in
      let (d4, k4, a4) = law.key_ready v t key (pointer iv) ready d3 keyed a3 e4 in
      let (d5, k5, a5) = law.size v t (length plaintext) keyed d4 told a4 e5 in
      let (u, k6, w, k7, done) = law.opens v t plaintext told d5 x y a5 e6 e7 (λ _. e8) in
      let sizes = ap (λ n. ssl.decrypt_size n d4) (law.ccm_length v plaintext told x y ccm e6 e7) in
      let told_so : String = "EVP_DecryptUpdate(length) failed: " in
      attempt_step _ _ _ e0 (
        attempt_step _ _ _ k1 (
          rw (k2, k3)
            (attempt_step _ _ _ k4 (
              attempt_step (ssl.decrypt_size (length (x.0 ++ y.0)) d4) told_so _ (sizes ∙ k5)
                (attempt_step _ _ _ k6 (attempt_step _ _ _ k7 (ap ok done)))))))

  evp_ccm :
      (out : Bytes × Bytes)
      → ssl.mode v ≡ ccm_mode
      → evp_encrypt_cipher ssl v plaintext key iv true true ≡ ok out
      → evp_decrypt_cipher ssl v out.0 key iv out.1 true true ≡ ok plaintext
  unfolding evp_encrypt_cipher
  evp_ccm out ccm h =
      let (fresh, e0, r0) = attempt_inv ssl.ctx_new _ _ h in
      let (typed, e1, r1) = attempt_inv (ssl.encrypt_init v fresh) _ _ r0 in
      let (ready, e2, r2) = >>=_inv (ccm_encrypt_setup ssl iv typed) _ r1 in
      let (sized, e3, r3) = attempt_inv (ssl.set_iv_len (length iv) typed) _ _ e2 in
      let e4 = attempt-ok (ssl.set_tag_len 16 sized) _ r3 in
      let (keyed, e5, r5) = attempt_inv (ssl.encrypt_key key (pointer iv) ready) _ _ r2 in
      let (told, e6, r6) =
        attempt_inv (ssl.encrypt_size (length plaintext) keyed) "EVP_EncryptUpdate(length) failed: "
          _ r5 in
      let (x, e7, r7) = attempt_inv (sealed ssl plaintext told) _ _ r6 in
      let (y, e8, r8) = attempt_inv (ssl.encrypt_final x.1) _ _ r7 in
      let (t, e9, r9) = attempt_inv (ssl.get_tag 16 y.1) _ _ r8 in
      let opens =
        ccm_opens fresh typed sized ready keyed told x y t ccm e0 e1 e3 e4 e5 e6 e7 e8 e9 in
      ap (λ (o : Bytes × Bytes). evp_decrypt_cipher ssl v o.0 key iv o.1 true true)
        (sym (ok_inj (x.0 ++ y.0, t) out r9))
      ∙ opens

  -- What `evp_encrypt_cipher` has made of a plaintext, `evp_decrypt_cipher` with the same key, IV and
  -- flags and with the tag that was returned turns back into the plaintext. OpenSSL behaves as
  -- `OpenSslLaw` says, and the two flags tell whether the mode authenticates and whether it is CCM.
  pub evp_decrypt-evp_encrypt :
      (aead ccm : Bool) (out : Bytes × Bytes)
      → law.authenticates v ≡ aead
      → ((ccm ≡ true) ↔ (ssl.mode v ≡ ccm_mode))
      → (ccm ≡ true → aead ≡ true)
      → evp_encrypt_cipher ssl v plaintext key iv aead ccm ≡ ok out
      → evp_decrypt_cipher ssl v out.0 key iv out.1 aead ccm ≡ ok plaintext
  evp_decrypt-evp_encrypt false false out a c i h = evp_plain out a h
  evp_decrypt-evp_encrypt true false out a c i h = evp_tagged out (λ m. absurd (cc (c.1 m))) h
  evp_decrypt-evp_encrypt true true out a c i h = evp_ccm out (c.0 refl) h
  evp_decrypt-evp_encrypt false true out a c i h = absurd (cc (i refl))
