-- ===== src/Crypto/Recovery.antt =====
-- What `gost_native_recover_legacy` of common/src/gost_native.cpp gives out.
use encoder_next.Prelude.{
  ℕ, ◌-◌, ◌≡◌, inl, inr, sym, refl, ◌∙◌, not, ◌&&◌, some, Bytes, length, take, take_all, is_empty,
  bytes_eq, bytes_eq_sound, get_or, ◌==◌, leb, ◌+◌, ◌%◌, Bool-cases, if◌then◌else◌, Result, ok, err,
  attempt_inv, require_inv, ok_inj, >>=_inv, arith, ◌≤◌, ap,
}
use mathlib.Core.Path.{subst}
use encoder_next.Crypto.Ciphers.{kuznechik}
use encoder_next.Crypto.Names.{HashAlg}
use encoder_next.Crypto.OpenSsl.{OpenSsl}
use encoder_next.Crypto.Digest.{HashResult, hash}
use encoder_next.Crypto.Gost.{
  Akrypt, CryptoResult, max_size, setup, decrypt_blocks, is_padded, relabel, recovered,
  recover_padded, gost_native_recover_legacy,
}

relabel_inv {ℓ} : {A : Type ℓ} (x : Result A) {a : A} → relabel x ≡ ok a → x ≡ ok a
relabel_inv (ok a) h = h
relabel_inv (err e) h = absurd (cc h)

less_none : (xs : Bytes) → take (length xs - 0) xs ≡ xs
less_none xs =
    let same : length xs - 0 ≡ length xs = omega arith in ap (λ n. take n xs) same ∙ take_all xs

module _ (ak : Akrypt) (ssl : OpenSsl) (alg : HashAlg) (digest : Bytes) where
  -- A text that has the digest and begins the decrypted text, of which at most 15 bytes are left off.
  abbrev pub Trusted : Bytes → CryptoResult → Type 0
  Trusted plain r =
      (h : HashResult) × (hash ssl alg r.content ≡ ok h)
      × (h.hex ≡ digest)
      × (n : ℕ) × (n ≤ 15)
      × (r.content ≡ take (length plain - n) plain)

  recover_padded-Trusted :
      (plain : Bytes) (r : CryptoResult)
      → recover_padded ak ssl alg digest plain ≡ ok r
      → Trusted plain r
  unfolding recover_padded
  recover_padded-Trusted plain r h =
      let padding = get_or plain (length plain - 1) 0 in
      let shorter = take (length plain - padding) plain in
      let (full, r0) = require_inv (not (is_empty plain)) _ _ h in
      let (padded, r1) = require_inv (is_padded plain padding) _ _ r0 in
      let (again, e2, r2) = >>=_inv (relabel (hash ssl alg shorter)) _ r1 in
      let (same, r3) = require_inv (bytes_eq again.hex digest) _ _ r2 in
      subst (Trusted plain) (ok_inj _ r r3)
        (again, relabel_inv _ e2, bytes_eq_sound _ _ same, padding, ground arith, refl)

  recover_tested :
      (plain : Bytes) (calculated : HashResult) (r : CryptoResult)
      → hash ssl alg plain ≡ ok calculated
      → (if bytes_eq calculated.hex digest
          then ok (recovered plain)
          else recover_padded ak ssl alg digest plain)
        ≡ ok r
      → Trusted plain r
  recover_tested plain calculated r e h = elim (Bool-cases (bytes_eq calculated.hex digest)) [
    | inl t ↦
        subst (Trusted plain) (ok_inj (recovered plain) r (rw t at h))
          (calculated, e, bytes_eq_sound _ _ t, 0, omega arith, sym (less_none plain))
    | inr t ↦ recover_padded-Trusted plain r (rw t at h)
  ]

  -- What the recovery of an old file gives out has the digest that was asked for, and is the text that
  -- CBC decrypts with this key, less at most 15 bytes at its end.
  pub gost_native_recover_legacy-Trusted :
      (frame key : Bytes) (r : CryptoResult)
      → gost_native_recover_legacy ak ssl frame key alg digest ≡ ok r
      → (ctx : ak.Key) × (plain : Bytes) × (setup ak kuznechik key ≡ some ctx)
        × (decrypt_blocks ak ctx frame ≡ some plain)
        × Trusted plain r
  unfolding gost_native_recover_legacy
  gost_native_recover_legacy-Trusted frame key r h =
      let (shaped, r0) =
        require_inv
          (length key == 32
            && leb 16 (length frame)
            && (length frame - 16) % 16 == 0
            && leb (length frame) (max_size + 32)
            && not (is_empty digest))
          _ _ h in
      let (ready, r1) = require_inv ak.ready _ _ r0 in
      let (ctx, e2, r2) = attempt_inv (setup ak kuznechik key) _ _ r1 in
      let (plain, e3, r3) = attempt_inv (decrypt_blocks ak ctx frame) _ _ r2 in
      let (calculated, e4, r4) = >>=_inv (hash ssl alg plain) _ r3 in
      (ctx, plain, e2, e3, recover_tested plain calculated r e4 r4)
