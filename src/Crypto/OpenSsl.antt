-- ===== src/Crypto/OpenSsl.antt =====
-- The calls of OpenSSL in common/src/crypto.cpp, and the two functions around them,
-- `evp_encrypt_cipher` and `evp_decrypt_cipher`.
-- OpenSSL is a parameter: a record of its functions, a null pointer or a return other than 1 being
-- `none`. The sizes fit in an `int`. The text of OpenSSL's own error queue behind a message, and
-- freeing the context, are left out.
use encoder_next.Prelude.{
  ℕ, Bool, true, false, not, Option, none, some, [], ◌++◌, Bytes, length, is_empty, ℤ, Result, ok,
  ◌>>=◌, attempt, if◌then◌else◌, ◌&&◌,
}

pub data Mode : Type 0 where
  ecb_mode : Mode
  cbc_mode : Mode
  ccm_mode : Mode
  other_mode : Mode

pub record OpenSsl : Type 1 where
  pub Evp : Type 0
  pub Ctx : Type 0
  pub Md : Type 0
  pub MdCtx : Type 0
  pub get_cipherbyname : Bytes → Option Evp
  pub key_length : Evp → ℤ
  pub iv_length : Evp → ℤ
  pub mode : Evp → Mode
  pub ctx_new : Option Ctx
  pub encrypt_init : Evp → Ctx → Option Ctx
  pub decrypt_init : Evp → Ctx → Option Ctx
  pub set_padding : Bool → Ctx → Ctx
  pub set_iv_len : ℕ → Ctx → Option Ctx
  pub set_tag_len : ℕ → Ctx → Option Ctx
  pub set_tag : Bytes → Ctx → Option Ctx
  pub get_tag : ℕ → Ctx → Option Bytes
  pub encrypt_key : Bytes → Option Bytes → Ctx → Option Ctx
  pub decrypt_key : Bytes → Option Bytes → Ctx → Option Ctx
  pub encrypt_size : ℕ → Ctx → Option Ctx
  pub decrypt_size : ℕ → Ctx → Option Ctx
  pub encrypt_update : Bytes → Ctx → Option (Bytes × Ctx)
  pub decrypt_update : Bytes → Ctx → Option (Bytes × Ctx)
  pub encrypt_final : Ctx → Option (Bytes × Ctx)
  pub decrypt_final : Ctx → Option (Bytes × Ctx)
  pub sha256_md : Md
  pub sha512_md : Md
  pub get_digestbyname : Bytes → Option Md
  pub md_ctx_new : Option MdCtx
  pub digest_init : Md → MdCtx → Option MdCtx
  pub digest_update : Bytes → MdCtx → Option MdCtx
  pub digest_final : MdCtx → Option Bytes

abbrev pub pads : Mode → Bool
pads ecb_mode = true
pads cbc_mode = true
pads _ = false

-- An empty vector is passed as a null pointer.
abbrev pub pointer : Bytes → Option Bytes
pointer bytes = if is_empty bytes then none else some bytes

-- A step that is taken only under a condition.
abbrev pub only_if {ℓ} : {A : Type ℓ} → Bool → (A → Result A) → A → Result A
only_if true step a = step a
only_if false step a = ok a

module _ (ssl : OpenSsl) where
  -- The padding that both directions set.
  abbrev pub set_mode_padding : ssl.Evp → Bool → ssl.Ctx → ssl.Ctx
  set_mode_padding cipher aead ctx =
      if aead then ctx else ssl.set_padding (pads (ssl.mode cipher)) ctx

  abbrev pub ccm_encrypt_setup : Bytes → ssl.Ctx → Result ssl.Ctx
  ccm_encrypt_setup iv ctx = do
    sized ← attempt (ssl.set_iv_len (length iv) ctx) "EVP_CTRL_AEAD_SET_IVLEN failed: "
    attempt (ssl.set_tag_len 16 sized) "EVP_CTRL_AEAD_SET_TAG failed: "

  abbrev pub ccm_decrypt_setup : Bytes → Bytes → ssl.Ctx → Result ssl.Ctx
  ccm_decrypt_setup iv tag ctx = do
    sized ← attempt (ssl.set_iv_len (length iv) ctx) "EVP_CTRL_AEAD_SET_IVLEN failed: "
    attempt (ssl.set_tag tag sized) "EVP_CTRL_AEAD_SET_TAG failed: "

  -- An update that is left out for empty input.
  abbrev pub sealed : Bytes → ssl.Ctx → Option (Bytes × ssl.Ctx)
  sealed bytes ctx = if is_empty bytes then some ([], ctx) else ssl.encrypt_update bytes ctx

  abbrev pub opened : Bytes → ssl.Ctx → Option (Bytes × ssl.Ctx)
  opened bytes ctx = if is_empty bytes then some ([], ctx) else ssl.decrypt_update bytes ctx

  abbrev pub read_tag : Bool → ssl.Ctx → Result Bytes
  read_tag true ctx = attempt (ssl.get_tag 16 ctx) "EVP_CTRL_AEAD_GET_TAG failed: "
  read_tag false ctx = ok []

  -- The ciphertext and the tag, which is empty for a cipher that makes none.
  unfoldable pub evp_encrypt_cipher :
      ssl.Evp → Bytes → Bytes → Bytes → Bool → Bool → Result (Bytes × Bytes)
  evp_encrypt_cipher cipher plaintext key iv aead ccm = do
    fresh ← attempt ssl.ctx_new "EVP_CIPHER_CTX_new failed"
    typed ← attempt (ssl.encrypt_init cipher fresh) "EVP_EncryptInit_ex failed: "
    let padded = set_mode_padding cipher aead typed
    ready ← only_if ccm (ccm_encrypt_setup iv) padded
    keyed ← attempt (ssl.encrypt_key key (pointer iv) ready) "EVP_EncryptInit_ex(key/iv) failed: "
    told ←
        only_if ccm
          (λ c.
            attempt (ssl.encrypt_size (length plaintext) c) "EVP_EncryptUpdate(length) failed: ")
          keyed
    updated ←
        attempt (sealed plaintext told)
          (if ccm then "EVP_EncryptUpdate(data) failed: " else "EVP_EncryptUpdate failed: ")
    final ← attempt (ssl.encrypt_final updated.1) "EVP_EncryptFinal_ex failed: "
    tag ← read_tag aead final.1
    ok (updated.0 ++ final.0, tag)

  unfoldable pub evp_decrypt_cipher :
      ssl.Evp → Bytes → Bytes → Bytes → Bytes → Bool → Bool → Result Bytes
  evp_decrypt_cipher cipher ciphertext key iv tag aead ccm = do
    fresh ← attempt ssl.ctx_new "EVP_CIPHER_CTX_new failed"
    typed ← attempt (ssl.decrypt_init cipher fresh) "EVP_DecryptInit_ex failed: "
    let padded = set_mode_padding cipher aead typed
    ready ← only_if ccm (ccm_decrypt_setup iv tag) padded
    keyed ← attempt (ssl.decrypt_key key (pointer iv) ready) "EVP_DecryptInit_ex(key/iv) failed: "
    armed ←
        only_if (aead && not ccm)
          (λ c. attempt (ssl.set_tag tag c) "EVP_CTRL_AEAD_SET_TAG failed: ") keyed
    told ←
        only_if ccm
          (λ c.
            attempt (ssl.decrypt_size (length ciphertext) c) "EVP_DecryptUpdate(length) failed: ")
          armed
    updated ←
        attempt (opened ciphertext told)
          (if ccm then "EVP_DecryptUpdate(data) failed: " else "EVP_DecryptUpdate failed: ")
    final ← attempt (ssl.decrypt_final updated.1) "EVP_DecryptFinal_ex failed: "
    ok (updated.0 ++ final.0)
