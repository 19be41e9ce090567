-- ===== src/Crypto/OpenSslLaw.antt =====
-- What common/src/crypto.cpp relies on OpenSSL for.
use encoder_next.Prelude.{ℕ, ◌≡◌, ◌≢◌, Bool, true, false, Option, some, [], ◌++◌, Bytes, length}
use encoder_next.Crypto.OpenSsl.{OpenSsl, ccm_mode, sealed, opened}

-- What is relied on: two contexts that were set up by the same calls, one to encrypt and one to
-- decrypt, stay alike under each call; a mode that authenticates has to be given the tag, CCM before
-- the key and the others behind it; and a context opens what one like it has sealed.
pub record OpenSslLaw (ssl : OpenSsl) : Type 1 where
  pub authenticates : ssl.Evp → Bool
  pub Alike : ssl.Evp → ssl.Ctx → ssl.Ctx → Type 0
  pub Ready : ssl.Evp → Bytes → ssl.Ctx → ssl.Ctx → Type 0
  pub init :
      (v : ssl.Evp) (c e : ssl.Ctx)
      → ssl.encrypt_init v c ≡ some e
      → (d : ssl.Ctx) × (ssl.decrypt_init v c ≡ some d) × Alike v e d
  pub padding :
      (v : ssl.Evp) (b : Bool) (e d : ssl.Ctx)
      → Alike v e d
      → Alike v (ssl.set_padding b e) (ssl.set_padding b d)
  pub iv_len :
      (v : ssl.Evp) (n : ℕ) (e d e' : ssl.Ctx)
      → Alike v e d
      → ssl.set_iv_len n e ≡ some e'
      → (d' : ssl.Ctx) × (ssl.set_iv_len n d ≡ some d') × Alike v e' d'
  pub tag_first :
      (v : ssl.Evp) (t : Bytes) (e d e' : ssl.Ctx)
      → ssl.mode v ≡ ccm_mode
      → Alike v e d
      → ssl.set_tag_len (length t) e ≡ some e'
      → (d' : ssl.Ctx) × (ssl.set_tag t d ≡ some d') × Ready v t e' d'
  pub key_alike :
      (v : ssl.Evp) (key : Bytes) (iv : Option Bytes) (e d e' : ssl.Ctx)
      → Alike v e d
      → ssl.encrypt_key key iv e ≡ some e'
      → (d' : ssl.Ctx) × (ssl.decrypt_key key iv d ≡ some d') × Alike v e' d'
  pub key_ready :
      (v : ssl.Evp) (t key : Bytes) (iv : Option Bytes) (e d e' : ssl.Ctx)
      → Ready v t e d
      → ssl.encrypt_key key iv e ≡ some e'
      → (d' : ssl.Ctx) × (ssl.decrypt_key key iv d ≡ some d') × Ready v t e' d'
  pub tag_last :
      (v : ssl.Evp) (t : Bytes) (e d : ssl.Ctx)
      → ssl.mode v ≢ ccm_mode
      → Alike v e d
      → length t ≡ 16
      → (d' : ssl.Ctx) × (ssl.set_tag t d ≡ some d') × Ready v t e d'
  pub no_tag :
      (v : ssl.Evp) (e d : ssl.Ctx) → authenticates v ≡ false → Alike v e d → Ready v [] e d
  pub size :
      (v : ssl.Evp) (t : Bytes) (n : ℕ) (e d e' : ssl.Ctx)
      → Ready v t e d
      → ssl.encrypt_size n e ≡ some e'
      → (d' : ssl.Ctx) × (ssl.decrypt_size n d ≡ some d') × Ready v t e' d'
  pub ccm_length :
      (v : ssl.Evp) (p : Bytes) (e : ssl.Ctx) (x y : Bytes × ssl.Ctx)
      → ssl.mode v ≡ ccm_mode
      → sealed ssl p e ≡ some x
      → ssl.encrypt_final x.1 ≡ some y
      → length (x.0 ++ y.0) ≡ length p
  pub tag_length : (n : ℕ) (e : ssl.Ctx) (t : Bytes) → ssl.get_tag n e ≡ some t → length t ≡ n
  pub opens :
      (v : ssl.Evp) (t p : Bytes) (e d : ssl.Ctx) (x y : Bytes × ssl.Ctx)
      → Ready v t e d
      → sealed ssl p e ≡ some x
      → ssl.encrypt_final x.1 ≡ some y
      → (authenticates v ≡ true → ssl.get_tag 16 y.1 ≡ some t)
      → (u : Bytes × ssl.Ctx) × (opened ssl (x.0 ++ y.0) d ≡ some u)
        × (w : Bytes × ssl.Ctx) × (ssl.decrypt_final u.1 ≡ some w)
        × (u.0 ++ w.0 ≡ p)
