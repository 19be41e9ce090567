-- ===== src/Crypto/Toy.antt =====
-- A small OpenSSL and a small libakrypt, which satisfy the laws: they shift each byte by one.
use encoder_next.Prelude.{
  ℕ, zero, suc, ◌-◌, ◌≡◌, inl, inr, refl, sym, ap, ◌∙◌, Bool, true, not, ◌&&◌, Option, none, some,
  [], ◌∷◌, ◌++◌, Bytes, codes, bytes_eq, length, replicate, all, map, append-nil, if◌then◌else◌,
  Bool-cases, Option-cases, pos, arith,
}
use encoder_next.Crypto.Specs.{CipherSpec, cipher_specs}
use encoder_next.Crypto.OpenSsl.{OpenSsl, other_mode, sealed, opened}
use encoder_next.Crypto.OpenSslLaw.{OpenSslLaw}
use encoder_next.Crypto.Gost.{Akrypt}
use encoder_next.Crypto.GostLaw.{AkryptLaw, Fills}
use encoder_next.Crypto.EngineLaw.{Described, spec_of-all}

abbrev gcm : Bytes
gcm = codes "aes-256-gcm"

abbrev pub shift : Bytes → Bytes
shift bytes = map suc bytes

abbrev pub unshift : Bytes → Bytes
unshift bytes = map (λ b. b - 1) bytes

unshift-shift : (bytes : Bytes) → unshift (shift bytes) ≡ bytes
unshift-shift [] = refl
unshift-shift (b ∷ bs) =
    let back : suc b - 1 ≡ b = omega arith in
    ap (λ c. c ∷ unshift (shift bs)) back ∙ ap (◌∷◌ b) (unshift-shift bs)

length-shift : (bytes : Bytes) → length (shift bytes) ≡ length bytes
length-shift [] = refl
length-shift (b ∷ bs) = ap suc (length-shift bs)

pub length-replicate : (n b : ℕ) → length (replicate n b) ≡ n
length-replicate zero b = refl
length-replicate (suc n) b = ap suc (length-replicate n b)

-- Only AES-256 in Galois mode is there.
abbrev pub toy_ssl : OpenSsl
toy_ssl = record {
  Evp = Unit {0};
  Ctx = Unit {0};
  Md = Unit {0};
  MdCtx = Bytes;
  get_cipherbyname = λ name. if bytes_eq name gcm then some tt else none;
  key_length = λ v. pos 4;
  iv_length = λ v. pos 2;
  mode = λ v. other_mode;
  ctx_new = some tt;
  encrypt_init = λ v c. some c;
  decrypt_init = λ v c. some c;
  set_padding = λ b c. c;
  set_iv_len = λ n c. some c;
  set_tag_len = λ n c. some c;
  set_tag = λ t c. some c;
  get_tag = λ n c. some (replicate n 7);
  encrypt_key = λ k iv c. some c;
  decrypt_key = λ k iv c. some c;
  encrypt_size = λ n c. some c;
  decrypt_size = λ n c. some c;
  encrypt_update = λ p c. some (shift p, c);
  decrypt_update = λ p c. some (unshift p, c);
  encrypt_final = λ c. some ([], c);
  decrypt_final = λ c. some ([], c);
  sha256_md = tt;
  sha512_md = tt;
  get_digestbyname = λ name. some tt;
  md_ctx_new = some [];
  digest_init = λ md c. some c;
  digest_update = λ bytes c. some (c ++ bytes);
  digest_final = λ c. some c;
}

pub toy_opens :
    (p : Bytes) (x y : Bytes × Unit {0})
    → sealed toy_ssl p tt ≡ some x
    → some ([], tt) ≡ some y
    → (u : Bytes × Unit {0}) × (opened toy_ssl (x.0 ++ y.0) tt ≡ some u)
      × (w : Bytes × Unit {0}) × (some ([], tt) ≡ some w)
      × (u.0 ++ w.0 ≡ p)
toy_opens [] x y h k =
    let ex : ([], tt) ≡ x = cc h in
    let ey : ([], tt) ≡ y = cc k in rw (← ex, ← ey) (([], tt), refl, ([], tt), refl, refl)
toy_opens (b ∷ bs) x y h k =
    let ex : (shift (b ∷ bs), tt) ≡ x = cc h in
    let ey : ([], tt) ≡ y = cc k in
    let back : unshift (shift (b ∷ bs) ++ []) ≡ b ∷ bs =
      ap unshift (append-nil (shift (b ∷ bs))) ∙ unshift-shift (b ∷ bs) in
    rw (← ex, ← ey)
      ((unshift (shift (b ∷ bs) ++ []), tt), refl, ([], tt), refl, append-nil _ ∙ back)

pub tag_of : (n : ℕ) (t : Bytes) → some (replicate n 7) ≡ some t → t ≡ replicate n 7
tag_of n t h = let e : replicate n 7 ≡ t = cc h in sym e

abbrev pub toy_law : OpenSslLaw toy_ssl
toy_law = record {
  authenticates = λ v. true;
  Alike = λ v e d. Unit {0};
  Ready = λ v t e d. Unit {0};
  init = λ v c e h. (tt, refl, tt);
  padding = λ v b e d a. tt;
  iv_len = λ v n e d e' a h. (tt, refl, tt);
  tag_first = λ v t e d e' m a h. (tt, refl, tt);
  key_alike = λ v k iv e d e' a h. (tt, refl, tt);
  key_ready = λ v t k iv e d e' a h. (tt, refl, tt);
  tag_last = λ v t e d m a l. (tt, refl, tt);
  no_tag = λ v e d h a. tt;
  size = λ v t n e d e' a h. (tt, refl, tt);
  ccm_length = λ v p e x y m. absurd (cc m);
  tag_length = λ n e t h. ap length (tag_of n t h) ∙ length-replicate n 7;
  opens = λ v t p e d x y a h k g. toy_opens p x y h k;
}

abbrev pub toy_akrypt : Akrypt
toy_akrypt = record {
  Key = Bytes;
  ready = true;
  magma_key = λ key. some key;
  kuznechik_key = λ key. some key;
  encrypt_mgm = λ k header p iv. some (shift p, iv);
  decrypt_mgm = λ k header c iv t. some (unshift c);
  decrypt_cbc = λ k bytes iv. some (unshift bytes);
}

pub toy_mgm :
    (p iv : Bytes) (out : Bytes × Bytes)
    → some (shift p, iv) ≡ some out
    → (length out.0 ≡ length p) × (length out.1 ≡ length iv) × (some (unshift out.0) ≡ some p)
toy_mgm p iv out h =
    let e : (shift p, iv) ≡ out = cc h in rw (← e) (length-shift p, refl, ap some (unshift-shift p))

abbrev pub toy_akrypt_law : AkryptLaw toy_akrypt
toy_akrypt_law = record { opens = λ k header p iv out h. toy_mgm p iv out h }

abbrev pub toy_rand : ℕ → Option Bytes
toy_rand n = some (replicate n 5)

pub toy_rand-Fills : Fills toy_rand
toy_rand-Fills n bytes h =
    let e : replicate n 5 ≡ bytes = cc h in ap length (sym e) ∙ length-replicate n 5

abbrev gcm_row : Option Bytes → CipherSpec → Bool
gcm_row none s = true
gcm_row (some name) s = if bytes_eq name gcm then s.aead && not s.ccm else true

abbrev gcm_flags : CipherSpec → Bool
gcm_flags s = gcm_row s.openssl_name s

gcm_rows : all gcm_flags cipher_specs ≡ true
gcm_rows = refl

pub toy_Described : Described toy_ssl toy_law true toy_akrypt
toy_Described c s v row found =
    let fine = spec_of-all gcm_flags c cipher_specs s gcm_rows row in
    elim (Option-cases s.openssl_name) [
      | inl e ↦ absurd (cc (rw e at found))
      | inr (name, e) ↦ elim (Bool-cases (bytes_eq name gcm)) [
        | inl t ↦
            let flags : (s.aead && not s.ccm) ≡ true = rw (e, t) at fine in
            (ground arith, ((λ k. absurd (ground arith)), λ m. absurd (cc m)))
        | inr t ↦ absurd (cc (rw (e, t) at found))
      ]
    ]
