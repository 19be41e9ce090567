-- ===== src/Crypto/GostLaw.antt =====
-- What is read from the frames and the old files of common/src/gost_native.cpp.
use encoder_next.Prelude.{
  ℕ, suc, ◌+◌, ◌*◌, ◌≤◌, ◌≡◌, refl, sym, ap, ◌∙◌, true, not, ◌&&◌, Option, some, [], ◌∷◌, ◌++◌,
  Bytes, length, length-append, take_at, drop_at, leb, ◌==◌, ok, attempt_inv, attempt_step,
  require_inv, require_step, ok_inj, arith,
}
use encoder_next.Crypto.Ciphers.{Cipher}
use encoder_next.Crypto.Gost.{
  Akrypt, CryptoResult, header_size, max_size, id_of, block_of, write_le, read_le, clear_first,
  clear_last, frame_header, setup, gost_native_encrypt, gost_native_decrypt, takes, marked,
  frame_size, sized, open_frame,
}

-- What is relied on: MGM keeps the length of the text, gives a tag as long as the IV, and opens what
-- it has sealed.
pub record AkryptLaw (ak : Akrypt) : Type 0 where
  pub opens :
      (k : ak.Key) (header plain iv : Bytes) (out : Bytes × Bytes)
      → ak.encrypt_mgm k header plain iv ≡ some out
      → (length out.0 ≡ length plain)
        × (length out.1 ≡ length iv)
        × (ak.decrypt_mgm k header out.0 iv out.1 ≡ some plain)

-- `RAND_bytes` fills the buffer that it is given.
abbrev pub Fills : (ℕ → Option Bytes) → Type 0
Fills rand = (n : ℕ) (bytes : Bytes) → rand n ≡ some bytes → length bytes ≡ n

length-clear_last : (bytes : Bytes) → length (clear_last bytes) ≡ length bytes
unfolding clear_last
length-clear_last [] = refl
length-clear_last (b ∷ []) = refl
length-clear_last (b ∷ c ∷ bs) = ap suc (length-clear_last (c ∷ bs))

length-clear : (bytes : Bytes) → length (clear_last (clear_first bytes)) ≡ length bytes
length-clear [] = length-clear_last []
length-clear (b ∷ bs) = length-clear_last (clear_first (b ∷ bs))

read_le-write_le : (n : ℕ) → n ≤ max_size → read_le (write_le 8 n) ≡ n
unfolding read_le write_le
read_le-write_le n h = omega arith

open_parts :
    (ak : Akrypt) (ctx : ak.Key) (block size : ℕ) (header iv text tag : Bytes)
    → length header ≡ header_size
    → length iv ≡ block
    → length text ≡ size
    → open_frame ak ctx block size (header ++ (iv ++ (text ++ tag)))
      ≡ ak.decrypt_mgm ctx header text iv tag
open_parts ak ctx block size header iv text tag h b s =
    rw
      (
        open_frame,
        take_at header_size header (iv ++ (text ++ tag)) h,
        drop_at header_size header (iv ++ (text ++ tag)) h,
        take_at block iv (text ++ tag) b,
        drop_at block iv (text ++ tag) b,
        take_at size text tag s,
        drop_at size text tag s,
      )
      refl

length-frame_header : (cipher : Cipher) (n : ℕ) → length (frame_header cipher n) ≡ header_size
unfolding write_le
length-frame_header cipher n = refl

module _ (ak : Akrypt) (law : AkryptLaw ak) (cipher : Cipher) (plain : Bytes) where
  abbrev framed : Bytes → Bytes × Bytes → Bytes
  framed iv out = frame_header cipher (length plain) ++ (iv ++ (out.0 ++ out.1))

  frame_size_lem :
      (iv : Bytes) (out : Bytes × Bytes)
      → (not (id_of cipher == 0) && leb (length plain) max_size) ≡ true
      → frame_size (framed iv out) ≡ length plain
  unfolding write_le
  frame_size_lem iv out h = read_le-write_le (length plain) (ground arith)

  -- What the guards of the decryption read in a frame.
  framed-guards :
      (key iv : Bytes) (out : Bytes × Bytes)
      → (not (id_of cipher == 0) && leb (length plain) max_size) ≡ true
      → length key ≡ 32
      → length iv ≡ block_of cipher
      → length out.0 ≡ length plain
      → length out.1 ≡ length iv
      → (takes cipher (framed iv out) key ≡ true)
        × (marked cipher (framed iv out) ≡ true)
        × (sized (block_of cipher) (length plain) (framed iv out) ≡ true)
  unfolding write_le
  framed-guards key iv out small long block same tag =
      let total : length (iv ++ (out.0 ++ out.1)) ≡ length iv + (length out.0 + length out.1) =
        omega (arith, length-append iv (out.0 ++ out.1), length-append out.0 out.1) in
      let fits : length (framed iv out) ≡ header_size + block_of cipher * 2 + length plain =
        omega arith in
      (ground arith, ground arith, ground arith)

  -- The frame of a text, taken apart again.
  frame_opens :
      (ctx : ak.Key) (key iv : Bytes) (out : Bytes × Bytes)
      → (not (id_of cipher == 0) && leb (length plain) max_size) ≡ true
      → ak.ready ≡ true
      → length key ≡ 32
      → length iv ≡ block_of cipher
      → setup ak cipher key ≡ some ctx
      → ak.encrypt_mgm ctx (frame_header cipher (length plain)) plain iv ≡ some out
      → gost_native_decrypt ak cipher
          (frame_header cipher (length plain) ++ (iv ++ (out.0 ++ out.1)))
          key
        ≡ ok (record { content = plain; key = []; iv = []; tag = [] })
  unfolding gost_native_decrypt
  frame_opens ctx key iv out small ready long block keyed sealed =
      let (same, tag, opens) = law.opens ctx _ plain iv out sealed in
      let frame = frame_header cipher (length plain) ++ (iv ++ (out.0 ++ out.1)) in
      let size = frame_size_lem iv out small in
      let (takes_it, marks_it, fits) = framed-guards key iv out small long block same tag in
      require_step (takes cipher frame key) _ _ takes_it (
        require_step (marked cipher frame) _ _ marks_it (
          require_step (sized (block_of cipher) (frame_size frame) frame) _ _
            (ap (λ n. sized (block_of cipher) n frame) size ∙ fits)
            (require_step ak.ready _ _ ready (
              attempt_step (setup ak cipher key) _ _ keyed (
                attempt_step (open_frame ak ctx (block_of cipher) (frame_size frame) frame) _ _
                  (ap (λ n. open_frame ak ctx (block_of cipher) n frame) size
                    ∙ open_parts ak ctx _ _ _ iv out.0 out.1
                        (length-frame_header cipher (length plain)) block same
                    ∙ opens)
                  refl)))))

  -- A text that the GOST ciphers have sealed, they open again, with the key that was returned.
  -- The MGM of libakrypt behaves as `AkryptLaw` says, and `RAND_bytes` fills its buffers.
  pub gost_native_decrypt-gost_native_encrypt :
      (rand_key rand_iv : ℕ → Option Bytes) (r : CryptoResult)
      → Fills rand_key
      → Fills rand_iv
      → gost_native_encrypt ak cipher plain rand_key rand_iv ≡ ok r
      → gost_native_decrypt ak cipher r.content r.key
        ≡ ok (record { content = plain; key = []; iv = []; tag = [] })
  unfolding gost_native_encrypt
  gost_native_decrypt-gost_native_encrypt rand_key rand_iv r fk fi h =
      let (small, r0) =
        require_inv (not (id_of cipher == 0) && leb (length plain) max_size) _ _ h in
      let (ready, r1) = require_inv ak.ready _ _ r0 in
      let (key, e2, r2) = attempt_inv (rand_key 32) _ _ r1 in
      let (random, e3, r3) = attempt_inv (rand_iv (block_of cipher)) _ _ r2 in
      let (ctx, e4, r4) = attempt_inv (setup ak cipher key) _ _ r3 in
      let iv = clear_last (clear_first random) in
      let (out, e5, r5) =
        attempt_inv (ak.encrypt_mgm ctx (frame_header cipher (length plain)) plain iv) _ _ r4 in
      let block = length-clear random ∙ fi _ random e3 in
      let opens = frame_opens ctx key iv out small ready (fk 32 key e2) block e4 e5 in
      ap (λ (x : CryptoResult). gost_native_decrypt ak cipher x.content x.key) (sym (ok_inj _ r r5))
      ∙ opens
