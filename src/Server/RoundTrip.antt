-- ===== src/Server/RoundTrip.antt =====
-- What `load_key` and `parse_hash_record` of server/src/main.cpp read from what was stored.
use encoder_next.Prelude.{
  ℕ, ◌+◌, ◌^◌, ◌<◌, ◌≡◌, refl, ap, ◌∙◌, true, false, some, [], ◌∷◌, ◌++◌, Bytes, length, is_empty,
  drop, take_at, drop_at, take_all, ltb, find-put_same, length-append, all, not_sep, ◌==◌, ◌||◌,
  arith, Map,
}
use encoder_next.Encoding.Bytes.{read_be32, write_be32, read_be32-write_be32}
use encoder_next.Protocol.{cut}
use encoder_next.Server.Context.{written}
use encoder_next.Server.Keys.{
  StoredKey, key_blob, key_len, iv_len, tag_len, parse_key, write_file, load_key, read_key,
  full_record, from_colon, parse_hash_record, hash_payload,
}

-- The parts of a key have lengths of 32 bits.
abbrev pub Fits : StoredKey → Type 0
Fits k = (length k.key < 2 ^ 32) × (length k.iv < 2 ^ 32) × (length k.tag < 2 ^ 32)

lengths :
    (k : StoredKey)
    → Fits k
    → (key_len (key_blob k) ≡ length k.key)
      × (iv_len (key_blob k) ≡ length k.iv)
      × (tag_len (key_blob k) ≡ length k.tag)
      × (drop 12 (key_blob k) ≡ k.key ++ (k.iv ++ k.tag))
      × (length (key_blob k) ≡ 12 + length k.key + length k.iv + length k.tag)
unfolding key_blob read_be32 write_be32
lengths k (a, b, c) = (
  (read_be32-write_be32 (length k.key) a).0,
  (read_be32-write_be32 (length k.iv) b).0,
  (read_be32-write_be32 (length k.tag) c).0,
  refl,
  omega (arith, length-append k.key (k.iv ++ k.tag), length-append k.iv k.tag),
)

parse_key-key_blob : (k : StoredKey) → Fits k → parse_key (key_blob k) ≡ some k
unfolding parse_key
parse_key-key_blob k fits =
    let (a, b, c, rest, total) = lengths k fits in
    let fine : ltb (length (key_blob k)) 12 ≡ false = ground arith in
    let full : ltb (12 + length k.key + length k.iv + length k.tag)
          (12 + length k.key + length k.iv + length k.tag)
        ≡ false =
      ground arith in
    rw
      (
        fine,
        a,
        b,
        c,
        rest,
        total,
        full,
        take_at (length k.key) k.key (k.iv ++ k.tag) refl,
        drop_at (length k.key) k.key (k.iv ++ k.tag) refl,
        take_at (length k.iv) k.iv k.tag refl,
        drop_at (length k.iv) k.iv k.tag refl,
      )
      (ap (λ (t : Bytes). some (record k { tag = t })) (take_all k.tag))

cut-first :
    (sep : ℕ) (before after : Bytes)
    → all (not_sep sep) before ≡ true
    → cut sep (before ++ (sep ∷ after)) ≡ some (before, after)
unfolding cut
cut-first sep [] after h = let same : (sep == sep) ≡ true = ground arith in rw same refl
cut-first sep (c ∷ cs) after h =
    let other : (c == sep) ≡ false = ground arith in
    let rest = cut-first sep cs after (ground arith) in rw (other, rest) refl

-- A key that was stored under a path is loaded from it as it was: the key, the IV and the tag.
pub load_key-write_file :
    (k : StoredKey) (path : Bytes) (files : Map Bytes)
    → Fits k
    → load_key path (write_file written path (key_blob k) files).1 ≡ some k
unfolding load_key write_file
load_key-write_file k path files fits =
    ap read_key (find-put_same path (key_blob k) files) ∙ parse_key-key_blob k fits

-- The record of a digest is read as it was written, if neither the algorithm nor the digest is empty
-- or has a colon in it.
pub parse_hash_record-hash_payload :
    (alg hex name : Bytes)
    → all (not_sep b':') alg ≡ true
    → all (not_sep b':') hex ≡ true
    → (is_empty alg || is_empty hex) ≡ false
    → parse_hash_record (hash_payload alg hex name)
      ≡ some (record { alg = alg; hex = hex; file_name = name })
unfolding parse_hash_record
parse_hash_record-hash_payload alg hex name a h full =
    ap from_colon (cut-first b':' alg (hex ++ (b':' ∷ name)) a)
    ∙ ap (full_record alg) (cut-first b':' hex name h)
    ∙ rw full refl
