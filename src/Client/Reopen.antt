-- ===== src/Client/Reopen.antt =====
-- What client/src/client_core.cpp reads of the encryption of a file that it encrypted.
use encoder_next.Prelude.{
  ◌++◌, ◌≡◌, refl, sym, ap, ◌∙◌, inl, inr, Bool, true, false, not, ◌&&◌, some, [], ◌∷◌, Bytes,
  IsBytes, codes, all, bytes_eq, bytes_eq_refl, is_empty, if◌then◌else◌, if_both, Bool-cases, Map,
  find, put, find-put_same, not_sep, ok, arith,
}
use encoder_next.Crypto.Names.{cipher_from_string, hash_from_string}
use encoder_next.Crypto.NamesLaws.{cipher_from_string-cipher_to_string}
use encoder_next.Protocol.{Header, get, set}
use encoder_next.Protocol.RoundTrip.{IsField}
use encoder_next.Server.Context.{written}
use encoder_next.Server.Keys.{write_file}
use encoder_next.Client.{EncryptParams, EncryptResult, Metadata}
use encoder_next.Client.Embedded.{
  set_some, encoded, decoded, first_fields, optional_fields, key_field, embedded_header,
  embedded_bytes, write_embedded_file, embedded, read_embedded, write_header_and_data, read_found,
  read_embedded_file, extract_metadata_from_header,
}
use encoder_next.Client.Outcome.{fine, from_result, traced}
use encoder_next.Client.Decrypt.{source_of, source_in, with_text}
use encoder_next.Client.Fields.{IsSound, IsSound-set, IsSound-set_some, get-set_some}
use encoder_next.Client.Values.{
  is_solid, IsValue, solid-IsValue, decoded-encoded, encoded-IsValue, base64_encode_some,
  cipher_to_string-IsValue, hash_to_string-IsValue,
}
use encoder_next.Client.RoundTrip.{read_embedded-embedded_bytes}

-- A name of a field.
abbrev is_name : Bytes → Bool
is_name k = not (is_empty k) && all (not_sep b':') k && all is_solid k

name-IsField : (k v : Bytes) → is_name k ≡ true → IsValue v → IsField (k, v)
name-IsField k v n (lines, trimmed) =
    let (clean, fixed) = solid-IsValue k (ground arith) in
    (ground arith, ground arith, clean, lines, fixed, trimmed)

-- What the client knows of the encryption, in a form that a header takes: the identifiers and the
-- digest are values, and a key that it holds is not empty.
abbrev pub IsKept : EncryptResult → Bytes → Type 0
IsKept r key_storage =
    IsValue key_storage
    × IsValue r.file_id
    × IsValue r.key_id
    × IsValue r.hash_value
    × IsBytes r.key
    × IsBytes r.iv
    × IsBytes r.tag
    × ((bytes_eq key_storage (codes "client") && is_empty r.key) ≡ false)

abbrev held_key : EncryptResult → Bytes → Bytes
held_key r key_storage = if bytes_eq key_storage (codes "client") then r.key else []

held_bytes :
    (r : EncryptResult) (key_storage : Bytes) → IsBytes r.key → IsBytes (held_key r key_storage)
held_bytes r key_storage h = if_both IsBytes (bytes_eq key_storage (codes "client")) r.key [] h tt

-- What a file says that was encrypted so.
abbrev pub described : EncryptParams → EncryptResult → Bytes → Metadata
described params r key_storage = record {
  key_storage = key_storage;
  file_id = r.file_id;
  key_id = r.key_id;
  hash_value = r.hash_value;
  key_file = [];
  cipher = params.cipher;
  hash = params.hash;
  key = held_key r key_storage;
  iv = r.iv;
  tag = r.tag;
}

key_field-set_some :
    (r : EncryptResult) (key_storage : Bytes) (h : Header)
    → (bytes_eq key_storage (codes "client") && is_empty r.key) ≡ false
    → key_field r key_storage h ≡ ok (set_some (codes "key") (encoded (held_key r key_storage)) h)
unfolding set_some
key_field-set_some r key_storage h k = elim (Bool-cases (bytes_eq key_storage (codes "client"))) [
  | inl e ↦
      let some' : is_empty r.key ≡ false = ground arith in
      rw (e, some', base64_encode_some r.key) (rw some' refl)
  | inr e ↦ rw e refl
]

-- The header without the error of a missing key.
abbrev full : EncryptParams → EncryptResult → Bytes → Header
full params r key_storage =
    set_some (codes "key") (encoded (held_key r key_storage))
      (optional_fields r (first_fields params key_storage))

module _ (params : EncryptParams) (r : EncryptResult) (key_storage : Bytes)
    (kept : IsKept r key_storage) where
  embedded_header-full : embedded_header params r key_storage ≡ ok (full params r key_storage)
  unfolding embedded_header
  embedded_header-full =
      key_field-set_some r key_storage (optional_fields r (first_fields params key_storage)) kept.7

  first_fields-IsSound : IsSound (first_fields params key_storage)
  first_fields-IsSound = IsSound-set _ _ _ (name-IsField _ _ refl kept.0) (
      IsSound-set _ _ _ (name-IsField _ _ refl (hash_to_string-IsValue params.hash)) (
        IsSound-set _ _ _ (name-IsField _ _ refl (cipher_to_string-IsValue params.cipher))
          (IsSound-set _ _ [] (name-IsField _ _ refl (solid-IsValue _ refl)) (tt, tt))))

  optional :
      (k v : Bytes) (h : Header)
      → is_name k ≡ true
      → IsValue v
      → IsSound h
      → IsSound (set_some k v h)
  optional k v h n value s = IsSound-set_some k v h (λ e. name-IsField k v n value) s

  full-IsSound : IsSound (full params r key_storage)
  full-IsSound = optional _ _ _ refl (encoded-IsValue (held_key r key_storage)) (
      optional _ _ _ refl (encoded-IsValue r.tag) (
        optional _ _ _ refl (encoded-IsValue r.iv) (
          optional _ _ _ refl kept.3
            (optional _ _ _ refl kept.2 (optional _ _ _ refl kept.1 first_fields-IsSound)))))

-- Fields in front of a name are passed over, and one that is set is found.
skip : (k z d v : Bytes) (h : Header) → bytes_eq k z ≡ false → get z d (set_some k v h) ≡ get z d h
skip k z d v h e =
    get-set_some k z d v h
    ∙ rw e (elim (Bool-cases (is_empty v)) [ inl f ↦ rw f refl | inr f ↦ rw f refl ])

found : (k v : Bytes) (h : Header) → get k [] h ≡ [] → get k [] (set_some k v h) ≡ v
found k [] h e = get-set_some k k [] [] h ∙ e
found k (c ∷ cs) h e = get-set_some k k [] (c ∷ cs) h ∙ rw (bytes_eq_refl k) refl

module _ (r : EncryptResult) (f : Header) (z : Bytes) where
  -- A name that none of the optional fields has.
  optional_fields-skip :
      (bytes_eq (codes "tag") z ≡ false)
      → (bytes_eq (codes "iv") z ≡ false)
      → (bytes_eq (codes "hash_value") z ≡ false)
      → (bytes_eq (codes "key_id") z ≡ false)
      → (bytes_eq (codes "file_id") z ≡ false)
      → (d : Bytes) → get z d (optional_fields r f) ≡ get z d f
  optional_fields-skip a b c e g d =
      skip _ z d _ _ a ∙ skip _ z d _ _ b ∙ skip _ z d _ _ c ∙ skip _ z d _ _ e ∙ skip _ z d _ _ g

-- The header says all that there is to know.
abbrev Says : Header → Metadata → Type 0
Says h m =
    (cipher_from_string (get (codes "cipher") [] h) ≡ some m.cipher)
    × (hash_from_string (get (codes "hash") [] h) ≡ some m.hash)
    × (decoded (get (codes "key") [] h) ≡ some m.key)
    × (decoded (get (codes "iv") [] h) ≡ some m.iv)
    × (decoded (get (codes "tag") [] h) ≡ some m.tag)
    × (get (codes "key_storage") (codes "server") h ≡ m.key_storage)
    × (get (codes "file_id") [] h ≡ m.file_id)
    × (get (codes "key_id") [] h ≡ m.key_id)
    × (get (codes "hash_value") [] h ≡ m.hash_value)
    × (m.key_file ≡ [])

extract-Says : (h : Header) (m : Metadata) → Says h m → extract_metadata_from_header h ≡ ok m
unfolding extract_metadata_from_header
extract-Says h m (c, a, k, i, t, s, f, d, v, n) =
    rw (c, a, k, i, t, s, f, d, v) (ap (λ (x : Bytes). ok (record m { key_file = x })) (sym n))

module _ (params : EncryptParams) (r : EncryptResult) (key_storage : Bytes) where
  module _ (z : Bytes) (no_key : bytes_eq (codes "key") z ≡ false) where
    plain :
        (bytes_eq (codes "tag") z ≡ false)
        → (bytes_eq (codes "iv") z ≡ false)
        → (bytes_eq (codes "hash_value") z ≡ false)
        → (bytes_eq (codes "key_id") z ≡ false)
        → (bytes_eq (codes "file_id") z ≡ false)
        → (d : Bytes)
        → get z d (full params r key_storage) ≡ get z d (first_fields params key_storage)
    plain a b c e g d =
        skip _ z d _ _ no_key
        ∙ optional_fields-skip r (first_fields params key_storage) z a b c e g d

  full-Says :
      IsKept r key_storage → Says (full params r key_storage) (described params r key_storage)
  unfolding get set find put
  full-Says (_, _, _, _, key_bytes, iv_bytes, tag_bytes, has_key) =
      let (cipher, hash) = cipher_from_string-cipher_to_string params.cipher params.hash in
      let f = first_fields params key_storage in
      let ids = set_some (codes "key_id") r.key_id (set_some (codes "file_id") r.file_id f) in
      let digest = set_some (codes "hash_value") r.hash_value ids in
      let with_iv = set_some (codes "iv") (encoded r.iv) digest in
      let key =
        found (codes "key") (encoded (held_key r key_storage)) (optional_fields r f)
          (optional_fields-skip r f (codes "key") refl refl refl refl refl []) in
      let tag =
        skip (codes "key") (codes "tag") [] _ _ refl
        ∙ found (codes "tag") (encoded r.tag) with_iv (
            skip (codes "iv") _ [] _ digest refl
            ∙ skip (codes "hash_value") _ [] _ ids refl
            ∙ skip (codes "key_id") _ [] _ _ refl
            ∙ skip (codes "file_id") _ [] _ f refl) in
      let iv =
        skip (codes "key") (codes "iv") [] _ _ refl
        ∙ skip (codes "tag") _ [] _ with_iv refl
        ∙ found (codes "iv") (encoded r.iv) digest (
            skip (codes "hash_value") _ [] _ ids refl
            ∙ skip (codes "key_id") _ [] _ _ refl
            ∙ skip (codes "file_id") _ [] _ f refl) in
      let value =
        skip (codes "key") (codes "hash_value") [] _ _ refl
        ∙ skip (codes "tag") _ [] _ with_iv refl
        ∙ skip (codes "iv") _ [] _ digest refl
        ∙ found (codes "hash_value") r.hash_value ids
            (skip (codes "key_id") _ [] _ _ refl ∙ skip (codes "file_id") _ [] _ f refl) in
      let key_id =
        skip (codes "key") (codes "key_id") [] _ _ refl
        ∙ skip (codes "tag") _ [] _ with_iv refl
        ∙ skip (codes "iv") _ [] _ digest refl
        ∙ skip (codes "hash_value") _ [] _ ids refl
        ∙ found (codes "key_id") r.key_id (set_some (codes "file_id") r.file_id f)
            (skip (codes "file_id") _ [] _ f refl) in
      let file_id =
        skip (codes "key") (codes "file_id") [] _ _ refl
        ∙ skip (codes "tag") _ [] _ with_iv refl
        ∙ skip (codes "iv") _ [] _ digest refl
        ∙ skip (codes "hash_value") _ [] _ ids refl
        ∙ skip (codes "key_id") _ [] _ _ refl
        ∙ found (codes "file_id") r.file_id f refl in
      (
        ap cipher_from_string (plain (codes "cipher") refl refl refl refl refl refl []) ∙ cipher,
        ap hash_from_string (plain (codes "hash") refl refl refl refl refl refl []) ∙ hash,
        ap decoded key
            ∙ decoded-encoded (held_key r key_storage) (held_bytes r key_storage key_bytes),
        ap decoded iv ∙ decoded-encoded r.iv iv_bytes,
        ap decoded tag ∙ decoded-encoded r.tag tag_bytes,
        plain (codes "key_storage") refl refl refl refl refl refl (codes "server"),
        file_id,
        key_id,
        value,
        refl,
      )

read_versioned :
    (h : Header) (data' : Bytes)
    → get (codes "version") [] h ≡ codes "1"
    → IsSound h
    → read_embedded (embedded_bytes h data') ≡ embedded h data'
unfolding get find
read_versioned [] data' v s = absurd (cc v)
read_versioned (x ∷ xs) data' v s = read_embedded-embedded_bytes x xs data' s

full_version :
    (params : EncryptParams) (r : EncryptResult) (key_storage : Bytes)
    → get (codes "version") [] (full params r key_storage) ≡ codes "1"
unfolding get set find put
full_version params r key_storage =
    plain params r key_storage (codes "version") refl refl refl refl refl refl []

module _ (params : EncryptParams) (r : EncryptResult) (key_storage path enc_data : Bytes)
    (files : Map Bytes) (kept : IsKept r key_storage) where
  read_back :
      read_embedded_file path
        (write_embedded_file written path params r key_storage enc_data files).1
      ≡ embedded (full params r key_storage) enc_data
  unfolding read_embedded_file write_embedded_file write_file
  read_back =
      let h = full params r key_storage in
      let version : get (codes "version") [] h ≡ codes "1" = full_version params r key_storage in
      ap (λ o. read_found (find path (write_header_and_data written path enc_data o files).1))
        (embedded_header-full params r key_storage kept)
      ∙ ap read_found (find-put_same path (embedded_bytes h enc_data) files)
      ∙ read_versioned h enc_data version (full-IsSound params r key_storage kept)

  -- A file that was written whole, with what is kept of an encryption and the ciphertext, is opened
  -- as one with a header, and gives that ciphertext and all that was kept: the cipher, the digest,
  -- where the key is, the identifiers, the IV, the tag, and the key if the client holds it. What is
  -- kept are trimmed texts of one line and bytes, and a key that the client holds is not empty.
  pub source_of-write_embedded_file :
      source_of path (write_embedded_file written path params r key_storage enc_data files).1
      ≡ fine (true, described params r key_storage, enc_data)
  unfolding source_of
  source_of-write_embedded_file =
      let files' = (write_embedded_file written path params r key_storage enc_data files).1 in
      let h = full params r key_storage in
      ap (source_in path files') read_back
      ∙ ap
          (λ m. with_text true enc_data (
            traced (λ message. codes "decrypt_file failed to parse embedded metadata: " ++ message)
              (from_result m)))
          (extract-Says h (described params r key_storage) (full-Says params r key_storage kept))
