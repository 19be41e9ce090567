-- ===== src/Wifi/Journal/Record/RoundTrip.antt =====
-- A saved journal of server/src/wifi_journal.cpp reads back as the record that it holds.
use native.Mathlib.Nat.{pow-suc}
use encoder_next.Prelude.{
  ℕ, zero, suc, ◌+◌, ◌-◌, ◌*◌, ◌/◌, ◌%◌, ◌^◌, ◌≤◌, ◌<◌, ◌≡◌, refl, ap, ◌∙◌, Bool, true, false, not,
  ◌||◌, Option, some, [], ◌∷◌, ◌++◌, Bytes, codes, ltb, ◌==◌, if◌then◌else◌, length, take, drop,
  get_or, bytes_eq, bytes_eq_refl, ok, append_assoc, length-append, arith,
}
use encoder_next.Wifi.Journal.Record.{
  RecoveryPhase, RecoveryRecord, pending, committed, restored, valid, hex_string, boot_valid, put,
  get_loop, get, phase_byte, flag_byte, body, slice, fields, digest_matches, decode, header,
  digest_size,
}

get_loop_last :
    (v b : ℕ) (xs : Bytes) → get_loop v (xs ++ (b ∷ [])) ≡ get_loop v xs * 256 % 2 ^ 64 + b
unfolding get_loop
get_loop_last v b [] = refl
get_loop_last v b (x ∷ xs) = get_loop_last (v * 256 % 2 ^ 64 + x) b xs

-- Big-endian numbers read back, up to 64 bits.
pub get-put : (n v : ℕ) → v < 256 ^ n → v < 2 ^ 64 → get (put v n) ≡ v
unfolding put get_loop
get-put zero v h k = omega arith
get-put (suc n) v h k =
    get_loop_last 0 (v % 256) (put (v / 256) n)
    ∙ rw (get-put n (v / 256) (omega (arith, pow-suc 256 n)) (omega arith)) (omega arith)

length-put : (n v : ℕ) → length (put v n) ≡ n
unfolding put
length-put zero v = refl
length-put (suc n) v =
    omega (arith, length-append (put (v / 256) n) (v % 256 ∷ []), length-put n (v / 256))

take_exact : (n : ℕ) (xs ys : Bytes) → length xs ≡ n → take n (xs ++ ys) ≡ xs
take_exact zero [] ys h = refl
take_exact zero (x ∷ xs) ys h = absurd (omega arith)
take_exact (suc n) [] ys h = absurd (omega arith)
take_exact (suc n) (x ∷ xs) ys h = ap (◌∷◌ x) (take_exact n xs ys (omega arith))

drop_past : (n m : ℕ) (xs ys : Bytes) → length xs + m ≡ n → drop n (xs ++ ys) ≡ drop m ys
drop_past n m [] ys h = ap (λ k. drop k ys) (omega arith)
drop_past zero m (x ∷ xs) ys h = absurd (omega arith)
drop_past (suc n) m (x ∷ xs) ys h = drop_past n m xs ys (omega arith)

pub valid_sizes :
    (r : RecoveryRecord)
    → valid r ≡ true
    → (length r.transaction ≡ 32) × (length r.boot_id ≡ 36) × (length r.previous ≤ 65536)
unfolding valid hex_string boot_valid
valid_sizes r h = ground arith

pub length-body :
    (r : RecoveryRecord) → valid r ≡ true → length (body r) ≡ header + length r.previous
unfolding body
length-body r h =
    let size = put (length r.previous) 4 ++ r.previous in
    let deadline = put r.deadline_ms 8 ++ size in
    omega (
      arith,
      valid_sizes r h,
      length-append r.transaction (r.boot_id ++ deadline),
      length-append r.boot_id deadline,
      length-append (put r.deadline_ms 8) size,
      length-append (put (length r.previous) 4) r.previous,
      length-put 8 r.deadline_ms,
      length-put 4 (length r.previous),
    )

-- A record whose deadline is a uint64_t.
abbrev pub IsRecord : RecoveryRecord → Type 0
IsRecord r = (valid r ≡ true) × (r.deadline_ms < 2 ^ 64)

-- The fields of a file that holds a record at their places.
fields_of :
    (phase : RecoveryPhase) (exists : Bool) (r : RecoveryRecord) (b : Bytes)
    → get_or b 8 0 ≡ phase_byte phase
    → get_or b 9 0 ≡ flag_byte exists
    → slice 10 32 b ≡ r.transaction
    → slice 42 36 b ≡ r.boot_id
    → get (slice 78 8 b) ≡ r.deadline_ms
    → slice header (length b - header - digest_size) b ≡ r.previous
    → fields b ≡ some (record r { phase = phase; previous_exists = exists })
unfolding fields
fields_of pending e r b p f t i d v = rw (fields, p) (rw (f, t, i, d, v) (ground arith))
fields_of committed e r b p f t i d v = rw (fields, p) (rw (f, t, i, d, v) (ground arith))
fields_of restored e r b p f t i d v = rw (fields, p) (rw (f, t, i, d, v) (ground arith))

flag_small : (b : Bool) → ltb 1 (flag_byte b) ≡ false
flag_small true = refl
flag_small false = refl

passes {ℓ} :
    {A : Type ℓ} (m : Bool) (size : ℕ) (x y : A)
    → m ≡ true
    → (if not m || false || not (size == size) || false then x else y) ≡ y
passes m size x y h = ground arith

module _ (checksum : Bytes → Option Bytes) where
  decode_of :
      (r : RecoveryRecord) (b : Bytes) (size : ℕ)
      → length b - header - digest_size ≡ size
      → bytes_eq (slice 0 8 b) (codes "ENCWIFI1") ≡ true
      → ltb 1 (get_or b 9 0) ≡ false
      → get (slice 86 4 b) ≡ size
      → digest_matches checksum b size ≡ true
      → fields b ≡ some r
      → valid r ≡ true
      → decode checksum b ≡ ok r
  unfolding decode
  decode_of r b size n magic flag s d f v =
      rw (decode, n, flag, s, d, f, v) (passes _ size _ _ magic)

module _ (r : RecoveryRecord) (digest : Bytes) (good : IsRecord r)
    (digest32 : length digest ≡ 32) where
  -- The places of a file.
  abbrev layout : Bytes
  layout =
      codes "ENCWIFI1"
      ++ (phase_byte r.phase
          ∷ flag_byte r.previous_exists
          ∷ (r.transaction
              ++ (r.boot_id
                  ++ (put r.deadline_ms 8
                      ++ (put (length r.previous) 4 ++ (r.previous ++ digest))))))

  body-append : body r ++ digest ≡ layout
  unfolding body
  body-append = simp append_assoc

  slice_tx : slice 10 32 layout ≡ r.transaction
  slice_tx = take_exact 32 r.transaction _ (valid_sizes r good.0).0

  past_tx : (m : ℕ) (ys : Bytes) → drop (32 + m) (r.transaction ++ ys) ≡ drop m ys
  past_tx m ys = drop_past (32 + m) m r.transaction ys (omega (arith, valid_sizes r good.0))

  past_boot : (m : ℕ) (ys : Bytes) → drop (36 + m) (r.boot_id ++ ys) ≡ drop m ys
  past_boot m ys = drop_past (36 + m) m r.boot_id ys (omega (arith, valid_sizes r good.0))

  past_deadline : (m : ℕ) (ys : Bytes) → drop (8 + m) (put r.deadline_ms 8 ++ ys) ≡ drop m ys
  past_deadline m ys =
      drop_past (8 + m) m (put r.deadline_ms 8) ys (omega (arith, length-put 8 r.deadline_ms))

  past_size : (m : ℕ) (ys : Bytes) → drop (4 + m) (put (length r.previous) 4 ++ ys) ≡ drop m ys
  past_size m ys =
      drop_past (4 + m) m (put (length r.previous) 4) ys
        (omega (arith, length-put 4 (length r.previous)))

  slice_boot : slice 42 36 layout ≡ r.boot_id
  slice_boot = ap (take 36) (past_tx 0 _) ∙ take_exact 36 r.boot_id _ (valid_sizes r good.0).1

  slice_deadline : slice 78 8 layout ≡ put r.deadline_ms 8
  slice_deadline =
      ap (take 8) (past_tx 36 _ ∙ past_boot 0 _)
      ∙ take_exact 8 (put r.deadline_ms 8) _ (length-put 8 r.deadline_ms)

  slice_size : slice 86 4 layout ≡ put (length r.previous) 4
  slice_size =
      ap (take 4) (past_tx 44 _ ∙ past_boot 8 _ ∙ past_deadline 0 _)
      ∙ take_exact 4 (put (length r.previous) 4) _ (length-put 4 (length r.previous))

  slice_previous : slice 90 (length r.previous) layout ≡ r.previous
  slice_previous =
      ap (take (length r.previous))
        (past_tx 48 _ ∙ past_boot 12 _ ∙ past_deadline 4 _ ∙ past_size 0 _)
      ∙ take_exact (length r.previous) r.previous digest refl

  length-layout : length layout ≡ header + length r.previous + digest_size
  length-layout =
      omega (arith, ap length body-append, length-append (body r) digest, length-body r good.0)

  fields-layout : fields layout ≡ some r
  fields-layout =
      let n : length layout - header - digest_size ≡ length r.previous =
        omega (arith, length-layout) in
      fields_of r.phase r.previous_exists r layout refl refl slice_tx slice_boot
        (ap get slice_deadline ∙ get-put 8 r.deadline_ms good.1 good.1) (rw n slice_previous)

  digest-layout : drop (header + length r.previous) layout ≡ digest
  digest-layout =
      let n = length-body r good.0 in
      rw (← body-append)
        (drop_past (header + length r.previous) 0 (body r) digest (omega (arith, n)))

  body-layout : take (header + length r.previous) layout ≡ body r
  body-layout =
      rw (← body-append)
        (take_exact (header + length r.previous) (body r) digest (length-body r good.0))

  digest-layout_matches :
      (checksum : Bytes → Option Bytes)
      → checksum (body r) ≡ some digest
      → digest_matches checksum layout (length r.previous) ≡ true
  unfolding digest_matches
  digest-layout_matches checksum e =
      rw (digest_matches, body-layout, e, digest-layout) (bytes_eq_refl digest)

  pub decode-encoded :
      (checksum : Bytes → Option Bytes)
      → checksum (body r) ≡ some digest
      → decode checksum (body r ++ digest) ≡ ok r
  decode-encoded checksum e =
      let n : length layout - header - digest_size ≡ length r.previous =
        omega (arith, length-layout) in
      let small = (valid_sizes r good.0).2 in
      let size : get (slice 86 4 layout) ≡ length r.previous =
        ap get slice_size
        ∙ get-put 4 (length r.previous) (omega (arith, small)) (omega (arith, small)) in
      rw body-append (
        decode_of checksum r layout (length r.previous) n refl (flag_small r.previous_exists) size
          (digest-layout_matches checksum e) fields-layout good.0)

  pub length-encoded : length (body r ++ digest) ≡ 122 + length r.previous
  length-encoded = omega (arith, length-append (body r) digest, length-body r good.0)
