-- ===== src/Encoding/Base64/RoundTrip.antt =====
-- Decoding what common/src/base64.cpp encodes.
use encoder_next.Prelude.{
  ℕ, zero, suc, ◌+◌, ◌*◌, ◌/◌, ◌%◌, ◌^◌, ◌<◌, ◌≡◌, refl, Bool, true, false, ◌&&◌, ◌||◌, Option,
  none, some, [], ◌∷◌, Bytes, IsBytes, ◌==◌, if◌then◌else◌, if_both, length, arith, all,
}
use encoder_next.Encoding.Base64.{
  symbol, base64_encode, base64_value, is_skipped, Decoder, Round, add_sextet, decode_round,
  decode_loop, base64_decode,
}

abbrev is_value : Option ℕ → ℕ → Bool
is_value none n = false
is_value (some v) n = v == n

-- A test of every index below the limit, to be run.
unfoldable pub passes : (ℕ → Bool) → ℕ → Bool
passes test zero = true
passes test (suc limit) = passes test limit && test limit

pub passes_at :
    (test : ℕ → Bool) (i limit : ℕ) → i < limit → passes test limit ≡ true → test i ≡ true
unfolding passes
passes_at test i zero below t = absurd (omega arith)
passes_at test i (suc limit) below t = ground (arith, passes_at test i limit)

abbrev is_symbol_of : ℕ → Bool
is_symbol_of i =
    is_value (base64_value (symbol i)) i && (if is_skipped (symbol i) then false else true)

symbol_table : passes is_symbol_of 64 ≡ true
unfolding passes base64_value
symbol_table = refl

value_inv :
    (o : Option ℕ) (s b : Bool) (i : ℕ)
    → (is_value o i && (if s then false else true)) ≡ true
    → (o ≡ some i) × (s ≡ false)
value_inv o s b i h = ground arith

symbol_value :
    (i : ℕ) → i < 64 → (base64_value (symbol i) ≡ some i) × (is_skipped (symbol i) ≡ false)
symbol_value i h = value_inv _ _ true i (passes_at is_symbol_of i 64 h symbol_table)

round_symbol : (i : ℕ) (d : Decoder) → i < 64 → decode_round (symbol i) d ≡ add_sextet i d
unfolding decode_round
round_symbol i d h = let (v, s) = symbol_value i h in rw (s, v)

-- The decoder between two groups of four.
abbrev at_start : ℕ → Decoder
at_start val = record { val = val; shift = 0 }

abbrev next : ℕ → ℕ → ℕ
next val s = (val * 64 + s) % 2 ^ 32

abbrev at : ℕ → ℕ → Decoder
at val shift = record { val = val; shift = shift }

module _ (val s : ℕ) (rest : Bytes) (small : s < 64) where
  loop_first : decode_loop (symbol s ∷ rest) (at val 0) ≡ decode_loop rest (at (next val s) 6)
  unfolding decode_loop add_sextet
  loop_first = rw (round_symbol s (at val 0) small, decode_loop)

  loop_second : decode_loop (symbol s ∷ rest) (at val 6) ≡ (
    (next val s / 16 % 256) ∷ (decode_loop rest (at (next val s) 4)).0,
    (decode_loop rest (at (next val s) 4)).1,
  )
  unfolding decode_loop add_sextet
  loop_second = rw (round_symbol s (at val 6) small, decode_loop)

  loop_third : decode_loop (symbol s ∷ rest) (at val 4) ≡ (
    (next val s / 4 % 256) ∷ (decode_loop rest (at (next val s) 2)).0,
    (decode_loop rest (at (next val s) 2)).1,
  )
  unfolding decode_loop add_sextet
  loop_third = rw (round_symbol s (at val 4) small, decode_loop)

  loop_fourth : decode_loop (symbol s ∷ rest) (at val 2) ≡ (
    (next val s / 1 % 256) ∷ (decode_loop rest (at (next val s) 0)).0,
    (decode_loop rest (at (next val s) 0)).1,
  )
  unfolding decode_loop add_sextet
  loop_fourth = rw (round_symbol s (at val 2) small, decode_loop)

-- Padding ends a text in any state of the decoder.
loop_pad : (d : Decoder) → decode_loop (b'=' ∷ []) d ≡ ([], true)
unfolding decode_loop decode_round
loop_pad d = refl

loop_end : (d : Decoder) → decode_loop [] d ≡ ([], true)
unfolding decode_loop
loop_end d = refl

loop_pads : (d : Decoder) → decode_loop (b'=' ∷ b'=' ∷ []) d ≡ ([], true)
unfolding decode_loop decode_round
loop_pads d = refl

first_byte :
    (val t a : ℕ)
    → t < 2 ^ 24
    → t / 2 ^ 16 ≡ a
    → next (next val (t / 2 ^ 18 % 64)) (t / 2 ^ 12 % 64) / 16 % 256 ≡ a
first_byte val t a h k = omega arith

second_byte :
    (val t b : ℕ)
    → t / 2 ^ 8 % 256 ≡ b
    → next (next val (t / 2 ^ 12 % 64)) (t / 2 ^ 6 % 64) / 4 % 256 ≡ b
second_byte val t b k = omega arith

third_byte : (val t c : ℕ) → t % 256 ≡ c → next (next val (t / 2 ^ 6 % 64)) (t % 64) / 1 % 256 ≡ c
third_byte val t c k = omega arith

loop-encode :
    (bytes : Bytes) (val : ℕ)
    → IsBytes bytes
    → decode_loop (base64_encode bytes) (at val 0) ≡ (bytes, true)
unfolding base64_encode
loop-encode [] val h = loop_end (at val 0)
loop-encode (a ∷ []) val h =
    let t = a * 65536 in
    let s₁ = t / 2 ^ 18 % 64 in
    let v₁ = next val s₁ in
    let s₂ = t / 2 ^ 12 % 64 in
    rw (
      loop_first val s₁ _ (omega arith),
      loop_second v₁ s₂ _ (omega arith),
      loop_pads (at (next v₁ s₂) 4),
      first_byte val t a (omega arith) (omega arith),
    )
loop-encode (a ∷ b ∷ []) val h =
    let t = a * 65536 + b * 256 in
    let s₁ = t / 2 ^ 18 % 64 in
    let v₁ = next val s₁ in
    let s₂ = t / 2 ^ 12 % 64 in
    let v₂ = next v₁ s₂ in
    let s₃ = t / 2 ^ 6 % 64 in
    rw (
      loop_first val s₁ _ (omega arith),
      loop_second v₁ s₂ _ (omega arith),
      loop_third v₂ s₃ _ (omega arith),
      loop_pad (at (next v₂ s₃) 2),
      first_byte val t a (omega arith) (omega arith),
      second_byte v₁ t b (omega arith),
    )
loop-encode (a ∷ b ∷ c ∷ rest) val h =
    let t = a * 65536 + b * 256 + c in
    let s₁ = t / 2 ^ 18 % 64 in
    let v₁ = next val s₁ in
    let s₂ = t / 2 ^ 12 % 64 in
    let v₂ = next v₁ s₂ in
    let s₃ = t / 2 ^ 6 % 64 in
    let v₃ = next v₂ s₃ in
    let s₄ = t % 64 in
    rw (
      loop_first val s₁ _ (omega arith),
      loop_second v₁ s₂ _ (omega arith),
      loop_third v₂ s₃ _ (omega arith),
      loop_fourth v₃ s₄ _ (omega arith),
      loop-encode rest (next v₃ s₄) h.1.1.1,
      first_byte val t a (omega arith) (omega arith),
      second_byte v₁ t b (omega arith),
      third_byte v₂ t c (omega arith),
    )

-- Every byte string comes back from its encoding, and the decoder reports success.
pub base64_decode-encode :
    (bytes : Bytes) → IsBytes bytes → base64_decode (base64_encode bytes) ≡ (bytes, true)
unfolding base64_decode
base64_decode-encode bytes h = loop-encode bytes 0 h

-- An encoding has four characters for each three bytes, begun groups included.
pub length-base64_encode :
    (bytes : Bytes) → length (base64_encode bytes) ≡ (length bytes + 2) / 3 * 4
unfolding base64_encode
length-base64_encode [] = omega arith
length-base64_encode (a ∷ []) = omega arith
length-base64_encode (a ∷ b ∷ []) = omega arith
length-base64_encode (a ∷ b ∷ c ∷ rest) = omega (arith, length-base64_encode rest)

abbrev pub is_accepted : ℕ → Bool
is_accepted c = is_skipped c || (elim (base64_value c) [ none ↦ false | some v ↦ true ])

sextet_fine : (v : ℕ) (d : Decoder) → (add_sextet v d).2 ≡ true
unfolding add_sextet
sextet_fine v d = if_both (λ (r : Round). r.2 ≡ true) _ _ _ refl refl

fine_of :
    (s : Bool) (o : Option ℕ) (d : Decoder)
    → (if◌then◌else◌ {A = Round} s
        (d, none, true)
        (elim o [ none ↦ (d, none, false) | some v ↦ add_sextet v d ])).2
      ≡ (s || (elim o [ none ↦ false | some v ↦ true ]))
fine_of true o d = refl
fine_of false none d = refl
fine_of false (some v) d = sextet_fine v d

round_fine : (c : ℕ) (d : Decoder) → (decode_round c d).2 ≡ is_accepted c
unfolding decode_round
round_fine c d = fine_of (is_skipped c) (base64_value c) d

loop_success : (text : Bytes) (d : Decoder) → (decode_loop text d).1 ≡ all is_accepted text
unfolding decode_loop
loop_success [] d = refl
loop_success (c ∷ text) d = rw (loop_success text (decode_round c d).0, round_fine c d)

-- The decoder reports success exactly when each character is one of the alphabet, padding or blank
-- space; it never looks at the number of characters or at where the padding stands.
pub base64_decode-success : (text : Bytes) → (base64_decode text).1 ≡ all is_accepted text
unfolding base64_decode
base64_decode-success text = loop_success text (at 0 0)
