-- ===== src/Wifi/Draft/RoundTrip.antt =====
-- A profile comes back from the Netplan document that common/src/wifi_config_draft.cpp makes of it.
use encoder_next.Prelude.{
  ℕ, zero, suc, ◌+◌, ◌*◌, ◌/◌, ◌%◌, ◌<◌, ◌≤◌, ◌≡◌, refl, ap, inl, inr, Bool, true, false, ◌||◌,
  Option, none, some, [], ◌∷◌, ◌++◌, Bytes, IsBytes, bytes_eq_refl, has_prefix, ◌==◌, Bool-cases,
  length, length-append, all, is_hex, take_at, drop_at, drop-append, hex_digit, hex_encode, arith,
}
use encoder_next.Wifi.Draft.{prefix_for, prefix_in, key_in, plain, unhex, escape, unquote}

unhex-hex_digit : (n : ℕ) → n < 16 → unhex (hex_digit n) ≡ some n
unhex-hex_digit n h = ground arith

pub plain-hex_encode : (s : Bytes) → IsBytes s → plain (hex_encode s) ≡ some s
unfolding plain
plain-hex_encode [] h = refl
plain-hex_encode (b ∷ bs) h =
    let whole : b / 16 * 16 + b % 16 ≡ b = omega arith in
    rw
      (
        unhex-hex_digit (b / 16) (omega (arith, h.0)),
        unhex-hex_digit (b % 16) (omega arith),
        plain-hex_encode bs h.1,
      )
      (ap (λ c. some (c ∷ bs)) whole)

escape_some : (s rest : Bytes) → (y : ℕ × Bytes) × (escape s ++ (b'"' ∷ rest) ≡ y.0 ∷ y.1)
unfolding escape
escape_some [] rest = ((b'"', rest), refl)
escape_some (c ∷ cs) rest = elim (Bool-cases ((c == b'\\') || (c == b'"'))) [
  | inl e ↦ rw e ((b'\\', c ∷ (escape cs ++ (b'"' ∷ rest))), refl)
  | inr e ↦ rw e ((c, escape cs ++ (b'"' ∷ rest)), refl)
]

unquote_plain :
    (room c : ℕ) (text : Bytes) (y : ℕ × Bytes) (r : Bytes × Bytes)
    → ((c == b'\\') || (c == b'"')) ≡ false
    → text ≡ y.0 ∷ y.1
    → unquote room text ≡ some r
    → unquote (suc room) (c ∷ text) ≡ some (c ∷ r.0, r.1)
unfolding unquote
unquote_plain room c text y r plain' e h =
    let quote : (c == b'"') ≡ false = ground arith in
    let slash : (c == b'\\') ≡ false = ground arith in
    let h' : unquote room (y.0 ∷ y.1) ≡ some r = rw (← e) h in rw e (rw (quote, slash, h') refl)

pub unquote-escape :
    (ssid rest : Bytes) (room : ℕ)
    → length ssid ≤ room
    → unquote room (escape ssid ++ (b'"' ∷ rest)) ≡ some (ssid, rest)
unfolding unquote escape
unquote-escape [] [] zero h = refl
unquote-escape [] [] (suc room) h = refl
unquote-escape [] (d ∷ ds) zero h = refl
unquote-escape [] (d ∷ ds) (suc room) h = refl
unquote-escape (c ∷ cs) rest zero h = absurd (omega (arith, h))
unquote-escape (c ∷ cs) rest (suc room) h =
    let again = unquote-escape cs rest room (omega (arith, h)) in
    elim (Bool-cases ((c == b'\\') || (c == b'"'))) [
      | inl e ↦ rw (e, e, again) refl
      | inr e ↦
          let (y, some') = escape_some cs rest in
          rw e (unquote_plain room c (escape cs ++ (b'"' ∷ rest)) y (cs, rest) e some' again)
    ]

has_prefix-append : (xs ys : Bytes) → has_prefix xs (xs ++ ys) ≡ true
has_prefix-append [] ys = refl
has_prefix-append (x ∷ xs) ys = ground (arith, has_prefix-append xs ys)

pub key_in-append :
    (auth key suffix : Bytes)
    → length key ≡ 64
    → all is_hex key ≡ true
    → key_in auth suffix (auth ++ (key ++ suffix)) ≡ some key
key_in-append auth key suffix n h =
    let size : length (auth ++ (key ++ suffix)) ≡ length auth + 64 + length suffix =
      omega (arith, n, length-append auth (key ++ suffix), length-append key suffix) in
    let same : (length auth + 64 + length suffix == length auth + 64 + length suffix) ≡ true =
      ground arith in
    rw
      (
        size,
        same,
        has_prefix-append auth (key ++ suffix),
        drop-append auth (key ++ suffix),
        drop_at 64 key suffix n,
        take_at 64 key suffix n,
        bytes_eq_refl suffix,
        h,
      )
      refl

pub prefix_in-prefix_for :
    (d : Option Bool) (rest : Bytes)
    → prefix_in (prefix_for d ++ (b'"' ∷ rest)) ≡ some (d, b'"' ∷ rest)
unfolding prefix_for
prefix_in-prefix_for none rest = refl
prefix_in-prefix_for (some true) rest = refl
prefix_in-prefix_for (some false) rest = refl
