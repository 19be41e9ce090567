-- ===== src/Wifi/Profile/Utf8.antt =====
-- `valid_text_ssid` of common/src/wifi_profile.cpp against the definition of UTF-8.
use encoder_next.Prelude.{
  ℕ, suc, ◌+◌, ◌*◌, ◌/◌, ◌%◌, ◌<◌, ◌≤◌, ◌≡◌, refl, ◌∙◌, Bool, true, some, List, [], ◌∷◌, ◌++◌,
  Bytes, ltb, ◌==◌, if◌then◌else◌, ◌&&◌, arith,
}
use encoder_next.Wifi.Profile.{allowed_point, lead_byte, text_loop}

-- The UTF-8 encoding of a code point below 0x110000.
unfoldable pub utf8 : ℕ → Bytes
utf8 p =
    if ltb p 0x80
    then p ∷ []
    else if ltb p 0x800
    then (0xc0 + p / 64) ∷ (0x80 + p % 64) ∷ []
    else if ltb p 0x10000
    then (0xe0 + p / 4096) ∷ (0x80 + p / 64 % 64) ∷ (0x80 + p % 64) ∷ []
    else (0xf0 + p / 262144) ∷ (0x80 + p / 4096 % 64) ∷ (0x80 + p / 64 % 64) ∷ (0x80 + p % 64) ∷ []

unfoldable pub utf8_all : List ℕ → Bytes
utf8_all [] = []
utf8_all (p ∷ ps) = utf8 p ++ utf8_all ps

-- A code point of text: no control, separator, surrogate or noncharacter.
abbrev pub AllText : List ℕ → Type 0
AllText [] = Unit {0}
AllText (p ∷ ps) = (allowed_point 0 p ≡ true) × AllText ps

-- Between code points the loop's variables do not matter.
pub text_loop_reset : (a b : ℕ) (rest : Bytes) → text_loop 0 a b rest ≡ text_loop 0 0 0 rest
unfolding text_loop
text_loop_reset a b [] = refl
text_loop_reset a b (x ∷ rest) = refl

lead_one : (p : ℕ) → p < 0x80 → lead_byte p ≡ some (0, p, 0)
unfolding lead_byte
lead_one p h = ground arith

lead_two : (p : ℕ) → 0x80 ≤ p → p < 0x800 → lead_byte (0xc0 + p / 64) ≡ some (1, p / 64, 0x80)
unfolding lead_byte
lead_two p h k = ground arith

lead_three :
    (p : ℕ) → 0x800 ≤ p → p < 0x10000 → lead_byte (0xe0 + p / 4096) ≡ some (2, p / 4096, 0x800)
unfolding lead_byte
lead_three p h k = ground arith

lead_four :
    (p : ℕ)
    → 0x10000 ≤ p
    → p ≤ 0x10ffff
    → lead_byte (0xf0 + p / 262144) ≡ some (3, p / 262144, 0x10000)
unfolding lead_byte
lead_four p h k = ground arith

allowed_raise : (low p : ℕ) → low ≤ p → allowed_point 0 p ≡ true → allowed_point low p ≡ true
unfolding allowed_point
allowed_raise low p h k = ground arith

pub allowed_bound : (p : ℕ) → allowed_point 0 p ≡ true → p ≤ 0x10ffff
unfolding allowed_point
allowed_bound p h = ground arith

text_loop_last :
    (q low x : ℕ) (rest : Bytes)
    → x < 64
    → allowed_point low (q * 64 + x) ≡ true
    → text_loop 1 q low ((0x80 + x) ∷ rest) ≡ text_loop 0 0 0 rest
unfolding text_loop
text_loop_last q low x rest h k =
    let top : (0x80 + x) / 64 ≡ 2 = omega arith in
    let own : (0x80 + x) % 64 ≡ x = omega arith in
    rw (top, own, k, text_loop) (text_loop_reset (q * 64 + x) low rest)

skip_test : (n : ℕ) (b t : Bool) → ((if suc n == 0 then b else true) && t) ≡ t
skip_test n b t = ground arith

text_loop_more :
    (n q low x : ℕ) (rest : Bytes)
    → x < 64
    → text_loop (suc (suc n)) q low ((0x80 + x) ∷ rest) ≡ text_loop (suc n) (q * 64 + x) low rest
unfolding text_loop
text_loop_more n q low x rest h =
    let top : (0x80 + x) / 64 ≡ 2 = omega arith in
    let own : (0x80 + x) % 64 ≡ x = omega arith in rw (top, own, text_loop) (skip_test n _ _)

utf8_one :
    (p : ℕ) (rest : Bytes)
    → allowed_point 0 p ≡ true
    → p < 0x80
    → text_loop 0 0 0 (p ∷ rest) ≡ text_loop 0 0 0 rest
unfolding text_loop
utf8_one p rest a h = ground (arith, lead_one p h, text_loop_reset p 0 rest)

utf8_two :
    (p : ℕ) (rest : Bytes)
    → allowed_point 0 p ≡ true
    → 0x80 ≤ p
    → p < 0x800
    → text_loop 0 0 0 ((0xc0 + p / 64) ∷ (0x80 + p % 64) ∷ rest) ≡ text_loop 0 0 0 rest
unfolding text_loop
utf8_two p rest a h k =
    let e : p / 64 * 64 + p % 64 ≡ p = omega arith in
    rw (lead_two p h k, text_loop)
      (text_loop_last (p / 64) 0x80 (p % 64) rest (omega arith) (rw e (allowed_raise 0x80 p h a)))

utf8_three :
    (p : ℕ) (rest : Bytes)
    → allowed_point 0 p ≡ true
    → 0x800 ≤ p
    → p < 0x10000
    → text_loop 0 0 0 ((0xe0 + p / 4096) ∷ (0x80 + p / 64 % 64) ∷ (0x80 + p % 64) ∷ rest)
      ≡ text_loop 0 0 0 rest
unfolding text_loop
utf8_three p rest a h k =
    let e : (p / 4096 * 64 + p / 64 % 64) * 64 + p % 64 ≡ p = omega arith in
    rw (lead_three p h k, text_loop)
      (text_loop_more 0 (p / 4096) 0x800 (p / 64 % 64) ((0x80 + p % 64) ∷ rest) (omega arith)
        ∙ text_loop_last (p / 4096 * 64 + p / 64 % 64) 0x800 (p % 64) rest (omega arith)
            (rw e (allowed_raise 0x800 p h a)))

utf8_four :
    (p : ℕ) (rest : Bytes)
    → allowed_point 0 p ≡ true
    → 0x10000 ≤ p
    → text_loop 0 0 0 (
        (0xf0 + p / 262144)
        ∷ (0x80 + p / 4096 % 64)
        ∷ (0x80 + p / 64 % 64)
        ∷ (0x80 + p % 64)
        ∷ rest)
      ≡ text_loop 0 0 0 rest
unfolding text_loop
utf8_four p rest a h =
    let q = p / 262144 * 64 + p / 4096 % 64 in
    let e : (q * 64 + p / 64 % 64) * 64 + p % 64 ≡ p = omega arith in
    let tail = (0x80 + p / 64 % 64) ∷ (0x80 + p % 64) ∷ rest in
    rw (lead_four p h (allowed_bound p a), text_loop)
      (text_loop_more 1 (p / 262144) 0x10000 (p / 4096 % 64) tail (omega arith)
        ∙ text_loop_more 0 q 0x10000 (p / 64 % 64) ((0x80 + p % 64) ∷ rest) (omega arith)
        ∙ text_loop_last (q * 64 + p / 64 % 64) 0x10000 (p % 64) rest (omega arith)
            (rw e (allowed_raise 0x10000 p h a)))

-- One encoded code point is read whole.
text_loop-utf8 :
    (p : ℕ) (rest : Bytes)
    → allowed_point 0 p ≡ true
    → text_loop 0 0 0 (utf8 p ++ rest) ≡ text_loop 0 0 0 rest
unfolding utf8
text_loop-utf8 p rest a =
    ground (arith, utf8_one p rest a, utf8_two p rest a, utf8_three p rest a, utf8_four p rest a)

pub text_loop-utf8_all : (ps : List ℕ) → AllText ps → text_loop 0 0 0 (utf8_all ps) ≡ true
unfolding utf8_all text_loop
text_loop-utf8_all [] h = refl
text_loop-utf8_all (p ∷ ps) h = text_loop-utf8 p (utf8_all ps) h.0 ∙ text_loop-utf8_all ps h.1
