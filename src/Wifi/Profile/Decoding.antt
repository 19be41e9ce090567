-- ===== src/Wifi/Profile/Decoding.antt =====
-- What a text that `valid_text_ssid` of common/src/wifi_profile.cpp accepts is made of.
use encoder_next.Prelude.{
  ℕ, zero, suc, ◌+◌, ◌*◌, ◌/◌, ◌%◌, ◌<◌, ◌≤◌, ◌≡◌, ◌↔◌, ◌⊎◌, inl, inr, refl, sym, ap, ◌∙◌, Bool,
  true, false, none, some, List, [], ◌∷◌, ◌++◌, Bytes, length, IsBytes, ◌==◌, ==_iff, if◌then◌else◌,
  ◌&&◌, arith,
}
use encoder_next.Wifi.Profile.{allowed_point, lead_byte, text_loop, valid_text_ssid}
use encoder_next.Wifi.Profile.Utf8.{utf8, utf8_all, AllText, text_loop_reset, text_loop-utf8_all}

-- The first code point of a text, and the rest.
abbrev Read : Bytes → Type 0
Read text =
    (p : ℕ) × (rest : Bytes) × (text ≡ utf8 p ++ rest)
    × (allowed_point 0 p ≡ true)
    × (text_loop 0 0 0 rest ≡ true)
    × IsBytes rest
    × (length rest < length text)

lead_cases :
    (c : ℕ)
    → c < 256
    → (lead_byte c ≡ none)
      ⊎ (((lead_byte c ≡ some (0, c, 0)) × (c < 0x80))
          ⊎ (((lead_byte c ≡ some (1, c % 32, 0x80)) × (c / 32 ≡ 6))
              ⊎ (((lead_byte c ≡ some (2, c % 16, 0x800)) × (c / 16 ≡ 14))
                  ⊎ ((lead_byte c ≡ some (3, c % 8, 0x10000)) × (c / 8 ≡ 30)))))
unfolding lead_byte
lead_cases c h = ground arith

lower :
    (low p : ℕ)
    → allowed_point low p ≡ true
    → (allowed_point 0 p ≡ true) × (low ≤ p) × (p ≤ 0x10ffff)
unfolding allowed_point
lower low p h = ground arith

and_inv : (a b c : Bool) → (a && b && c) ≡ true → (a ≡ true) × (b ≡ true) × (c ≡ true)
and_inv a b c h = ground arith

and2_inv : (a b : Bool) → (a && b) ≡ true → (a ≡ true) × (b ≡ true)
and2_inv a b h = ground arith

last_inv :
    (q low x : ℕ) (rest : Bytes)
    → text_loop 1 q low (x ∷ rest) ≡ true
    → (x / 64 ≡ 2) × (allowed_point low (q * 64 + x % 64) ≡ true) × (text_loop 0 0 0 rest ≡ true)
unfolding text_loop
last_inv q low x rest h =
    let (top, point, more) = and_inv _ _ _ h in
    ((==_iff _ _).0 top, point, sym (text_loop_reset (q * 64 + x % 64) low rest) ∙ more)

more_inv :
    (n q low x : ℕ) (rest : Bytes)
    → text_loop (suc (suc n)) q low (x ∷ rest) ≡ true
    → (x / 64 ≡ 2) × (text_loop (suc n) (q * 64 + x % 64) low rest ≡ true)
unfolding text_loop
more_inv n q low x rest h = let (top, point, more) = and_inv _ _ _ h in ((==_iff _ _).0 top, more)

refused : false ≡ true → ⊥
refused h = cc

ends : (n point low : ℕ) → text_loop (suc n) point low [] ≡ true → ⊥
unfolding text_loop
ends n point low h = cc

first_inv :
    (c n p low : ℕ) (rest : Bytes)
    → lead_byte c ≡ some (n, p, low)
    → text_loop 0 0 0 (c ∷ rest) ≡ true
    → ((if n == 0 then allowed_point low p else true) ≡ true) × (text_loop n p low rest ≡ true)
unfolding text_loop
first_inv c n p low rest e h = and2_inv _ _ (rw (e, text_loop) at h)

length_rest : (p : ℕ) (rest : Bytes) → length rest < length (utf8 p ++ rest)
unfolding utf8
length_rest p rest = ground arith

take_of :
    (p : ℕ) (text rest : Bytes)
    → text ≡ utf8 p ++ rest
    → allowed_point 0 p ≡ true
    → text_loop 0 0 0 rest ≡ true
    → IsBytes rest
    → Read text
take_of p text rest e a t b = (p, rest, e, a, t, b, rw e (length_rest p rest))

take_one :
    (c : ℕ) (rest : Bytes)
    → c < 0x80
    → allowed_point 0 c ≡ true
    → text_loop 0 c 0 rest ≡ true
    → IsBytes rest
    → Read (c ∷ rest)
unfolding utf8
take_one c rest h a t b =
    take_of c (c ∷ rest) rest (ground arith) a (sym (text_loop_reset c 0 rest) ∙ t) b

take_two :
    (c : ℕ) (rest : Bytes)
    → c / 32 ≡ 6
    → text_loop 1 (c % 32) 0x80 rest ≡ true
    → IsBytes rest
    → Read (c ∷ rest)
unfolding utf8
take_two c [] h t b = absurd (ends 0 _ _ t)
take_two c (x ∷ rest) h t b =
    let (top, a, t') = last_inv (c % 32) 0x80 x rest t in
    let (a', low, high) = lower 0x80 _ a in
    take_of (c % 32 * 64 + x % 64) (c ∷ x ∷ rest) rest (ground arith) a' t' b.1

take_three :
    (c : ℕ) (rest : Bytes)
    → c / 16 ≡ 14
    → text_loop 2 (c % 16) 0x800 rest ≡ true
    → IsBytes rest
    → Read (c ∷ rest)
unfolding utf8
take_three c [] h t b = absurd (ends 1 _ _ t)
take_three c (x ∷ []) h t b = absurd (ends 0 _ _ (more_inv 0 (c % 16) 0x800 x [] t).1)
take_three c (x ∷ y ∷ rest) h t b =
    let (top, t₁) = more_inv 0 (c % 16) 0x800 x (y ∷ rest) t in
    let (top', a, t') = last_inv (c % 16 * 64 + x % 64) 0x800 y rest t₁ in
    let (a', low, high) = lower 0x800 _ a in
    take_of ((c % 16 * 64 + x % 64) * 64 + y % 64) (c ∷ x ∷ y ∷ rest) rest (ground arith) a' t'
      b.1.1

take_four :
    (c : ℕ) (rest : Bytes)
    → c / 8 ≡ 30
    → text_loop 3 (c % 8) 0x10000 rest ≡ true
    → IsBytes rest
    → Read (c ∷ rest)
unfolding utf8
take_four c [] h t b = absurd (ends 2 _ _ t)
take_four c (x ∷ []) h t b = absurd (ends 1 _ _ (more_inv 1 (c % 8) 0x10000 x [] t).1)
take_four c (x ∷ y ∷ []) h t b =
    absurd (ends 0 _ _ (more_inv 0 _ 0x10000 y [] (more_inv 1 (c % 8) 0x10000 x (y ∷ []) t).1).1)
take_four c (x ∷ y ∷ z ∷ rest) h t b =
    let (top, t₁) = more_inv 1 (c % 8) 0x10000 x (y ∷ z ∷ rest) t in
    let (top', t₂) = more_inv 0 (c % 8 * 64 + x % 64) 0x10000 y (z ∷ rest) t₁ in
    let (top'', a, t') = last_inv ((c % 8 * 64 + x % 64) * 64 + y % 64) 0x10000 z rest t₂ in
    let (a', low, high) = lower 0x10000 _ a in
    take_of (((c % 8 * 64 + x % 64) * 64 + y % 64) * 64 + z % 64) (c ∷ x ∷ y ∷ z ∷ rest) rest
      (ground arith) a' t' b.1.1.1

take_first :
    (c : ℕ) (rest : Bytes)
    → IsBytes (c ∷ rest)
    → text_loop 0 0 0 (c ∷ rest) ≡ true
    → Read (c ∷ rest)
unfolding text_loop
take_first c rest b t = elim (lead_cases c b.0) [
  | inl bad ↦ absurd (refused (rw (bad, text_loop) at t))
  | inr (inl (e, h)) ↦ let (a, t') = first_inv c 0 c 0 rest e t in take_one c rest h a t' b.1
  | inr (inr (inl (e, h))) ↦ take_two c rest h (first_inv c 1 _ _ rest e t).1 b.1
  | inr (inr (inr (inl (e, h)))) ↦ take_three c rest h (first_inv c 2 _ _ rest e t).1 b.1
  | inr (inr (inr (inr (e, h)))) ↦ take_four c rest h (first_inv c 3 _ _ rest e t).1 b.1
]

abbrev Decoded : Bytes → Type 0
Decoded text = (points : List ℕ) × AllText points × (text ≡ utf8_all points)

decode :
    (fuel : ℕ) (text : Bytes)
    → length text ≤ fuel
    → IsBytes text
    → text_loop 0 0 0 text ≡ true
    → Decoded text
unfolding utf8_all
decode fuel [] n b t = ([], tt, refl)
decode zero (c ∷ rest) n b t = absurd (omega arith)
decode (suc fuel) (c ∷ rest) n b t =
    let (p, rest', e, a, t', b', shorter) = take_first c rest b t in
    let (ps, good, e') = decode fuel rest' (omega arith) b' t' in
    (p ∷ ps, (a, good), e ∙ ap (λ r. utf8 p ++ r) e')

-- A byte string passes `valid_text_ssid` exactly when it is the UTF-8 encoding of code points that
-- are no control, line or paragraph separator, surrogate or noncharacter: no overlong form, no
-- truncated sequence and no stray byte is accepted, and no such text is refused.
pub valid_text_ssid_iff :
    (text : Bytes)
    → IsBytes text
    → (valid_text_ssid text ≡ true)
      ↔ ((points : List ℕ) × AllText points × (text ≡ utf8_all points))
unfolding valid_text_ssid
valid_text_ssid_iff text b =
    (λ t. decode (length text) text (omega arith) b t, λ d. rw (d.2) (text_loop-utf8_all d.0 d.1))
