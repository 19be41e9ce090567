-- ===== src/Prelude/Decimal.antt =====
-- Numbers in decimal, as the program prints and reads them.
use Prim.Native.Nat.{ℕ, zero, suc, ◌+◌, ◌-◌, ◌*◌, ◌/◌, ◌%◌, ◌≤◌}
use mathlib.Core.Path.{◌≡◌, refl, ◌∙◌, ap}
use mathlib.Core.Logic.{inl, inr}
use mathlib.Core.Bool.{Bool, true, false}
use mathlib.Core.List.{[], ◌∷◌}
use native.Mathlib.Omega.{arith}
use encoder_next.Prelude.Tests.{if◌then◌else◌, ltb, Bool-cases}
use encoder_next.Prelude.Lists.{all, is_empty}
use encoder_next.Prelude.Text.{Bytes, between}

-- A number in decimal; the first argument bounds the digits left.
unfoldable pub decimal_loop : ℕ → ℕ → Bytes → Bytes
decimal_loop zero n digits = (b'0' + n % 10) ∷ digits
decimal_loop (suc left) n digits =
    let more = decimal_loop left (n / 10) ((b'0' + n % 10) ∷ digits) in
    if ltb n 10 then (b'0' + n) ∷ digits else more

unfoldable pub decimal : ℕ → Bytes
decimal n = decimal_loop n n []

-- The value of decimal digits behind those already read.
unfoldable pub digits_value : ℕ → Bytes → ℕ
digits_value value [] = value
digits_value value (c ∷ cs) = digits_value (value * 10 + (c - b'0')) cs

abbrev pub is_digit : ℕ → Bool
is_digit c = between b'0' b'9' c

decimal_loop_value :
    (left n : ℕ) (digits : Bytes)
    → n ≤ left
    → digits_value 0 (decimal_loop left n digits) ≡ digits_value n digits
unfolding decimal_loop digits_value
decimal_loop_value zero n digits h =
    let s : 0 * 10 + (b'0' + n % 10 - b'0') ≡ n = omega arith in ap (λ v. digits_value v digits) s
decimal_loop_value (suc left) n digits h = elim (Bool-cases (ltb n 10)) [
  | inl e ↦
      let s : 0 * 10 + (b'0' + n - b'0') ≡ n = omega arith in
      rw e (ap (λ v. digits_value v digits) s)
  | inr e ↦
      let large : 10 ≤ n = ground arith in
      let s : n / 10 * 10 + (b'0' + n % 10 - b'0') ≡ n = omega arith in
      rw (e, decimal_loop)
        (decimal_loop_value left (n / 10) ((b'0' + n % 10) ∷ digits) (omega arith)
          ∙ ap (λ v. digits_value v digits) s)
]

pub digits_value-decimal : (n : ℕ) → digits_value 0 (decimal n) ≡ n
unfolding decimal digits_value
digits_value-decimal n = decimal_loop_value n n [] (omega arith)

decimal_loop_digits :
    (left n : ℕ) (digits : Bytes)
    → all is_digit digits ≡ true
    → (all is_digit (decimal_loop left n digits) ≡ true)
      × (is_empty (decimal_loop left n digits) ≡ false)
unfolding decimal_loop
decimal_loop_digits zero n digits h = (ground arith, refl)
decimal_loop_digits (suc left) n digits h =
    let more = decimal_loop_digits left (n / 10) ((b'0' + n % 10) ∷ digits) (ground arith) in
    elim (Bool-cases (ltb n 10)) [ inl e ↦ rw e (ground arith, refl) | inr e ↦ rw e more ]

pub decimal_digits : (n : ℕ) → (all is_digit (decimal n) ≡ true) × (is_empty (decimal n) ≡ false)
unfolding decimal
decimal_digits n = decimal_loop_digits n n [] refl
