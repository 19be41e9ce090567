-- ===== src/Server/Audit/Numbers.antt =====
-- The numbers that server/src/audit.cpp writes in a line are those that it reads from it.
use encoder_next.Prelude.{
  ℕ, suc, ◌^◌, ◌<◌, ◌≤◌, ◌≡◌, refl, ap, ◌∙◌, lt→ltb, true, false, some, [], ◌∷◌, Bytes, all,
  is_empty, decimal, decimal_digits, digits_value, digits_value-decimal, is_digit, ltb, leb, ◌==◌,
  ℤ, pos, negsuc, arith,
}
use encoder_next.Crypto.Names.{skip_spaces}
use encoder_next.Server.Context.{leading_digits, stoull, to_string}
use encoder_next.Server.Policy.{stoll}

leading_digits-all : (cs : Bytes) → all is_digit cs ≡ true → leading_digits cs ≡ cs
unfolding leading_digits
leading_digits-all [] h = refl
leading_digits-all (c ∷ cs) h =
    let rest = leading_digits-all cs (ground arith) in
    let first : is_digit c ≡ true = ground arith in rw (rest, first) refl

skip_spaces_digit : (c : ℕ) (cs : Bytes) → is_digit c ≡ true → skip_spaces (c ∷ cs) ≡ c ∷ cs
unfolding skip_spaces
skip_spaces_digit c cs h = ground arith

stoull_digits :
    (cs : Bytes)
    → all is_digit cs ≡ true
    → is_empty cs ≡ false
    → digits_value 0 cs < 2 ^ 64
    → stoull cs ≡ some (digits_value 0 cs)
unfolding stoull
stoull_digits [] h e s = absurd (cc e)
stoull_digits (c ∷ cs) h e s =
    let d : is_digit c ≡ true = ground arith in
    let minus : (c == b'-') ≡ false = ground arith in
    let plus : (c == b'+') ≡ false = ground arith in
    let small : ltb (digits_value 0 (c ∷ cs)) (2 ^ 64) ≡ true = lt→ltb _ _ s in
    rw (skip_spaces_digit c cs d, minus, plus, leading_digits-all (c ∷ cs) h, small) refl

pub stoull-decimal : (n : ℕ) → n < 2 ^ 64 → stoull (decimal n) ≡ some n
stoull-decimal n h =
    let (digits, some') = decimal_digits n in
    stoull_digits (decimal n) digits some' (rw (digits_value-decimal n) h)
    ∙ ap some (digits_value-decimal n)

abbrev pub IsTime : ℤ → Type 0
IsTime (pos n) = n < 2 ^ 63
IsTime (negsuc n) = suc n ≤ 2 ^ 63

stoll_digits :
    (cs : Bytes)
    → all is_digit cs ≡ true
    → is_empty cs ≡ false
    → digits_value 0 cs < 2 ^ 63
    → stoll cs ≡ some (pos (digits_value 0 cs))
unfolding stoll
stoll_digits [] h e s = absurd (cc e)
stoll_digits (c ∷ cs) h e s =
    let d : is_digit c ≡ true = ground arith in
    let minus : (c == b'-') ≡ false = ground arith in
    let plus : (c == b'+') ≡ false = ground arith in
    let small : ltb (digits_value 0 (c ∷ cs)) (2 ^ 63) ≡ true = lt→ltb _ _ s in
    rw (skip_spaces_digit c cs d, minus, plus, leading_digits-all (c ∷ cs) h, small) refl

pub stoll-to_string : (t : ℤ) → IsTime t → stoll (to_string t) ≡ some t
unfolding stoll skip_spaces
stoll-to_string (pos n) h =
    let (digits, some') = decimal_digits n in
    stoll_digits (decimal n) digits some' (rw (digits_value-decimal n) h)
    ∙ ap (λ v. some (pos v)) (digits_value-decimal n)
stoll-to_string (negsuc n) h =
    let (digits, some') = decimal_digits (suc n) in
    let small : leb (suc n) (2 ^ 63) ≡ true = ground arith in
    rw (leading_digits-all (decimal (suc n)) digits, some', digits_value-decimal (suc n), small)
      refl
