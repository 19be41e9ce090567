-- ===== src/ScanLimit/Spacing.antt =====
-- How far apart server/src/scan_limit.cpp lets scans be.
use encoder_next.Prelude.{
  ℕ, ◌+◌, ◌^◌, ◌≤◌, ◌<◌, ◌≡◌, ◌⊎◌, inl, inr, refl, Bool, true, false, ◌||◌, Option, none, some,
  List, [], ◌∷◌, Bytes, is_empty, length, ltb, leb, ◌==◌, if_both, Result, ok, err, decimal,
  digits_value-decimal, decimal_digits, arith, Bool-cases, String,
}
use encoder_next.ScanLimit.{
  ScanFaults, buffer_size, cooldown, read_stamp, write_stamp, check_stamp, reserve_scan_slot,
}

read_stamp-decimal : (n : ℕ) → 0 < n → n < 2 ^ 63 → read_stamp (decimal n) ≡ some n
unfolding read_stamp
read_stamp-decimal n h k =
    let (digits, some') = decimal_digits n in
    let low : (n == 0) ≡ false = ground arith in
    let high : leb (2 ^ 63) n ≡ false = ground arith in
    rw (digits_value-decimal n, digits, some', low, high) refl

abbrev pub Attempt : Type 0
Attempt = ScanFaults × ℕ

-- No write fails midway, and the clock shows a number of 63 bits.
abbrev pub IsIntact : Attempt → Type 0
IsIntact a = (a.0.write_leaves ≡ none) × (a.1 < 2 ^ 63)

abbrev pub AllIntact : List Attempt → Type 0
AllIntact [] = Unit {0}
AllIntact (a ∷ as') = IsIntact a × AllIntact as'

abbrev keep_time : Result (Unit {0}) → ℕ → List ℕ → List ℕ
keep_time (ok _) now ts = now ∷ ts
keep_time (err _) now ts = ts

-- The times of the attempts that are granted, one attempt after another.
unfoldable pub granted : List Attempt → Bytes → List ℕ
granted [] file = []
granted ((f, now) ∷ as') file =
    let (answer, file') = reserve_scan_slot f now file in keep_time answer now (granted as' file')

abbrev pub Spaced : ℕ → List ℕ → Type 0
Spaced last [] = Unit {0}
Spaced last (t ∷ ts) = (last + cooldown ≤ t) × Spaced t ts

abbrev pub AllSpaced : List ℕ → Type 0
AllSpaced [] = Unit {0}
AllSpaced (t ∷ ts) = Spaced t ts

-- A refused attempt leaves the file; a granted one leaves its time, which is positive and not below
-- the bound.
abbrev Outcome : ℕ → ℕ → Bytes → Result (Unit {0}) × Bytes → Type 0
Outcome bound now file r =
    ((m : String) × (r ≡ (err m, file))) ⊎ ((r ≡ (ok tt, decimal now)) × (bound ≤ now) × (0 < now))

module _ (f : ScanFaults) (now bound : ℕ) (file : Bytes) (whole : f.write_leaves ≡ none) where
  write_stamp-Outcome : bound ≤ now → 0 < now → Outcome bound now file (write_stamp f now file)
  unfolding write_stamp
  write_stamp-Outcome b p = inr (rw whole refl, b, p)

  check_stamp-Outcome :
      (o : Option ℕ)
      → ((last : ℕ) → o ≡ some last → bound ≤ last + cooldown)
      → 0 < now
      → Outcome bound now file (check_stamp f now o file)
  unfolding check_stamp
  check_stamp-Outcome none l p = inl (_, refl)
  check_stamp-Outcome (some last) l p =
      elim (Bool-cases (ltb now last || ltb now (last + cooldown))) [
        | inl e ↦ rw e (inl (_, refl))
        | inr e ↦
            let far : last + cooldown ≤ now = ground arith in
            rw e (write_stamp-Outcome (omega (arith, far, l last refl)) p)
      ]

  reserve-Outcome :
      (is_empty file ≡ true → bound ≡ 0)
      → ((last : ℕ) → read_stamp file ≡ some last → bound ≤ last + cooldown)
      → Outcome bound now file (reserve_scan_slot f now file)
  unfolding reserve_scan_slot
  reserve-Outcome z l = if_both (Outcome bound now file) f.unsafe_directory _ _ (inl (_, refl)) (
      if_both (Outcome bound now file) f.busy _ _ (inl (_, refl))
        (elim (Bool-cases (f.read_fails || leb buffer_size (length file) || now == 0)) [
          | inl e ↦ rw e (inl (_, refl))
          | inr e ↦
              let p : 0 < now = ground arith in
              rw e (elim (Bool-cases (is_empty file)) [
                | inl n ↦ rw n (write_stamp-Outcome (omega (arith, z n)) p)
                | inr n ↦ rw n (check_stamp-Outcome (read_stamp file) l p)
              ])
        ]))

same_some : (a b : ℕ) → some a ≡ some b → a ≡ b
same_some a b h = cc

not_both : (b : Bool) → b ≡ true → b ≡ false → ⊥
not_both b h k = cc

granted-Spaced :
    (as' : List Attempt) (last : ℕ)
    → 0 < last
    → last < 2 ^ 63
    → AllIntact as'
    → Spaced last (granted as' (decimal last))
unfolding granted
granted-Spaced [] last p s i = tt
granted-Spaced ((f, now) ∷ as') last p s i =
    elim (reserve-Outcome f now (last + cooldown) (decimal last) i.0.0
      (λ e. absurd (not_both _ e (decimal_digits last).1))
      (λ other e. omega (arith, same_some last other (cc (read_stamp-decimal last p s, e))))) [
        | inl (m, e) ↦ rw e (granted-Spaced as' last p s i.1)
        | inr (e, far, q) ↦ rw e (far, granted-Spaced as' now q i.0.1 i.1)
      ]

-- Whatever the state file holds at first, however often a scan is asked for and whichever attempts
-- the operating system makes fail, short of a write that fails midway, each granted scan comes 30
-- seconds or more after the one before it. The clock's seconds have 63 bits.
pub granted-AllSpaced :
    (as' : List Attempt) (file : Bytes) → AllIntact as' → AllSpaced (granted as' file)
unfolding granted
granted-AllSpaced [] file i = tt
granted-AllSpaced ((f, now) ∷ as') file i =
    elim (reserve-Outcome f now 0 file i.0.0 (λ e. refl) (λ last e. omega arith)) [
      | inl (m, e) ↦ rw e (granted-AllSpaced as' file i.1)
      | inr (e, far, q) ↦ rw e (granted-Spaced as' now q i.0.1 i.1)
    ]
