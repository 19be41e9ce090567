-- ===== src/Prelude/Lines.antt =====
-- Reading a text in lines or fields, as `std::getline` does.
use Prim.Native.Nat.{ℕ}
use mathlib.Core.Path.{◌≡◌, refl}
use mathlib.Core.Bool.{Bool, true, false, not}
use mathlib.Core.List.{List, [], ◌∷◌, ◌++◌}
use native.Mathlib.Omega.{arith}
use encoder_next.Prelude.Tests.{if◌then◌else◌, ◌==◌}
use encoder_next.Prelude.Lists.{all}
use encoder_next.Prelude.Text.{Bytes}

abbrev cons_first : ℕ → List Bytes → List Bytes
cons_first c [] = (c ∷ []) ∷ []
cons_first c (f ∷ fs) = (c ∷ f) ∷ fs

-- What `getline` gives, call after call, until it fails: a separator at the end opens no field.
unfoldable pub getlines : ℕ → Bytes → List Bytes
getlines sep [] = []
getlines sep (c ∷ cs) =
    let rest = getlines sep cs in if c == sep then [] ∷ rest else cons_first c rest

-- Anything but the separator.
abbrev pub not_sep : ℕ → ℕ → Bool
not_sep sep c = not (c == sep)

same_sep : (n : ℕ) → (n == n) ≡ true
same_sep n = ground arith

pub getlines-field :
    (sep : ℕ) (field rest : Bytes)
    → all (not_sep sep) field ≡ true
    → getlines sep (field ++ (sep ∷ rest)) ≡ field ∷ getlines sep rest
unfolding getlines
getlines-field sep [] rest h = rw (same_sep sep) refl
getlines-field sep (c ∷ cs) rest h =
    let again = getlines-field sep cs rest (ground arith) in
    let other : (c == sep) ≡ false = ground arith in rw (again, other) refl

pub getlines-last :
    (sep c : ℕ) (cs : Bytes)
    → all (not_sep sep) (c ∷ cs) ≡ true
    → getlines sep (c ∷ cs) ≡ (c ∷ cs) ∷ []
unfolding getlines
getlines-last sep c [] h = let other : (c == sep) ≡ false = ground arith in rw other refl
getlines-last sep c (d ∷ ds) h =
    let again = getlines-last sep d ds (ground arith) in
    let other : (c == sep) ≡ false = ground arith in rw (other, again, getlines) refl
