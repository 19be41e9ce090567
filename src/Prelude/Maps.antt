-- ===== src/Prelude/Maps.antt =====
-- Maps from names: association lists that hold a name once, in the order of arrival.
use mathlib.Core.Path.{◌≡◌, refl, ap}
use mathlib.Core.Logic.{inl, inr, ◌≢◌}
use mathlib.Core.Bool.{Bool, true, false}
use mathlib.Core.Option.{Option, none, some}
use mathlib.Core.List.{List, [], ◌∷◌, ◌++◌}
use native.Mathlib.Omega.{arith}
use encoder_next.Prelude.Tests.{if◌then◌else◌, Bool-cases}
use encoder_next.Prelude.Text.{Bytes, bytes_eq, bytes_eq_sound, bytes_eq_refl}

abbrev pub Map {ℓ} : Type ℓ → Type ℓ
Map A = List (Bytes × A)

unfoldable pub find {ℓ} : {A : Type ℓ} → Bytes → Map A → Option A
find user [] = none
find user (x ∷ xs) = if bytes_eq x.0 user then some x.1 else find user xs

-- Stores a value under a name, over the old one if there is any.
unfoldable pub put {ℓ} : {A : Type ℓ} → Bytes → A → Map A → Map A
put user value [] = (user, value) ∷ []
put user value (x ∷ xs) =
    let rest = put user value xs in if bytes_eq x.0 user then (user, value) ∷ xs else x ∷ rest

if_again {ℓ} :
    {A : Type ℓ} (b : Bool) (p q r : A)
    → (if b then p else q) ≡ (if b then p else if b then r else q)
if_again true p q r = refl
if_again false p q r = refl

if_swap {ℓ} :
    {A : Type ℓ} (a b : Bool) (p q r : A)
    → (a ≡ true → b ≡ false)
    → (if a then p else if b then q else r) ≡ (if b then q else if a then p else r)
if_swap true true p q r h = absurd (cc (h refl))
if_swap true false p q r h = refl
if_swap false b p q r h = refl

apart : (x u v : Bytes) → bytes_eq x u ≡ false → bytes_eq x v ≡ true → bytes_eq u v ≡ false
apart x u v h k = elim (Bool-cases (bytes_eq u v)) [
  | inl e ↦ absurd (cc (h, k, bytes_eq_sound u v e))
  | inr e ↦ e
]

-- Looking up what was stored.
pub find-put {ℓ} :
    {A : Type ℓ} (u v : Bytes) (s : A) (m : Map A)
    → find v (put u s m) ≡ (if bytes_eq u v then some s else find v m)
unfolding find put
find-put u v s [] = refl
find-put u v s (x ∷ xs) = elim (Bool-cases (bytes_eq x.0 u)) [
  | inl e ↦ rw (e, find, bytes_eq_sound x.0 u e) (if_again (bytes_eq u v) _ _ _)
  | inr e ↦
      rw (e, find, find-put u v s xs)
        (if_swap (bytes_eq x.0 v) (bytes_eq u v) _ _ _ (apart x.0 u v e))
]

-- A new name goes to the end.
pub put_new {ℓ} :
    {A : Type ℓ} (u : Bytes) (s : A) (m : Map A) → find u m ≡ none → put u s m ≡ m ++ ((u, s) ∷ [])
unfolding find put
put_new u s [] h = refl
put_new u s (x ∷ xs) h = elim (Bool-cases (bytes_eq x.0 u)) [
  | inl e ↦ absurd (cc (rw (e, find) at h))
  | inr e ↦ rw (e, put) (ap (◌∷◌ x) (put_new u s xs (rw (e, find) at h)))
]

pub find-put_same {ℓ} : {A : Type ℓ} (u : Bytes) (s : A) (m : Map A) → find u (put u s m) ≡ some s
find-put_same u s m = rw (find-put u u s m, bytes_eq_refl u) refl

pub find-put_other {ℓ} :
    {A : Type ℓ} (u v : Bytes) (s : A) (m : Map A) → v ≢ u → find v (put u s m) ≡ find v m
find-put_other u v s m h =
    let other : bytes_eq u v ≡ false = ground (arith, bytes_eq_sound u v) in
    rw (find-put u v s m, other) refl
