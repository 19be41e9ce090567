-- ===== src/Prelude/Results.antt =====
-- Fallible code: a value, or the message that the source stores through its `error` pointer.
use Prim.Native.String.{String}
use mathlib.Core.Path.{◌≡◌, refl}
use mathlib.Core.Logic.{◌⊎◌, inl, inr}
use mathlib.Core.Bool.{Bool, true, false}
use mathlib.Core.Option.{Option, none, some}

pub data Result {ℓ} (A : Type ℓ) : Type ℓ where
  ok : A → Result A
  err : String → Result A

pub Result-cases {ℓ} :
    {A : Type ℓ} (r : Result A) → ((a : A) × (r ≡ ok a)) ⊎ ((e : String) × (r ≡ err e))
Result-cases (ok a) = inl (a, refl)
Result-cases (err e) = inr (e, refl)

infixl 5 ◌>>=◌
-- The next step of a chain; a message ends it.
abbrev pub ◌>>=◌ {ℓ κ} : {A : Type ℓ} → Result A → {B : Type κ} → (A → Result B) → Result B
err message >>= next = err message
ok a >>= next = next a

infixl 5 ◌>>◌
abbrev pub ◌>>◌ {κ} : Result (Unit {0}) → {B : Type κ} → Result B → Result B
err message >> next = err message
ok u >> next = next

-- A step that gives nothing fails with a message.
abbrev pub attempt {ℓ} : {A : Type ℓ} → Option A → String → Result A
attempt none message = err message
attempt (some a) message = ok a

abbrev pub require : Bool → String → Result (Unit {0})
require true message = ok tt
require false message = err message

-- What a chain that succeeds went through.
pub >>=_inv {ℓ κ} :
    {A : Type ℓ} {B : Type κ} (first : Result A) (next : A → Result B) {b : B}
    → (first >>= next) ≡ ok b
    → (a : A) × (first ≡ ok a) × (next a ≡ ok b)
>>=_inv (err message) next h = absurd (cc h)
>>=_inv (ok a) next h = (a, refl, h)

pub attempt-ok {ℓ} :
    {A : Type ℓ} (o : Option A) (message : String) {a : A} → attempt o message ≡ ok a → o ≡ some a
attempt-ok none message h = absurd (cc h)
attempt-ok (some a) message h = cc h

-- A chain that begins with such a step, read backwards and forwards.
pub attempt_inv {ℓ κ} :
    {A : Type ℓ} {B : Type κ} (o : Option A) (message : String) (f : A → Result B) {b : B}
    → (attempt o message >>= f) ≡ ok b
    → (a : A) × (o ≡ some a) × (f a ≡ ok b)
attempt_inv none message f h = absurd (cc h)
attempt_inv (some a) message f h = (a, refl, h)

pub attempt_step {ℓ κ} :
    {A : Type ℓ} {B : Type κ} (o : Option A) (message : String) (f : A → Result B) {a : A}
    {r : Result B}
    → o ≡ some a
    → f a ≡ r
    → (attempt o message >>= f) ≡ r
attempt_step o message f e h = rw e h

pub require_inv {κ} :
    {B : Type κ} (t : Bool) (message : String) (r : Result B) {b : B}
    → (require t message >> r) ≡ ok b
    → (t ≡ true) × (r ≡ ok b)
require_inv true message r h = (refl, h)
require_inv false message r h = absurd (cc h)

pub require_step {κ} :
    {B : Type κ} (t : Bool) (message : String) (r : Result B) {s : Result B}
    → t ≡ true
    → r ≡ s
    → (require t message >> r) ≡ s
require_step t message r e h = rw e h

pub ok_inj {ℓ} : {A : Type ℓ} (a b : A) → ok a ≡ ok b → a ≡ b
ok_inj a b h = cc h
