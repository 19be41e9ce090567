-- ===== src/Client/Fields.antt =====
-- Headers that client/src/client_core.cpp builds field by field: their names stay distinct, and each
-- field can be read back.
use encoder_next.Prelude.{
  ◌≡◌, refl, sym, ap, ◌∙◌, inl, inr, false, Option, none, some, [], ◌∷◌, ◌++◌, Bytes, bytes_eq,
  bytes_eq_sound, is_empty, if◌then◌else◌, Bool-cases, find, put, find-put,
}
use encoder_next.Protocol.{Header, get, set}
use encoder_next.Protocol.RoundTrip.{IsField, AllFields, AllNew}
use encoder_next.Client.Embedded.{set_some}

-- A header that is read back from its text.
abbrev pub IsSound : Header → Type 0
IsSound h = AllFields h × AllNew [] h

AllFields-put : (k v : Bytes) (h : Header) → IsField (k, v) → AllFields h → AllFields (put k v h)
unfolding put
AllFields-put k v [] f a = (f, tt)
AllFields-put k v (x ∷ xs) f a = elim (Bool-cases (bytes_eq x.0 k)) [
  | inl e ↦ rw e (f, a.1)
  | inr e ↦ rw e (a.0, AllFields-put k v xs f a.1)
]

abbrev or_else {ℓ} : {A : Type ℓ} → Option A → Option A → Option A
or_else none later = later
or_else (some a) later = some a

find-append : (z : Bytes) (xs ys : Header) → find z (xs ++ ys) ≡ or_else (find z xs) (find z ys)
unfolding find
find-append z [] ys = refl
find-append z (x ∷ xs) ys = elim (Bool-cases (bytes_eq x.0 z)) [
  | inl e ↦ rw e refl
  | inr e ↦ rw e (find-append z xs ys)
]

-- No name is missing from the second header that is missing from the first.
abbrev Covers : Header → Header → Type 0
Covers before after = (z : Bytes) → find z before ≡ none → find z after ≡ none

or_else-none {ℓ} : {A : Type ℓ} (a b : Option A) → or_else a b ≡ none → (a ≡ none) × (b ≡ none)
or_else-none none b h = (refl, h)
or_else-none (some x) b h = absurd (cc h)

single_none :
    (z u v u' w : Bytes) → u ≡ u' → find z ((u, v) ∷ []) ≡ none → find z ((u', w) ∷ []) ≡ none
unfolding find
single_none z u v u' w same h = elim (Bool-cases (bytes_eq u z)) [
  | inl e ↦ absurd (cc (rw e at h))
  | inr e ↦ rw (← same, e) refl
]

Covers-snoc :
    (before after : Header) (x y : Bytes × Bytes)
    → x.0 ≡ y.0
    → Covers before after
    → Covers (before ++ (x ∷ [])) (after ++ (y ∷ []))
unfolding find
Covers-snoc before after x y same c z h =
    let (out, last) =
      or_else-none (find z before) (find z (x ∷ [])) (sym (find-append z before (x ∷ [])) ∙ h) in
    find-append z after (y ∷ []) ∙ rw (c z out) (single_none z x.0 x.1 y.0 y.1 same last)

AllNew-Covers : (before after h : Header) → Covers before after → AllNew before h → AllNew after h
AllNew-Covers before after [] c n = tt
AllNew-Covers before after (x ∷ xs) c n = (
  c x.0 n.0,
  AllNew-Covers (before ++ (x ∷ [])) (after ++ (x ∷ [])) xs (Covers-snoc before after x x refl c)
      n.1,
)

AllNew-put :
    (before : Header) (k v : Bytes) (h : Header)
    → find k before ≡ none
    → AllNew before h
    → AllNew before (put k v h)
unfolding put find
AllNew-put before k v [] m n = (m, tt)
AllNew-put before k v (x ∷ xs) m n = elim (Bool-cases (bytes_eq x.0 k)) [
  | inl e ↦ rw e (
    m,
    AllNew-Covers (before ++ (x ∷ [])) (before ++ ((k, v) ∷ [])) xs
        (Covers-snoc before before x (k, v) (bytes_eq_sound x.0 k e) (λ z h. h)) n.1,
  )
  | inr e ↦ rw e (
    n.0,
    AllNew-put (before ++ (x ∷ [])) k v xs (find-append k before (x ∷ []) ∙ rw (m, e) refl) n.1,
  )
]

pub IsSound-set : (k v : Bytes) (h : Header) → IsField (k, v) → IsSound h → IsSound (set k v h)
unfolding set find
IsSound-set k v h f (a, n) = (AllFields-put k v h f a, AllNew-put [] k v h refl n)

pub IsSound-set_some :
    (k v : Bytes) (h : Header)
    → (is_empty v ≡ false → IsField (k, v))
    → IsSound h
    → IsSound (set_some k v h)
unfolding set_some
IsSound-set_some k v h f s = elim (Bool-cases (is_empty v)) [
  | inl e ↦ rw e s
  | inr e ↦ rw e (IsSound-set k v h (f e) s)
]

-- Reading a field that was set, or another one.
pub get-set :
    (k z d v : Bytes) (h : Header) → get z d (set k v h) ≡ (if bytes_eq k z then v else get z d h)
unfolding get set
get-set k z d v h =
    ap (λ o. elim o [ none ↦ d | some u ↦ u ]) (find-put k z v h)
    ∙ elim (Bool-cases (bytes_eq k z)) [ inl e ↦ rw e refl | inr e ↦ rw e refl ]

pub get-set_some :
    (k z d v : Bytes) (h : Header)
    → get z d (set_some k v h)
      ≡ (if is_empty v then get z d h else if bytes_eq k z then v else get z d h)
unfolding set_some
get-set_some k z d v h = elim (Bool-cases (is_empty v)) [
  | inl e ↦ rw e refl
  | inr e ↦ rw e (get-set k z d v h)
]
