-- ===== src/Protocol/Transfer/Rounds.antt =====
-- The loops of common/src/protocol.cpp and server/src/main.cpp end, and move whole texts.
use encoder_next.Prelude.{
  ℕ, zero, suc, ◌-◌, ◌≤◌, ◌≡◌, refl, sym, ap, ◌∙◌, ◌⊎◌, inl, inr, Bool, true, false, Option, none,
  some, [], ◌∷◌, ◌++◌, append-nil, append_assoc, Bytes, length, length-drop, take, drop, leb,
  if◌then◌else◌, Bool-cases, Option-cases, arith,
}
use mathlib.Core.Path.{subst}
use encoder_next.Protocol.{Header, serialize}
use encoder_next.Protocol.Transfer.{
  Sink, write_loop, write_all, write_header, Chunks, add_chunk, read_loop, read_exact,
}

-- A stream that reports no error takes one byte or more of those offered, and no more than those.
abbrev pub Takes : Sink → Type 0
Takes sink = (sent bytes : Bytes) (n : ℕ) → sink sent bytes ≡ some n → (1 ≤ n) × (n ≤ length bytes)

take-drop : (n : ℕ) (xs : Bytes) → take n xs ++ drop n xs ≡ xs
take-drop zero xs = refl
take-drop (suc n) [] = refl
take-drop (suc n) (x ∷ xs) = ap (◌∷◌ x) (take-drop n xs)

-- The loop ended: all was sent, or there was an error behind a part of it.
abbrev pub Sent : Bytes → Bytes → Option (Bool × Bytes) → Type 0
Sent sent bytes outcome =
    (outcome ≡ some (true, sent ++ bytes))
    ⊎ ((before after : Bytes) × (bytes ≡ before ++ after)
        × (outcome ≡ some (false, sent ++ before)))

Sent-part :
    (sent part rest : Bytes) (outcome : Option (Bool × Bytes))
    → Sent (sent ++ part) rest outcome
    → Sent sent (part ++ rest) outcome
Sent-part sent part rest outcome (inl e) =
    inl (e ∙ ap (λ t. some (true, t)) (append_assoc sent part rest))
Sent-part sent part rest outcome (inr (before, after, split, e)) = inr (
  part ++ before,
  after,
  ap (part ++◌) split ∙ sym (append_assoc part before after),
  e ∙ ap (λ t. some (false, t)) (append_assoc sent part before),
)

module _ (sink : Sink) (takes : Takes sink) where
  write_loop-Sent :
      (rounds : ℕ) (sent bytes : Bytes)
      → length bytes ≤ rounds
      → Sent sent bytes (write_loop sink rounds sent bytes)
  unfolding write_loop
  write_loop-Sent rounds sent [] h = inl (ap (λ t. some (true, t)) (sym (append-nil sent)))
  write_loop-Sent zero sent (c ∷ cs) h = absurd (omega (arith, h))
  write_loop-Sent (suc rounds) sent (c ∷ cs) h = elim (Option-cases (sink sent (c ∷ cs))) [
    | inl e ↦
        rw (e, write_loop)
          (inr ([], c ∷ cs, refl, ap (λ t. some (false, t)) (sym (append-nil sent))))
    | inr (n, e) ↦
        let (least, most) = takes sent (c ∷ cs) n e in
        let left : length (drop n (c ∷ cs)) ≤ rounds =
          omega (arith, length-drop n (c ∷ cs), least, h) in
        let rest =
          Sent-part sent (take n (c ∷ cs)) (drop n (c ∷ cs)) _
            (write_loop-Sent rounds (sent ++ take n (c ∷ cs)) (drop n (c ∷ cs)) left) in
        rw (e, write_loop)
          (subst
            (λ t. Sent sent t (write_loop sink rounds (sent ++ take n (c ∷ cs)) (drop n (c ∷ cs))))
            (take-drop n (c ∷ cs)) rest)
  ]

  -- Over a stream that takes one byte or more with each call, or reports an error, the header is sent
  -- within as many rounds as its text has bytes: either all of the text, each byte once and in order,
  -- and this is reported, or a part from its beginning, and the error is reported.
  pub write_header-Sent :
      (sent : Bytes) (header : Header)
      → Sent sent (serialize header) (write_header sink sent header)
  unfolding write_header write_all
  write_header-Sent sent header =
      write_loop-Sent (length (serialize header)) sent (serialize header) (omega arith)

-- A read gives one byte or more, and no more than were asked for or are there.
abbrev pub Gives : Chunks → Type 0
Gives chunks =
    (size : ℕ) (stream : Bytes)
    → 1 ≤ size
    → 1 ≤ length stream
    → (1 ≤ chunks size stream) × (chunks size stream ≤ size) × (chunks size stream ≤ length stream)

-- All at once.
abbrev pub at_once : ℕ → Bytes → Option (Bytes × Bytes)
at_once size stream =
    if leb size (length stream) then some (take size stream, drop size stream) else none

take_none : (n : ℕ) → take {A = ℕ} n [] ≡ []
take_none zero = refl
take_none (suc n) = refl

drop_none : (n : ℕ) → drop {A = ℕ} n [] ≡ []
drop_none zero = refl
drop_none (suc n) = refl

less_none : (m : ℕ) → m - 0 ≡ m
less_none m = omega arith

less_both : (m n : ℕ) → suc m - suc n ≡ m - n
less_both m n = omega arith

none_short : (n : ℕ) → leb (suc n) 0 ≡ false
none_short n = ground arith

zero_fits : (m : ℕ) → leb 0 m ≡ true
zero_fits m = ground arith

take_split : (n m : ℕ) (xs : Bytes) → n ≤ m → take n xs ++ take (m - n) (drop n xs) ≡ take m xs
take_split zero m xs h = ap (λ k. take k xs) (less_none m)
take_split (suc n) zero xs h = absurd (omega (arith, h))
take_split (suc n) (suc m) [] h = take_none (suc m - suc n)
take_split (suc n) (suc m) (x ∷ xs) h =
    rw (less_both m n) (ap (◌∷◌ x) (take_split n m xs (omega (arith, h))))

drop_split : (n m : ℕ) (xs : Bytes) → n ≤ m → drop (m - n) (drop n xs) ≡ drop m xs
drop_split zero m xs h = ap (λ k. drop k xs) (less_none m)
drop_split (suc n) zero xs h = absurd (omega (arith, h))
drop_split (suc n) (suc m) [] h = drop_none (suc m - suc n)
drop_split (suc n) (suc m) (x ∷ xs) h = rw (less_both m n) (drop_split n m xs (omega (arith, h)))

-- One chunk, and the rest at once.
at_once_part :
    (n size : ℕ) (stream : Bytes)
    → n ≤ size
    → n ≤ length stream
    → add_chunk (take n stream) (some (at_once (size - n) (drop n stream)))
      ≡ some (at_once size stream)
at_once_part n size stream h k =
    let left = length-drop n stream in
    elim (Bool-cases (leb size (length stream))) [
      | inl e ↦
          let e' : leb (size - n) (length (drop n stream)) ≡ true = ground (arith, left) in
          rw (e, e', take_split n size stream h, drop_split n size stream h) refl
      | inr e ↦
          let e' : leb (size - n) (length (drop n stream)) ≡ false = ground (arith, left) in
          rw (e, e') refl
    ]

module _ (chunks : Chunks) (gives : Gives chunks) where
  read_loop-at_once :
      (rounds size : ℕ) (stream : Bytes)
      → size ≤ rounds
      → read_loop chunks rounds size stream ≡ some (at_once size stream)
  unfolding read_loop
  read_loop-at_once rounds zero stream h = rw (zero_fits (length stream)) refl
  read_loop-at_once zero (suc size) stream h = absurd (omega (arith, h))
  read_loop-at_once (suc rounds) (suc size) [] h = rw (none_short size) refl
  read_loop-at_once (suc rounds) (suc size) (c ∷ cs) h =
      let n = chunks (suc size) (c ∷ cs) in
      let (least, most, there) = gives (suc size) (c ∷ cs) (omega arith) (omega arith) in
      ap (add_chunk (take n (c ∷ cs)))
        (read_loop-at_once rounds (suc size - n) (drop n (c ∷ cs)) (omega (arith, h, least)))
      ∙ at_once_part n (suc size) (c ∷ cs) most there

  -- However a stream that gives one byte or more with each read cuts what it gives, reading a number of
  -- bytes ends within as many rounds, and gives exactly the next bytes of the stream, or the failure
  -- if there are too few.
  pub read_exact-at_once :
      (size : ℕ) (stream : Bytes) → read_exact chunks size stream ≡ some (at_once size stream)
  unfolding read_exact
  read_exact-at_once size stream = read_loop-at_once size size stream (omega arith)
