-- ===== src/Server/Audit/Tail.antt =====
-- The loop of `tail_logs` in server/src/audit.cpp against the end of the whole list.
use encoder_next.Prelude.{
  ℕ, zero, suc, ◌+◌, ◌-◌, ◌≤◌, ◌≡◌, refl, sym, ap, ◌∙◌, inl, inr, List, [], ◌∷◌, ◌++◌, append-nil,
  append_assoc, Bytes, length, length-append, length-drop, ltb, getlines, drop, is_empty,
  Bool-cases, if◌then◌else◌, arith,
}
use encoder_next.Server.Audit.{AuditService, contents, newest, drop_oldest, tail_loop, tail_logs}

newest-drop : (n : ℕ) (xs : List Bytes) → newest (suc n) xs ≡ drop (length xs - suc n) xs
newest-drop n xs = elim (Bool-cases (ltb (suc n) (length xs))) [
  | inl e ↦ rw e refl
  | inr e ↦ let none_left : length xs - suc n ≡ 0 = ground arith in rw (e, none_left) refl
]

drop-snoc :
    (k : ℕ) (xs : List Bytes) (x : Bytes)
    → k ≤ length xs
    → drop k xs ++ (x ∷ []) ≡ drop k (xs ++ (x ∷ []))
drop-snoc zero xs x h = refl
drop-snoc (suc k) [] x h = absurd (omega (arith, h))
drop-snoc (suc k) (y ∷ ys) x h = drop-snoc k ys x (omega (arith, h))

drop_one : (k : ℕ) (xs : List Bytes) → drop 1 (drop k xs) ≡ drop (suc k) xs
drop_one zero xs = refl
drop_one (suc k) [] = refl
drop_one (suc k) (x ∷ xs) = drop_one k xs

-- What a buffer of that size keeps of lines that are pushed into it.
newest-push :
    (limit : ℕ) (seen : List Bytes) (line : Bytes)
    → drop_oldest limit (newest limit seen ++ (line ∷ [])) ≡ newest limit (seen ++ (line ∷ []))
newest-push zero seen line = refl
newest-push (suc n) seen line =
    let k = length seen - suc n in
    let all = seen ++ (line ∷ []) in
    let size : length all ≡ length seen + 1 = length-append seen (line ∷ []) in
    let held = drop-snoc k seen line (omega arith) in
    let size' : length (drop k all) ≡ length seen + 1 - k =
      length-drop k all ∙ ap (λ v. v - k) size in
    rw (newest-drop n seen, newest-drop n all, held)
      (elim (Bool-cases (ltb (suc n) (length (drop k all)))) [
        | inl e ↦
            let one : length all - suc n ≡ suc k = ground (arith, size, size') in
            rw (e, one) (drop_one k all)
        | inr e ↦
            let same : length all - suc n ≡ k = ground (arith, size, size') in rw (e, same) refl
      ])

abbrev pub nonempty : List Bytes → List Bytes
nonempty [] = []
nonempty (line ∷ lines) = if is_empty line then nonempty lines else line ∷ nonempty lines

tail_loop-newest :
    (limit : ℕ) (lines seen : List Bytes)
    → tail_loop limit lines (newest limit seen) ≡ newest limit (seen ++ nonempty lines)
unfolding tail_loop
tail_loop-newest limit [] seen = rw (append-nil seen) refl
tail_loop-newest limit (line ∷ lines) seen = elim (Bool-cases (is_empty line)) [
  | inl e ↦ rw e (tail_loop-newest limit lines seen)
  | inr e ↦
      rw (e, newest-push limit seen line)
        (tail_loop-newest limit lines (seen ++ (line ∷ []))
          ∙ ap (newest limit) (append_assoc seen (line ∷ []) (nonempty lines)))
]

newest_nil : (limit : ℕ) → newest {A = Bytes} limit [] ≡ []
newest_nil zero = refl
newest_nil (suc n) = ground arith

-- The lines that `tail_logs` keeps while it reads are the last ones of all that are not empty, as
-- many as the limit says, and all of them for the limit 0.
pub tail_logs-newest :
    (limit : ℕ) (s : AuditService)
    → tail_logs limit s ≡ newest limit (nonempty (getlines 10 (contents s.log_file)))
unfolding tail_logs
tail_logs-newest limit s =
    let lines = getlines 10 (contents s.log_file) in
    ap (tail_loop limit lines) (sym (newest_nil limit)) ∙ tail_loop-newest limit lines []
