-- ===== src/Client/RoundTrip.antt =====
-- A file that client/src/client_core.cpp encrypted is opened with what it was encrypted with.
use encoder_next.Prelude.{
  ℕ, ◌≡◌, refl, ap, ◌∙◌, true, false, some, [], ◌∷◌, ◌++◌, append_assoc, Bytes, all, ◌==◌, not_sep,
  arith,
}
use encoder_next.Protocol.{Header, field_line, serialize, cons_before, is_blank}
use encoder_next.Protocol.RoundTrip.{IsField, AllFields, line_plain, parse-serialize, trimmed_head}
use encoder_next.Client.Embedded.{embedded_bytes, embedded, split_end, read_split, read_embedded}
use encoder_next.Client.Fields.{IsSound}

split_plain :
    (l s tail rest : Bytes)
    → all (not_sep 10) l ≡ true
    → split_end (10 ∷ s) ≡ some (tail, rest)
    → split_end (l ++ (10 ∷ s)) ≡ some (l ++ tail, rest)
unfolding split_end
split_plain [] s tail rest h e = e
split_plain (a ∷ []) s tail rest h e =
    let other : (a == 10) ≡ false = ground arith in rw (other, split_end, e) refl
split_plain (a ∷ b ∷ bs) s tail rest h e =
    let other : (a == 10) ≡ false = ground arith in
    let again = split_plain (b ∷ bs) s tail rest (ground arith) e in
    rw (other, split_end, again) refl

-- The first byte of a field is no line end.
field_head :
    (x : Bytes × Bytes)
    → IsField x
    → (y : ℕ × Bytes) × (field_line x ≡ y.0 ∷ y.1) × ((y.0 == 10) ≡ false)
field_head ([], v) f = absurd (cc f.0)
field_head (c ∷ k, v) f =
    let blank : is_blank c ≡ false = trimmed_head c k f.4 in
    ((c, k ++ (b':' ∷ b' ' ∷ v)), refl, ground arith)

split_head :
    (l s : Bytes) (y : ℕ × Bytes)
    → l ≡ y.0 ∷ y.1
    → (y.0 == 10) ≡ false
    → split_end (10 ∷ (l ++ (10 ∷ s))) ≡ cons_before 10 (split_end (l ++ (10 ∷ s)))
unfolding split_end
split_head l s (c, cs) e other = rw (e, other) refl

split_entries :
    (h : Header) (rest : Bytes)
    → AllFields h
    → split_end (10 ∷ (serialize h ++ rest)) ≡ some (10 ∷ serialize h, rest)
unfolding serialize split_end
split_entries [] rest f = refl
split_entries (x ∷ xs) rest f =
    let (y, line, other) = field_head x f.0 in
    let later =
      split_plain (field_line x) (serialize xs ++ rest) (10 ∷ serialize xs) rest (line_plain x f.0)
        (split_entries xs rest f.1) in
    ap (λ s. split_end (10 ∷ s)) (append_assoc (field_line x) (10 ∷ serialize xs) rest)
    ∙ split_head (field_line x) (serialize xs ++ rest) y line other
    ∙ ap (cons_before 10) later

pub split_end-serialize :
    (x : Bytes × Bytes) (xs : Header) (rest : Bytes)
    → AllFields (x ∷ xs)
    → split_end (serialize (x ∷ xs) ++ rest) ≡ some (serialize (x ∷ xs), rest)
unfolding serialize
split_end-serialize x xs rest f =
    ap split_end (append_assoc (field_line x) (10 ∷ serialize xs) rest)
    ∙ split_plain (field_line x) (serialize xs ++ rest) (10 ∷ serialize xs) rest (line_plain x f.0)
        (split_entries xs rest f.1)

-- A sound header and the data behind it are read back.
pub read_embedded-embedded_bytes :
    (x : Bytes × Bytes) (xs : Header) (data' : Bytes)
    → IsSound (x ∷ xs)
    → read_embedded (embedded_bytes (x ∷ xs) data') ≡ embedded (x ∷ xs) data'
unfolding read_embedded
read_embedded-embedded_bytes x xs data' (f, n) =
    ap read_split (split_end-serialize x xs data' f)
    ∙ ap (λ h. embedded h data') (parse-serialize (x ∷ xs) f n)
