-- ===== src/Server/Audit/Lines.antt =====
-- Lines of the alert file of server/src/audit.cpp: what is read from a line that was written there.
use encoder_next.Prelude.{
  ℕ, suc, ◌^◌, ◌<◌, ◌≤◌, ◌≡◌, refl, ap, ◌∙◌, ◌⊎◌, inl, inr, true, some, [], ◌∷◌, ◌++◌, Bytes, all,
  decimal, decimal_digits, is_digit, not_sep, ◌==◌, Bool-cases, if◌then◌else◌, ℤ, pos, negsuc,
  arith,
}
use encoder_next.Protocol.{cut}
use encoder_next.Protocol.RoundTrip.{cut-append}
use encoder_next.Server.Context.{to_string}
use encoder_next.Server.Audit.{AlertRecord, format_alert_line, cut_fields, parse_alert_line}
use encoder_next.Server.Audit.Numbers.{IsTime, stoull-decimal, stoll-to_string}

digits_clean :
    (sep : ℕ) (cs : Bytes)
    → (sep < 48) ⊎ (58 ≤ sep)
    → all is_digit cs ≡ true
    → all (not_sep sep) cs ≡ true
digits_clean sep [] s h = refl
digits_clean sep (c ∷ cs) s h = ground (arith, digits_clean sep cs)

pub decimal_clean : (sep n : ℕ) → (sep < 45) ⊎ (58 ≤ sep) → all (not_sep sep) (decimal n) ≡ true
decimal_clean sep n s = digits_clean sep (decimal n) (ground arith) (decimal_digits n).0

pub to_string_clean :
    (sep : ℕ) (t : ℤ) → (sep < 45) ⊎ (58 ≤ sep) → all (not_sep sep) (to_string t) ≡ true
to_string_clean sep (pos n) s = decimal_clean sep n s
to_string_clean sep (negsuc n) s = ground (arith, decimal_clean sep (suc n))

cut_fields_step :
    (n : ℕ) (s : Bytes) (x : Bytes × Bytes)
    → cut b'|' s ≡ some x
    → cut_fields (suc n) s ≡ x.0 ∷ cut_fields n x.1
unfolding cut_fields
cut_fields_step n s x e = rw (cut_fields, e) refl

-- One field, in front of a bar.
cut_fields-suc :
    (n : ℕ) (field rest : Bytes)
    → all (not_sep b'|') field ≡ true
    → cut_fields (suc n) (field ++ (b'|' ∷ rest)) ≡ field ∷ cut_fields n rest
cut_fields-suc n field rest h = cut_fields_step n _ (field, rest) (cut-append b'|' field rest h)

last_field : (detail : Bytes) → cut_fields 0 detail ≡ detail ∷ []
unfolding cut_fields
last_field detail = refl

-- What the two numbers at the front of a written line come back as.
front_fields :
    (a : AlertRecord) (rest : Bytes)
    → cut_fields 4 (decimal a.id ++ (b'|' ∷ (to_string a.ts ++ (b'|' ∷ rest))))
      ≡ decimal a.id ∷ to_string a.ts ∷ cut_fields 2 rest
front_fields a rest =
    cut_fields-suc 3 (decimal a.id) _ (decimal_clean b'|' a.id (inr (omega arith)))
    ∙ ap (◌∷◌ (decimal a.id))
        (cut_fields-suc 2 (to_string a.ts) rest (to_string_clean b'|' a.ts (inr (omega arith))))

-- A line whose type and user have no bar gives back the alert that was written.
pub parse_alert_line-format_alert_line :
    (a : AlertRecord)
    → a.id < 2 ^ 64
    → IsTime a.ts
    → all (not_sep b'|') a.kind ≡ true
    → all (not_sep b'|') a.username ≡ true
    → parse_alert_line (format_alert_line a) ≡ some a
unfolding parse_alert_line format_alert_line
parse_alert_line-format_alert_line a i t k u =
    let last : cut_fields 0 a.detail ≡ a.detail ∷ [] = last_field a.detail in
    let tail =
      cut_fields-suc 1 a.kind _ k
      ∙ ap (◌∷◌ a.kind) (cut_fields-suc 0 a.username a.detail u ∙ ap (◌∷◌ a.username) last) in
    rw (front_fields a _, tail, stoull-decimal a.id i, stoll-to_string a.ts t) refl

-- A text with a bar is cut there; the bars behind the first stay.
abbrev bars : Bytes → ℕ
bars [] = 0
bars (c ∷ cs) = if c == b'|' then suc (bars cs) else bars cs

cut-bars :
    (n : ℕ) (s : Bytes)
    → suc n ≤ bars s
    → (x : Bytes × Bytes) × (cut b'|' s ≡ some x) × (n ≤ bars x.1)
unfolding cut
cut-bars n [] h = absurd (omega (arith, h))
cut-bars n (c ∷ cs) h = elim (Bool-cases (c == b'|')) [
  | inl e ↦ rw e (([], cs), refl, ground arith)
  | inr e ↦
      let (x, found, more) = cut-bars n cs (rw e at h) in rw (e, found) ((c ∷ x.0, x.1), refl, more)
]

bars-append : (xs ys : Bytes) → suc (bars ys) ≤ bars (xs ++ (b'|' ∷ ys))
bars-append [] ys = omega arith
bars-append (x ∷ xs) ys = ground (arith, bars-append xs ys)

-- Two bars make three fields.
three_fields : (s : Bytes) → 2 ≤ bars s → (x y z : Bytes) × (cut_fields 2 s ≡ x ∷ y ∷ z ∷ [])
three_fields s h =
    let (x, found, more) = cut-bars 1 s h in
    let (y, found', none_more) = cut-bars 0 x.1 more in
    (
      x.0,
      y.0,
      y.1,
      cut_fields_step 1 s x found
          ∙ ap (◌∷◌ x.0) (cut_fields_step 0 x.1 y found' ∙ ap (◌∷◌ y.0) (last_field y.1)),
    )

-- Whatever the type, the user and the detail are, the identifier comes back.
pub parse_alert_line_id :
    (a : AlertRecord)
    → a.id < 2 ^ 64
    → IsTime a.ts
    → (b : AlertRecord) × (parse_alert_line (format_alert_line a) ≡ some b) × (b.id ≡ a.id)
unfolding parse_alert_line format_alert_line
parse_alert_line_id a i t =
    let rest = a.username ++ (b'|' ∷ a.detail) in
    let two : 2 ≤ bars (a.kind ++ (b'|' ∷ rest)) =
      omega (arith, bars-append a.kind rest, bars-append a.username a.detail) in
    let (x, y, z, fields) = three_fields (a.kind ++ (b'|' ∷ rest)) two in
    (
      record { id = a.id; ts = a.ts; kind = x; username = y; detail = z },
      rw (front_fields a _, fields, stoull-decimal a.id i, stoll-to_string a.ts t) refl,
      refl,
    )
