-- ===== src/Protocol/RoundTrip.antt =====
-- A header that common/src/protocol.cpp writes is read back, and nothing behind it is touched.
use encoder_next.Prelude.{
  ℕ, ◌+◌, ◌≤◌, ◌<◌, ◌≡◌, refl, sym, ap, ◌∙◌, Bool, true, false, Option, none, some, List, [], ◌∷◌,
  ◌++◌, append-nil, append_assoc, Bytes, all, is_empty, ◌==◌, ltb, length, length-append,
  Bool-cases, inl, inr, find, put, put_new, arith, getlines, getlines-field, not_sep, all-append,
}
use encoder_next.Protocol.{
  Header, field_line, serialize, is_blank, trim_start, trim_end, trim, cut, store_field, is_end,
  parse_lines, parse, prepend, newline_flag, read_loop, read_header,
}

-- A name without colon or line end, not empty, and a value without line end, both trimmed.
abbrev pub IsField : Bytes × Bytes → Type 0
IsField x =
    (is_empty x.0 ≡ false)
    × (all (not_sep b':') x.0 ≡ true)
    × (all (not_sep 10) x.0 ≡ true)
    × (all (not_sep 10) x.1 ≡ true)
    × (trim x.0 ≡ x.0)
    × (trim x.1 ≡ x.1)

abbrev pub AllFields : Header → Type 0
AllFields [] = Unit {0}
AllFields (x ∷ xs) = IsField x × AllFields xs

abbrev pub AllNew : Header → Header → Type 0
AllNew before [] = Unit {0}
AllNew before (x ∷ xs) = (find x.0 before ≡ none) × AllNew (before ++ (x ∷ [])) xs

pub cut-append :
    (sep : ℕ) (before after : Bytes)
    → all (not_sep sep) before ≡ true
    → cut sep (before ++ (sep ∷ after)) ≡ some (before, after)
unfolding cut
cut-append sep [] after h = let same : (sep == sep) ≡ true = ground arith in rw same refl
cut-append sep (c ∷ cs) after h =
    let again = cut-append sep cs after (ground arith) in
    let other : (c == sep) ≡ false = ground arith in rw (other, again) refl

trim_space : (v : Bytes) → trim (b' ' ∷ v) ≡ trim v
unfolding trim trim_start
trim_space v = refl

store_field-line :
    (x : Bytes × Bytes) (fields : Header)
    → IsField x
    → store_field (cut b':' (field_line x)) fields ≡ put x.0 x.1 fields
store_field-line (k, v) fields (some', colon, end, end', k_trim, v_trim) =
    rw (cut-append b':' k (b' ' ∷ v) colon, k_trim, some', trim_space v, v_trim) refl

pub line_goes_on : (x : Bytes × Bytes) → IsField x → is_end (field_line x) ≡ false
line_goes_on ([], v) f = absurd (cc (f.0))
line_goes_on (c ∷ [], v) f = refl
line_goes_on (c ∷ d ∷ k, v) f = refl

abbrev field_lines : Header → List Bytes
field_lines [] = [] ∷ []
field_lines (x ∷ xs) = field_line x ∷ field_lines xs

pub line_plain : (x : Bytes × Bytes) → IsField x → all (not_sep 10) (field_line x) ≡ true
line_plain (k, v) f = all-append (not_sep 10) k (b':' ∷ b' ' ∷ v) f.2 f.3

getlines-serialize : (h : Header) → AllFields h → getlines 10 (serialize h) ≡ field_lines h
unfolding serialize getlines
getlines-serialize [] f = refl
getlines-serialize (x ∷ xs) f =
    getlines-field 10 (field_line x) (serialize xs) (line_plain x f.0)
    ∙ ap (◌∷◌ (field_line x)) (getlines-serialize xs f.1)

parse_lines-field_lines :
    (before h : Header)
    → AllFields h
    → AllNew before h
    → parse_lines (field_lines h) before ≡ before ++ h
unfolding parse_lines
parse_lines-field_lines before [] f n = sym (append-nil before)
parse_lines-field_lines before (x ∷ xs) f n = rw (line_goes_on x f.0) (
    ap (parse_lines (field_lines xs)) (store_field-line x before f.0 ∙ put_new x.0 x.1 before n.0)
    ∙ parse_lines-field_lines (before ++ (x ∷ [])) xs f.1 n.1
    ∙ append_assoc before (x ∷ []) xs)

prepend_nil : (r : Option (Bytes × Bytes)) → prepend [] r ≡ r
prepend_nil none = refl
prepend_nil (some x) = refl

prepend_cons :
    (c : ℕ) (cs : Bytes) (r : Option (Bytes × Bytes))
    → prepend (c ∷ []) (prepend cs r) ≡ prepend (c ∷ cs) r
prepend_cons c cs none = refl
prepend_cons c cs (some x) = refl

length-trim_start : (s : Bytes) → length (trim_start s) ≤ length s
unfolding trim_start
length-trim_start [] = omega arith
length-trim_start (c ∷ cs) = ground (arith, length-trim_start cs)

length-trim_end : (s : Bytes) → length (trim_end s) ≤ length s
unfolding trim_end
length-trim_end [] = omega arith
length-trim_end (c ∷ cs) = ground (arith, length-trim_end cs)

pub trimmed_head : (c : ℕ) (cs : Bytes) → trim (c ∷ cs) ≡ c ∷ cs → is_blank c ≡ false
unfolding trim trim_start
trimmed_head c cs h = elim (Bool-cases (is_blank c)) [
  | inl e ↦
      let same : trim_end (trim_start cs) ≡ c ∷ cs = rw (e, trim, trim_start) at h in
      let size : length (trim_end (trim_start cs)) ≡ length (c ∷ cs) = ap length same in
      absurd (omega (arith, size, length-trim_end (trim_start cs), length-trim_start cs))
  | inr e ↦ e
]

-- The text of fields that are in order parses as those fields.
pub parse-serialize : (h : Header) → AllFields h → AllNew [] h → parse (serialize h) ≡ h
unfolding parse
parse-serialize h f n =
    ap (λ lines. parse_lines lines []) (getlines-serialize h f) ∙ parse_lines-field_lines [] h f n

module _ (max_bytes : ℕ) where
  read_plain :
      (total c : ℕ) (last : Bool) (stream : Bytes)
      → not_sep 10 c ≡ true
      → total < max_bytes
      → read_loop max_bytes total last (c ∷ stream)
        ≡ prepend (c ∷ []) (read_loop max_bytes (total + 1) (newline_flag c last) stream)
  unfolding read_loop
  read_plain total c last stream h n =
      let more : ltb total max_bytes ≡ true = ground arith in
      let other : (c == 10) ≡ false = ground arith in rw (more, other, read_loop) refl

  read_rest :
      (total : ℕ) (line more : Bytes)
      → all (not_sep 10) line ≡ true
      → total + length line ≤ max_bytes
      → read_loop max_bytes total false (line ++ more)
        ≡ prepend line (read_loop max_bytes (total + length line) false more)
  read_rest total [] more h n =
      let none_read : total + 0 ≡ total = omega arith in
      rw none_read (sym (prepend_nil (read_loop max_bytes total false more)))
  read_rest total (c ∷ cs) more h n =
      let flag : newline_flag c false ≡ false = ground arith in
      let sum : total + 1 + length cs ≡ total + length (c ∷ cs) = omega arith in
      read_plain total c false (cs ++ more) (ground arith) (omega arith)
      ∙ rw flag (
          ap (prepend (c ∷ [])) (read_rest (total + 1) cs more (ground arith) (omega arith))
          ∙ prepend_cons c cs (read_loop max_bytes (total + 1 + length cs) false more)
          ∙ rw sum refl)

  read_line :
      (total : ℕ) (last : Bool) (x : Bytes × Bytes) (more : Bytes)
      → IsField x
      → total + length (field_line x) ≤ max_bytes
      → read_loop max_bytes total last (field_line x ++ more)
        ≡ prepend (field_line x) (read_loop max_bytes (total + length (field_line x)) false more)
  read_line total last ([], v) more f n = absurd (cc f.0)
  read_line total last (c ∷ cs, v) more f n =
      let line = cs ++ (b':' ∷ b' ' ∷ v) in
      let plain = line_plain (c ∷ cs, v) f in
      let flag : newline_flag c last ≡ false = ground (arith, trimmed_head c cs f.4) in
      let sum : total + 1 + length line ≡ total + length (c ∷ line) = omega arith in
      read_plain total c last (line ++ more) (ground arith) (omega arith)
      ∙ rw flag (
          ap (prepend (c ∷ [])) (read_rest (total + 1) line more (ground arith) (omega arith))
          ∙ prepend_cons c line (read_loop max_bytes (total + 1 + length line) false more)
          ∙ rw sum refl)

  read_newline :
      (total : ℕ) (stream : Bytes)
      → total < max_bytes
      → read_loop max_bytes total false (10 ∷ stream)
        ≡ prepend (10 ∷ []) (read_loop max_bytes (total + 1) true stream)
  unfolding read_loop
  read_newline total stream n =
      let more : ltb total max_bytes ≡ true = ground arith in rw (more, read_loop) refl

  read_entry :
      (total : ℕ) (last : Bool) (x : Bytes × Bytes) (more tail rest : Bytes)
      → IsField x
      → total + length (field_line x) < max_bytes
      → read_loop max_bytes (total + length (field_line x) + 1) true more ≡ some (tail, rest)
      → read_loop max_bytes total last (field_line x ++ (10 ∷ more))
        ≡ some (field_line x ++ (10 ∷ tail), rest)
  read_entry total last x more tail rest f n e =
      let newline : read_loop max_bytes (total + length (field_line x)) false (10 ∷ more)
          ≡ some (10 ∷ tail, rest) =
        read_newline (total + length (field_line x)) more n ∙ ap (prepend (10 ∷ [])) e in
      read_line total last x (10 ∷ more) f (omega arith) ∙ ap (prepend (field_line x)) newline

  read_entries :
      (total : ℕ) (h : Header) (rest : Bytes)
      → AllFields h
      → total + length (serialize h) < max_bytes
      → read_loop max_bytes total true (serialize h ++ rest) ≡ some (serialize h, rest)
  unfolding serialize read_loop
  read_entries total [] rest f n = ground arith
  read_entries total (x ∷ xs) rest f n =
      let size = length-append (field_line x) (10 ∷ serialize xs) in
      let after =
        read_entries (total + length (field_line x) + 1) xs rest f.1 (omega (arith, size)) in
      ap (read_loop max_bytes total true) (append_assoc (field_line x) (10 ∷ serialize xs) rest)
      ∙ read_entry total true x (serialize xs ++ rest) (serialize xs) rest f.0 (omega (arith, size))
          after

  read_first :
      (x : Bytes × Bytes) (xs : Header) (rest : Bytes)
      → AllFields (x ∷ xs)
      → length (serialize (x ∷ xs)) < max_bytes
      → read_loop max_bytes 0 false (serialize (x ∷ xs) ++ rest) ≡ some (serialize (x ∷ xs), rest)
  unfolding serialize
  read_first x xs rest f n =
      let size = length-append (field_line x) (10 ∷ serialize xs) in
      let after = read_entries (0 + length (field_line x) + 1) xs rest f.1 (omega (arith, size)) in
      ap (read_loop max_bytes 0 false) (append_assoc (field_line x) (10 ∷ serialize xs) rest)
      ∙ read_entry 0 false x (serialize xs ++ rest) (serialize xs) rest f.0 (omega (arith, size))
          after

-- A header with one field or more, of distinct trimmed names and trimmed values without a line end,
-- no name being empty or holding a colon, is read back from its serialization if that is shorter than
-- the limit, and the stream stands right behind it.
pub read_header-serialize :
    (max_bytes : ℕ) (x : Bytes × Bytes) (xs : Header) (rest : Bytes)
    → AllFields (x ∷ xs)
    → AllNew [] (x ∷ xs)
    → length (serialize (x ∷ xs)) < max_bytes
    → read_header max_bytes (serialize (x ∷ xs) ++ rest) ≡ some (x ∷ xs, rest)
unfolding read_header
read_header-serialize max_bytes x xs rest f n small =
    ap (λ r. elim r [ none ↦ none | some (buffer, rest') ↦ some (parse buffer, rest') ])
      (read_first max_bytes x xs rest f small)
    ∙ ap (λ (k : Header). some (k, rest)) (parse-serialize (x ∷ xs) f n)
