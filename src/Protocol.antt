-- ===== src/Protocol.antt =====
-- common/src/protocol.cpp: the header in front of each request and answer.
-- A reader gives one byte at a time from a byte string, and fails at its end. The order of the
-- fields in memory is open, and this one is the order of arrival.
pub mod RoundTrip
pub mod Transfer
mod Tests
use encoder_next.Prelude.{
  ℕ, ◌+◌, Bool, true, false, not, ◌&&◌, ◌||◌, Option, none, some, List, [], ◌∷◌, ◌++◌, Bytes, ltb,
  ◌==◌, if◌then◌else◌, is_empty, Map, find, put, getlines,
}

abbrev pub Header : Type 0
Header = Map Bytes

unfoldable pub get : Bytes → Bytes → Header → Bytes
get key default fields = elim (find key fields) [ none ↦ default | some value ↦ value ]

unfoldable pub set : Bytes → Bytes → Header → Header
set key value fields = put key value fields

abbrev pub field_line : Bytes × Bytes → Bytes
field_line x = x.0 ++ (b':' ∷ b' ' ∷ x.1)

unfoldable pub serialize : Header → Bytes
serialize [] = 10 ∷ []
serialize (x ∷ xs) = field_line x ++ (10 ∷ serialize xs)

abbrev pub is_blank : ℕ → Bool
is_blank c = c == b' ' || c == 9 || c == 13 || c == 10

unfoldable pub trim_start : Bytes → Bytes
trim_start [] = []
trim_start (c ∷ cs) = let rest = trim_start cs in if is_blank c then rest else c ∷ cs

unfoldable pub trim_end : Bytes → Bytes
trim_end [] = []
trim_end (c ∷ cs) = let rest = trim_end cs in if is_blank c && is_empty rest then [] else c ∷ rest

unfoldable pub trim : Bytes → Bytes
trim s = trim_end (trim_start s)

abbrev pub cons_before : ℕ → Option (Bytes × Bytes) → Option (Bytes × Bytes)
cons_before c none = none
cons_before c (some (before, after)) = some (c ∷ before, after)

-- What stands before and after the first separator.
unfoldable pub cut : ℕ → Bytes → Option (Bytes × Bytes)
cut sep [] = none
cut sep (c ∷ cs) = let rest = cut sep cs in if c == sep then some ([], cs) else cons_before c rest

abbrev pub store_field : Option (Bytes × Bytes) → Header → Header
store_field none fields = fields
store_field (some (before, after)) fields =
    if is_empty (trim before) then fields else put (trim before) (trim after) fields

abbrev pub is_end : Bytes → Bool
is_end [] = true
is_end (c ∷ []) = c == 13
is_end _ = false

unfoldable pub parse_lines : List Bytes → Header → Header
parse_lines [] fields = fields
parse_lines (line ∷ lines) fields =
    let rest = parse_lines lines (store_field (cut b':' line) fields) in
    if is_end line then fields else rest

unfoldable pub parse : Bytes → Header
parse raw = parse_lines (getlines 10 raw) []

abbrev pub prepend : Bytes → Option (Bytes × Bytes) → Option (Bytes × Bytes)
prepend bytes none = none
prepend bytes (some (buffer, stream)) = some (bytes ++ buffer, stream)

-- The flag `last_was_newline` after a byte.
abbrev pub newline_flag : ℕ → Bool → Bool
newline_flag byte last = if byte == 10 then true else if byte == 13 then last else false

-- The loop with `total` bytes read: what it adds to the buffer, and the rest of the stream.
unfoldable pub read_loop : ℕ → ℕ → Bool → Bytes → Option (Bytes × Bytes)
read_loop max_bytes total last [] = none
read_loop max_bytes total last (byte ∷ stream) =
    let rest = read_loop max_bytes (total + 1) (newline_flag byte last) stream in
    if not (ltb total max_bytes)
    then none
    else if byte == 10 && last
    then (if ltb (total + 1) max_bytes then some (byte ∷ [], stream) else none)
    else prepend (byte ∷ []) rest

-- The header, and the stream behind it.
unfoldable pub read_header : ℕ → Bytes → Option (Header × Bytes)
read_header max_bytes stream = elim (read_loop max_bytes 0 false stream) [
  | none ↦ none
  | some (buffer, rest) ↦ some (parse buffer, rest)
]
