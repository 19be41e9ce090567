-- ===== src/Server/Policy.antt =====
-- The file of the binding policy in server/src/main.cpp: the text that `save_binding_policy` writes
-- and what `load_binding_policy` reads from it.
use encoder_next.Prelude.{
  ℕ, zero, suc, ◌^◌, Bool, true, false, Option, none, some, List, [], ◌∷◌, ◌++◌, Bytes, codes,
  bytes_eq, has_prefix, is_empty, drop, ltb, leb, ◌==◌, if◌then◌else◌, Map, put, ℤ, pos, negsuc,
  digits_value, getlines,
}
use encoder_next.Crypto.Names.{skip_spaces}
use encoder_next.Server.Context.{ClientBindingRecord, leading_digits, to_string}
use encoder_next.Server.Binding.{sanitize_label}

-- The switch and the clients.
abbrev pub Policy : Type 0
Policy = Bool × Map ClientBindingRecord

abbrev digit : Bool → Bytes
digit true = codes "1"
digit false = codes "0"

abbrev pub client_line : Bytes × ClientBindingRecord → Bytes
client_line (id, r) =
    codes "client|"
    ++ id
    ++ codes "|"
    ++ digit r.allowed
    ++ codes "|"
    ++ to_string r.first_seen_ts
    ++ codes "|"
    ++ to_string r.last_seen_ts
    ++ codes "|"
    ++ sanitize_label r.label

unfoldable pub client_lines : Map ClientBindingRecord → Bytes
client_lines [] = []
client_lines (x ∷ xs) = client_line x ++ (10 ∷ client_lines xs)

unfoldable pub policy_text : Policy → Bytes
policy_text (enabled, clients) = codes "enabled=" ++ digit enabled ++ (10 ∷ client_lines clients)

-- `std::stoll`; `none` is its exception.
abbrev positive : Bytes → Option ℤ
positive digits =
    if is_empty digits
    then none
    else if ltb (digits_value 0 digits) (2 ^ 63)
    then some (pos (digits_value 0 digits))
    else none

abbrev opposite : ℕ → ℤ
opposite zero = pos 0
opposite (suc n) = negsuc n

abbrev negative : Bytes → Option ℤ
negative digits =
    if is_empty digits
    then none
    else if leb (digits_value 0 digits) (2 ^ 63)
    then some (opposite (digits_value 0 digits))
    else none

abbrev signed : Bytes → Option ℤ
signed [] = none
signed (c ∷ cs) =
    if c == b'-'
    then negative (leading_digits cs)
    else if c == b'+'
    then positive (leading_digits cs)
    else positive (leading_digits (c ∷ cs))

unfoldable pub stoll : Bytes → Option ℤ
stoll text = signed (skip_spaces text)

-- Both times are 0 if either does not read.
abbrev pub both_times : Option ℤ → Option ℤ → ℤ × ℤ
both_times (some first) (some last) = (first, last)
both_times _ _ = (pos 0, pos 0)

abbrev pub read_client : List Bytes → Map ClientBindingRecord → Map ClientBindingRecord
read_client (tag ∷ id ∷ allowed ∷ first ∷ last ∷ label ∷ _) clients =
    let times = both_times (stoll first) (stoll last) in
    put id
      (record {
        allowed = bytes_eq allowed (codes "1");
        first_seen_ts = times.0;
        last_seen_ts = times.1;
        label = label;
      })
      clients
read_client _ clients = clients

abbrev is_comment : Bytes → Bool
is_comment [] = true
is_comment (c ∷ cs) = c == b'#'

unfoldable pub read_line : Bytes → Policy → Policy
read_line line (enabled, clients) =
    if is_comment line
    then (enabled, clients)
    else if has_prefix (codes "enabled=") line
    then (bytes_eq (drop 8 line) (codes "1"), clients)
    else if has_prefix (codes "client|") line
    then (enabled, read_client (getlines b'|' line) clients)
    else (enabled, clients)

unfoldable pub read_lines : List Bytes → Policy → Policy
read_lines [] policy = policy
read_lines (line ∷ lines) policy = read_lines lines (read_line line policy)

-- `load_binding_policy` of a file that can be opened; `none` cannot, and leaves clients unbound.
unfoldable pub load_policy : Option Bytes → Policy
load_policy none = (false, [])
load_policy (some text) = read_lines (getlines 10 text) (false, [])
