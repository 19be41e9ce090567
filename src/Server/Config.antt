-- ===== src/Server/Config.antt =====
-- common/src/config.cpp: the lines of a configuration file and the readers of its values.
mod LastWins
use encoder_next.Prelude.{
  ℕ, ◌+◌, ◌^◌, Bool, true, false, ◌||◌, Option, none, some, List, [], ◌∷◌, Bytes, codes, bytes_eq,
  ltb, leb, ◌==◌, if◌then◌else◌, between, Map, find, put, getlines, map, ℤ, pos, negsuc,
}
use encoder_next.Protocol.{cut, trim}
use encoder_next.Server.Policy.{stoll}

abbrev pub Config : Type 0
Config = Map Bytes

-- The setting in a line with its `=`.
abbrev pub split_setting : Option (Bytes × Bytes) → Option (Bytes × Bytes)
split_setting none = none
split_setting (some (key, value)) = some (trim key, trim value)

-- The setting that a trimmed line makes, if it makes one.
unfoldable pub setting_of : Bytes → Option (Bytes × Bytes)
setting_of [] = none
setting_of (c ∷ cs) = if c == b'#' then none else split_setting (cut b'=' (c ∷ cs))

abbrev pub store : Option (Bytes × Bytes) → Config → Config
store none values = values
store (some (key, value)) values = put key value values

unfoldable pub load_lines : List Bytes → Config → Config
load_lines [] values = values
load_lines (line ∷ lines) values = load_lines lines (store (setting_of (trim line)) values)

-- `load` of a file; `none` cannot be opened, and leaves no values.
unfoldable pub load : Option Bytes → Bool × Config
load none = (false, [])
load (some text) = (true, load_lines (getlines 10 text) [])

unfoldable pub get : Bytes → Bytes → Config → Bytes
get key default values = elim (find key values) [ none ↦ default | some value ↦ value ]

abbrev as_int : Option ℤ → Option ℤ
as_int none = none
as_int (some (pos n)) = if ltb n (2 ^ 31) then some (pos n) else none
as_int (some (negsuc n)) = if ltb n (2 ^ 31) then some (negsuc n) else none

-- `std::stoi`: a `long` of 64 bits that fits an `int`; `none` is its exception.
unfoldable pub stoi : Bytes → Option ℤ
stoi text = as_int (stoll text)

abbrev or_default {ℓ} : {A : Type ℓ} → A → Option A → A
or_default default none = default
or_default default (some a) = a

unfoldable pub get_int : Bytes → ℤ → Config → ℤ
get_int key default values = elim (find key values) [
  | none ↦ default
  | some value ↦ or_default default (stoi value)
]

abbrev to_lower : ℕ → ℕ
to_lower c = if between b'A' b'Z' c then c + 32 else c

abbrev read_bool : Bytes → Bool → Bool
read_bool v default =
    if bytes_eq v (codes "1") || bytes_eq v (codes "true") || bytes_eq v (codes "yes")
    then true
    else if bytes_eq v (codes "0") || bytes_eq v (codes "false") || bytes_eq v (codes "no")
    then false
    else default

unfoldable pub get_bool : Bytes → Bool → Config → Bool
get_bool key default values = elim (find key values) [
  | none ↦ default
  | some value ↦ read_bool (map to_lower value) default
]
