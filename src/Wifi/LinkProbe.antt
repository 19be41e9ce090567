-- ===== src/Wifi/LinkProbe.antt =====
-- common/src/wifi_link_probe.cpp: whether the requested network is reached, judged from the status
-- text of the supplicant and the addresses of the interface.
mod Ready
mod Tests
use encoder_next.Prelude.{
  ℕ, zero, suc, ◌+◌, ◌-◌, ◌*◌, ◌/◌, ◌%◌, Bool, true, false, not, ◌&&◌, ◌||◌, Option, none, some,
  List, [], ◌∷◌, ◌++◌, Bytes, codes, bytes_eq, ltb, leb, ◌==◌, if◌then◌else◌, between, length,
  is_empty, all, hex_digit, String, Map, find, getlines, Result, ok, err, ◌>>=◌, digits_value,
  is_digit,
}
use encoder_next.Protocol.{cut}
use encoder_next.Wifi.Backend.{WifiProfile, WifiLink, pending, ready, failed}
use encoder_next.Wifi.Profile.{hex_value}

-- A byte as two digits.
abbrev hex_pair : ℕ → Bytes
hex_pair c = hex_digit (c / 16) ∷ hex_digit (c % 16) ∷ []

-- The byte behind a backslash, `x` apart.
abbrev pub escape_of : ℕ → Option ℕ
escape_of c =
    if c == b'\\'
    then some b'\\'
    else if c == b'"'
    then some b'"'
    else if c == b'n'
    then some 10
    else if c == b'r'
    then some 13
    else if c == b't'
    then some 9
    else if c == b'e'
    then some 27
    else none

abbrev both_digits : Option ℕ → Option ℕ → Option ℕ
both_digits (some high) (some low) = some (high * 16 + low)
both_digits _ _ = none

abbrev with_rest : Option ℕ → Bytes → Option (ℕ × Bytes)
with_rest none rest = none
with_rest (some c) rest = some (c, rest)

abbrev hex_byte : Bytes → Option (ℕ × Bytes)
hex_byte (a ∷ b ∷ rest) = with_rest (both_digits (hex_value a) (hex_value b)) rest
hex_byte _ = none

abbrev escaped : Bytes → Option (ℕ × Bytes)
escaped [] = none
escaped (d ∷ rest) = if d == b'x' then hex_byte rest else with_rest (escape_of d) rest

-- The byte that the text begins with, and the text behind it.
abbrev next_byte : ℕ → Bytes → Option (ℕ × Bytes)
next_byte c rest = if c == b'\\' then escaped rest else some (c, rest)

abbrev add_byte : ℕ → Option Bytes → Option Bytes
add_byte c none = none
add_byte c (some digits) = some (hex_pair c ++ digits)

-- The loop of `ssid_hex`, with the number of bytes that there is room for: it fails on one more.
unfoldable pub ssid_loop : ℕ → Bytes → Option Bytes
ssid_loop room [] = some []
ssid_loop zero (c ∷ cs) = none
ssid_loop (suc room) (c ∷ cs) = elim (next_byte c cs) [
  | none ↦ none
  | some x ↦ add_byte x.0 (ssid_loop room x.1)
]

abbrev nonempty : Option Bytes → Option Bytes
nonempty none = none
nonempty (some digits) = if is_empty digits then none else some digits

unfoldable pub ssid_hex : Bytes → Option Bytes
ssid_hex encoded = nonempty (ssid_loop 32 encoded)

abbrev split_digits : Bytes → Bytes × Bytes
split_digits [] = ([], [])
split_digits (c ∷ cs) =
    if is_digit c then (c ∷ (split_digits cs).0, (split_digits cs).1) else ([], c ∷ cs)

abbrev starts_with_zero : Bytes → Bool
starts_with_zero [] = false
starts_with_zero (c ∷ cs) = c == b'0'

-- A part of an address: one to three digits of a number up to 255, without a zero in front.
unfoldable pub ip_part : Bytes → Option (ℕ × Bytes)
ip_part text =
    let (digits, rest) = split_digits text in
    let value = digits_value 0 digits in
    if is_empty digits
      || ltb 3 (length digits)
      || ltb 255 value
      || (ltb 1 (length digits) && starts_with_zero digits)
    then none
    else some (value, rest)

abbrev behind_dot : Option (ℕ × Bytes) → Option (ℕ × Bytes)
behind_dot none = none
behind_dot (some (value, [])) = none
behind_dot (some (value, c ∷ cs)) = if c == b'.' then some (value, cs) else none

-- The parts, each but the last with a dot behind it.
unfoldable pub ip_parts : ℕ → Bytes → Option (List ℕ × Bytes)
ip_parts zero text = elim (ip_part text) [ none ↦ none | some x ↦ some (x.0 ∷ [], x.1) ]
ip_parts (suc n) text = elim (behind_dot (ip_part text)) [
  | none ↦ none
  | some x ↦ elim (ip_parts n x.1) [ none ↦ none | some y ↦ some (x.0 ∷ y.0, y.1) ]
]

abbrev pub usable_parts : Option (List ℕ × Bytes) → Bool
usable_parts (some (a ∷ b ∷ c ∷ d ∷ [], [])) =
    not (a == 0) && not (a == 127) && ltb a 224 && not ((a == 169) && (b == 254))
usable_parts _ = false

unfoldable pub usable_ipv4 : Bytes → Bool
usable_ipv4 ip = usable_parts (ip_parts 3 ip)

abbrev pub is_wanted : Bytes → Bool
is_wanted key =
    bytes_eq key (codes "wpa_state")
    || bytes_eq key (codes "ssid")
    || bytes_eq key (codes "key_mgmt")
    || bytes_eq key (codes "pairwise_cipher")
    || bytes_eq key (codes "group_cipher")
    || bytes_eq key (codes "ip_address")

abbrev pub is_text : ℕ → Bool
is_text c = not (ltb c 32 || c == 127)

abbrev pub is_new : Option Bytes → Bool
is_new none = true
is_new (some v) = false

abbrev pub store_field : Option (Bytes × Bytes) → Map Bytes → Result (Map Bytes)
store_field none fields = err "Invalid Wi-Fi status line"
store_field (some (key, value)) fields =
    if not (is_wanted key)
    then ok fields
    else if ltb 256 (length value) || not (is_new (find key fields))
    then err "Duplicate or oversized Wi-Fi status field"
    else ok ((key, value) ∷ fields)

unfoldable pub read_line : Bytes → Map Bytes → Result (Map Bytes)
read_line line fields =
    if not (all is_text line)
    then err "Invalid Wi-Fi status characters"
    else store_field (cut b'=' line) fields

unfoldable pub read_lines : List Bytes → Map Bytes → Result (Map Bytes)
read_lines [] fields = ok fields
read_lines (line ∷ lines) fields = read_line line fields >>= read_lines lines

abbrev pub field : Bytes → Map Bytes → Bytes
field key fields = elim (find key fields) [ none ↦ [] | some value ↦ value ]

abbrev pub is_one_of : Bytes → List Bytes → Bool
is_one_of s [] = false
is_one_of s (x ∷ xs) = bytes_eq s x || is_one_of s xs

abbrev waiting_states : List Bytes
waiting_states =
    codes "DISCONNECTED"
    ∷ codes "INACTIVE"
    ∷ codes "SCANNING"
    ∷ codes "AUTHENTICATING"
    ∷ codes "ASSOCIATING"
    ∷ codes "ASSOCIATED"
    ∷ codes "4WAY_HANDSHAKE"
    ∷ codes "GROUP_HANDSHAKE"
    ∷ []

-- The judgement with its message.
abbrev pub Verdict : Type 0
Verdict = WifiLink × String

abbrev pub assess_address : List Bytes → Bytes → Verdict
assess_address interface_ipv4 ip =
    if not (usable_ipv4 ip) || not (is_one_of ip interface_ipv4)
    then (pending, "Waiting for a usable IPv4 address on wlan0")
    else (ready, "Requested WPA2 network and local IPv4 are ready")

abbrev pub assess_network : WifiProfile → List Bytes → Map Bytes → Option Bytes → Verdict
assess_network target interface_ipv4 fields none = (failed, "Invalid connected network identity")
assess_network target interface_ipv4 fields (some actual) =
    if not (bytes_eq actual target.ssid_hex)
    then (pending, "Waiting for the requested network")
    else if not (
        bytes_eq (field (codes "key_mgmt") fields) (codes "WPA2-PSK")
        && bytes_eq (field (codes "pairwise_cipher") fields) (codes "CCMP")
        && bytes_eq (field (codes "group_cipher") fields) (codes "CCMP"))
    then (failed, "Connected network does not meet WPA2-CCMP policy")
    else assess_address interface_ipv4 (field (codes "ip_address") fields)

abbrev pub assess_fields : WifiProfile → List Bytes → Result (Map Bytes) → Verdict
assess_fields target interface_ipv4 (err message) = (failed, message)
assess_fields target interface_ipv4 (ok fields) =
    let state = field (codes "wpa_state") fields in
    if is_one_of state waiting_states
    then (pending, "Waiting for Wi-Fi authentication")
    else if not (bytes_eq state (codes "COMPLETED"))
    then (failed, "Wi-Fi interface disabled or unknown state")
    else assess_network target interface_ipv4 fields (ssid_hex (field (codes "ssid") fields))

abbrev pub ends_line : Bytes → Bool
ends_line [] = false
ends_line (c ∷ []) = c == 10
ends_line (c ∷ d ∷ rest) = ends_line (d ∷ rest)

unfoldable pub assess_wifi_link : WifiProfile → Bytes → List Bytes → Verdict
assess_wifi_link target status interface_ipv4 =
    if not (length target.psk == 32) || is_empty target.ssid_hex
    then (failed, "Invalid or consumed target profile")
    else if is_empty status || ltb 8192 (length status) || not (ends_line status)
    then (failed, "Missing, oversized or incomplete Wi-Fi status")
    else assess_fields target interface_ipv4 (read_lines (getlines 10 status) [])
