-- ===== src/Wifi/Draft.antt =====
-- common/src/wifi_config_draft.cpp: the two documents of a profile, and their strict readers.
pub mod Canonical
pub mod RoundTrip
pub mod Reading
mod Tests
use encoder_next.Prelude.{
  ℕ, zero, suc, ◌+◌, ◌-◌, ◌*◌, ◌%◌, Bool, true, false, not, ◌&&◌, ◌||◌, Option, none, some, List,
  [], ◌∷◌, ◌++◌, Bytes, codes, bytes_eq, has_prefix, ltb, ◌==◌, if◌then◌else◌, between, length,
  is_empty, all, take, drop, hex_encode, is_hex, Result, ok, err,
}
use encoder_next.Protocol.{cut}
use encoder_next.Wifi.Backend.{WifiProfile}
use encoder_next.Wifi.Profile.{make}

-- What stands before and behind the line of the DHCPv6 policy.
abbrev pub yaml_head : Bytes
yaml_head =
    codes
      "# encoder managed wifi v1\n# Draft only: requires verified WPA2 enforcement before installation.\nnetwork:\n  version: 2\n  wifis:\n    wlan0:\n      renderer: networkd\n      dhcp4: true\n"

abbrev pub yaml_points : Bytes
yaml_points = codes "      access-points:\n        "

abbrev pub yaml_auth : Bytes
yaml_auth = codes ":\n          auth:\n            key-management: psk\n            password: \""

abbrev pub dhcp6_line : Option Bool → Bytes
dhcp6_line none = []
dhcp6_line (some true) = codes "      dhcp6: true\n"
dhcp6_line (some false) = codes "      dhcp6: false\n"

unfoldable pub prefix_for : Option Bool → Bytes
prefix_for dhcp6 = yaml_head ++ (dhcp6_line dhcp6 ++ yaml_points)

abbrev pub wpa_prefix : Bytes
wpa_prefix =
    codes
      "# encoder managed WPA2 draft v1\nctrl_interface=/run/wpa_supplicant\nupdate_config=0\nnetwork={\n  ssid="

abbrev pub wpa_auth : Bytes
wpa_auth = codes "\n  proto=RSN\n  key_mgmt=WPA-PSK\n  pairwise=CCMP\n  group=CCMP\n  psk="

abbrev pub with_psk : Bytes → Bytes → Bytes → Bytes
with_psk prefix psk suffix = prefix ++ (hex_encode psk ++ suffix)

pub record WifiConfigDraft : Type 0 where
  pub netplan_yaml : Bytes
  pub supplicant_config : Bytes

-- A lowercase digit; `none` is the source's -1.
abbrev pub unhex : ℕ → Option ℕ
unhex c =
    if between b'0' b'9' c
    then some (c - b'0')
    else if between b'a' b'f' c
    then some (c - b'a' + 10)
    else none

abbrev add_byte : Option ℕ → Option ℕ → Option Bytes → Option Bytes
add_byte (some high) (some low) (some rest) = some ((high * 16 + low) ∷ rest)
add_byte _ _ _ = none

-- The bytes that pairs of digits stand for.
unfoldable pub plain : Bytes → Option Bytes
plain [] = some []
plain (a ∷ []) = none
plain (a ∷ b ∷ rest) = add_byte (unhex a) (unhex b) (plain rest)

unfoldable pub escape : Bytes → Bytes
escape [] = []
escape (c ∷ cs) =
    let rest = escape cs in if (c == b'\\') || (c == b'"') then b'\\' ∷ c ∷ rest else c ∷ rest

abbrev pub quoted : Bytes → Bytes
quoted ssid = b'"' ∷ (escape ssid ++ (b'"' ∷ []))

abbrev pub draft_of : WifiProfile → Bytes → WifiConfigDraft
draft_of p ssid = record {
  netplan_yaml = with_psk (prefix_for p.dhcp6 ++ (quoted ssid ++ yaml_auth)) p.psk (codes "\"\n");
  supplicant_config = with_psk (wpa_prefix ++ (p.ssid_hex ++ wpa_auth)) p.psk (codes "\n}\n");
}

abbrev pub drafts : WifiProfile → Option Bytes → Option WifiConfigDraft
drafts p none = none
drafts p (some ssid) = some (draft_of p ssid)

unfoldable pub make_wifi_config_draft : WifiProfile → Option WifiConfigDraft
make_wifi_config_draft p =
    let hex = p.ssid_hex in
    if not (length p.psk == 32) || is_empty hex || ltb 64 (length hex) || (length hex % 2 == 1)
    then none
    else drafts p (plain hex)

abbrev cons_first : ℕ → Option (Bytes × Bytes) → Option (Bytes × Bytes)
cons_first c none = none
cons_first c (some (ssid, rest)) = some (c ∷ ssid, rest)

-- The name up to the closing quote, and what is behind it; the first argument is the room for it.
unfoldable pub unquote : ℕ → Bytes → Option (Bytes × Bytes)
unquote room [] = none
unquote zero (c ∷ cs) = if c == b'"' then some ([], cs) else none
unquote (suc room) (c ∷ []) = if c == b'"' then some ([], []) else none
unquote (suc room) (c ∷ d ∷ cs) =
    let next = cons_first c (unquote room (d ∷ cs)) in
    let escaped = cons_first d (unquote room cs) in
    if c == b'"'
    then some ([], d ∷ cs)
    else if not (c == b'\\')
    then next
    else if (d == b'\\') || (d == b'"')
    then escaped
    else none

-- The key in what is left: the fixed text, 64 characters and the suffix, no more and no less.
abbrev pub key_in : Bytes → Bytes → Bytes → Option Bytes
key_in auth suffix rest =
    let behind = drop (length auth) rest in
    if not (length rest == length auth + 64 + length suffix)
      || not (has_prefix auth rest)
      || not (bytes_eq (drop 64 behind) suffix)
      || not (all is_hex (take 64 behind))
    then none
    else some (take 64 behind)

abbrev pub prefix_in : Bytes → Option (Option Bool × Bytes)
prefix_in input =
    if has_prefix (prefix_for none) input
    then some (none, drop (length (prefix_for none)) input)
    else if has_prefix (prefix_for (some true)) input
    then some (some true, drop (length (prefix_for (some true))) input)
    else if has_prefix (prefix_for (some false)) input
    then some (some false, drop (length (prefix_for (some false))) input)
    else none

abbrev pub opened : Bytes → Option (Bytes × Bytes)
opened [] = none
opened (c ∷ cs) = if c == b'"' then unquote 32 cs else none

abbrev pub yaml_of : Option WifiConfigDraft → Bytes
yaml_of none = []
yaml_of (some d) = d.netplan_yaml

abbrev pub config_of : Option WifiConfigDraft → Bytes
config_of none = []
config_of (some d) = d.supplicant_config

abbrev pub is_some : Option WifiConfigDraft → Bool
is_some none = false
is_some (some d) = true

module _ (derive : Bytes → Bytes → Option Bytes) where
  abbrev pub checked_yaml : Bytes → Option Bool → Result WifiProfile → Option WifiProfile
  checked_yaml input dhcp6 (err message) = none
  checked_yaml input dhcp6 (ok made) =
      let p = record made { dhcp6 = dhcp6 } in
      let canonical = make_wifi_config_draft p in
      if is_some canonical && bytes_eq (yaml_of canonical) input then some p else none

  abbrev pub with_key : Bytes → Option Bool → Bytes → Option Bytes → Option WifiProfile
  with_key input dhcp6 ssid none = none
  with_key input dhcp6 ssid (some key) = checked_yaml input dhcp6 (make derive ssid key)

  abbrev pub with_name : Bytes → Option Bool → Option (Bytes × Bytes) → Option WifiProfile
  with_name input dhcp6 none = none
  with_name input dhcp6 (some (ssid, rest)) =
      with_key input dhcp6 ssid (key_in yaml_auth (codes "\"\n") rest)

  abbrev pub with_prefix : Bytes → Option (Option Bool × Bytes) → Option WifiProfile
  with_prefix input none = none
  with_prefix input (some (dhcp6, rest)) = with_name input dhcp6 (opened rest)

  unfoldable pub read_wifi_config_draft : Bytes → Option WifiProfile
  read_wifi_config_draft input =
      if ltb 4096 (length input) then none else with_prefix input (prefix_in input)

  abbrev pub checked_config : Bytes → Result WifiProfile → Option WifiProfile
  checked_config input (err message) = none
  checked_config input (ok p) =
      let canonical = make_wifi_config_draft p in
      if is_some canonical && bytes_eq (config_of canonical) input then some p else none

  abbrev pub with_hex_name : Bytes → Option Bytes → Option Bytes → Option WifiProfile
  with_hex_name input (some ssid) (some key) = checked_config input (make derive ssid key)
  with_hex_name input _ _ = none

  abbrev pub with_line : Bytes → Option (Bytes × Bytes) → Option WifiProfile
  with_line input none = none
  with_line input (some (hex, rest)) =
      if is_empty hex || ltb 64 (length hex)
      then none
      else with_hex_name input (plain hex) (key_in wpa_auth (codes "\n}\n") (10 ∷ rest))

  unfoldable pub read_wifi_supplicant_draft : Bytes → Option WifiProfile
  read_wifi_supplicant_draft input =
      if ltb 4096 (length input) || not (has_prefix wpa_prefix input)
      then none
      else with_line input (cut 10 (drop (length wpa_prefix) input))
