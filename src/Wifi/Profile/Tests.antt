-- ===== src/Wifi/Profile/Tests.antt =====
-- Names and keys for common/src/wifi_profile.cpp.
use encoder_next.Prelude.{
  codes, replicate, length, hex_encode, ok, Option, none, some, ℕ, ◌≡◌, ◌↔◌, refl, true, List, [],
  ◌∷◌, Bytes, IsBytes, arith,
}
use encoder_next.Wifi.Profile.{make, valid_text_ssid, text_loop, lead_byte, allowed_point}
use encoder_next.Wifi.Backend.{WifiProfile}
use encoder_next.Wifi.Profile.Utf8.{utf8_all, AllText}
use encoder_next.Wifi.Profile.Decoding.{valid_text_ssid_iff}

-- Two ASCII letters, and three bytes of U+20AC.
abbrev name : Bytes
name = b'a' ∷ b'b' ∷ 0xe2 ∷ 0x82 ∷ 0xac ∷ []

name-IsBytes : IsBytes name
name-IsBytes = omega arith

name_valid : valid_text_ssid name ≡ true
unfolding valid_text_ssid text_loop lead_byte allowed_point
name_valid = refl

valid_text_ssid_iff_example :
    (valid_text_ssid name ≡ true) ↔ ((points : List ℕ) × AllText points × (name ≡ utf8_all points))
valid_text_ssid_iff_example = valid_text_ssid_iff name name-IsBytes

abbrev key_of : Bytes → Bytes → Option Bytes
key_of password ssid = some (replicate 32 9)

key_of-32 : (password salt key : Bytes) → key_of password salt ≡ some key → length key ≡ 32
key_of-32 password salt key h = ground arith

abbrev profile : WifiProfile
profile = record { ssid_hex = hex_encode name; psk = replicate 32 9; dhcp6 = none }

profile_made : make key_of name (codes "correct horse") ≡ ok profile
unfolding make valid_text_ssid text_loop lead_byte allowed_point
profile_made = refl
