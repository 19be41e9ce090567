-- ===== src/Wifi/Profile.antt =====
-- common/src/wifi_profile.cpp: which network names and keys are accepted.
-- The PBKDF2 of OpenSSL is the argument `derive`: password and salt to 32 bytes, or a failure.
pub mod Utf8
pub mod Decoding
pub mod Made
mod Tests
use encoder_next.Prelude.{
  ℕ, zero, suc, ◌+◌, ◌-◌, ◌*◌, ◌/◌, ◌%◌, Bool, true, false, not, ◌&&◌, ◌||◌, Option, none, some,
  List, [], ◌∷◌, Bytes, ltb, leb, ◌==◌, if◌then◌else◌, between, length, is_empty, all, hex_encode,
  Result, ok, err,
}
use encoder_next.Wifi.Backend.{WifiProfile}

-- The tests on a decoded code point.
unfoldable pub allowed_point : ℕ → ℕ → Bool
allowed_point minimum point =
    not (ltb point minimum || ltb 0x10ffff point || between 0xd800 0xdfff point)
    && not (ltb point 0x20 || between 0x7f 0x9f point || point == 0x2028 || point == 0x2029)
    && not (between 0xfdd0 0xfdef point || leb 0xfffe (point % 0x10000))

-- What a first byte announces: how many bytes follow, its own bits, and the least code point.
unfoldable pub lead_byte : ℕ → Option (ℕ × ℕ × ℕ)
lead_byte first =
    if between 0xc2 0xdf first
    then some (1, first % 32, 0x80)
    else if between 0xe0 0xef first
    then some (2, first % 16, 0x800)
    else if between 0xf0 0xf4 first
    then some (3, first % 8, 0x10000)
    else if leb 0x80 first
    then none
    else some (0, first, 0)

-- The loop of `valid_text_ssid`, a byte at a time: `remaining` more bytes belong to `point`.
-- A text that ends inside a code point fails, as the test on the size left does.
unfoldable pub text_loop : ℕ → ℕ → ℕ → Bytes → Bool
text_loop zero point minimum [] = true
text_loop (suc n) point minimum [] = false
text_loop zero point minimum (first ∷ rest) = elim (lead_byte first) [
  | none ↦ false
  | some (n, p, low) ↦ (if n == 0 then allowed_point low p else true) && text_loop n p low rest
]
text_loop (suc n) point minimum (next ∷ rest) =
    let p = point * 64 + next % 64 in
    (next / 64 == 2)
    && (if n == 0 then allowed_point minimum p else true)
    && text_loop n p minimum rest

unfoldable pub valid_text_ssid : Bytes → Bool
valid_text_ssid text = text_loop 0 0 0 text

-- A hexadecimal digit of either case; `none` is the source's -1.
abbrev pub hex_value : ℕ → Option ℕ
hex_value c =
    if between b'0' b'9' c
    then some (c - b'0')
    else if between b'a' b'f' c
    then some (c - b'a' + 10)
    else if between b'A' b'F' c
    then some (c - b'A' + 10)
    else none

abbrev pub is_hex_digit : ℕ → Bool
is_hex_digit c = elim (hex_value c) [ none ↦ false | some v ↦ true ]

abbrev pub nibble : ℕ → ℕ
nibble c = elim (hex_value c) [ none ↦ 0 | some v ↦ v ]

-- One byte for each two digits.
unfoldable pub hex_decode : Bytes → Bytes
hex_decode [] = []
hex_decode (a ∷ []) = []
hex_decode (a ∷ b ∷ rest) = (nibble a * 16 + nibble b) ∷ hex_decode rest

unfoldable pub make : (Bytes → Bytes → Option Bytes) → Bytes → Bytes → Result WifiProfile
make derive ssid password =
    if is_empty ssid || ltb 32 (length ssid)
    then err "SSID must contain 1 to 32 bytes"
    else if not (valid_text_ssid ssid)
    then err
        "SSID must be valid UTF-8 text without controls, line separators or Unicode noncharacters"
    else if length password == 64
    then (if not (all is_hex_digit password)
        then err "A 64-character PSK must be hexadecimal"
        else ok (record { ssid_hex = hex_encode ssid; psk = hex_decode password; dhcp6 = none }))
    else if ltb (length password) 8 || ltb 63 (length password)
    then err "WPA2 password must contain 8 to 63 ASCII characters or 64 hexadecimal digits"
    else if not (all (between 32 126) password)
    then err "WPA2 password contains unsupported characters"
    else elim (derive password ssid) [
      | none ↦ err "Cannot derive Wi-Fi key"
      | some key ↦ ok (record { ssid_hex = hex_encode ssid; psk = key; dhcp6 = none })
    ]
