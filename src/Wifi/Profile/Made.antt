-- ===== src/Wifi/Profile/Made.antt =====
-- What `make` of common/src/wifi_profile.cpp hands on, and what `start` of
-- common/src/wifi_change.cpp asks for.
use encoder_next.Prelude.{
  ◌/◌, ◌≤◌, ◌≡◌, refl, true, false, not, ◌||◌, Option, none, some, [], ◌∷◌, Bytes, IsBytes, length,
  is_empty, all, is_hex, ltb, ◌==◌, between, if_both, if_cases, hex_encode, length-hex_encode,
  hex_encode-is_hex, Result, ok, err, arith, String,
}
use encoder_next.Wifi.Backend.{WifiProfile}
use encoder_next.Wifi.Profile.{hex_decode, make}

length-hex_decode : (s : Bytes) → length (hex_decode s) ≡ length s / 2
unfolding hex_decode
length-hex_decode [] = omega arith
length-hex_decode (a ∷ []) = omega arith
length-hex_decode (a ∷ b ∷ rest) = omega (arith, length-hex_decode rest)

-- A key of 32 bytes, and a name of 1 to 32 bytes in hexadecimal.
abbrev pub IsUsable : WifiProfile → Type 0
IsUsable p =
    (length p.psk ≡ 32)
    × (2 ≤ length p.ssid_hex)
    × (length p.ssid_hex ≤ 64)
    × (all is_hex p.ssid_hex ≡ true)

abbrev Usable : Result WifiProfile → Type 0
Usable r = (p : WifiProfile) → r ≡ ok p → IsUsable p

not_made : (m : String) → Usable (err m)
not_made m p h = cc

made :
    (ssid key : Bytes)
    → IsBytes ssid
    → (is_empty ssid || ltb 32 (length ssid)) ≡ false
    → length key ≡ 32
    → Usable (ok (record { ssid_hex = hex_encode ssid; psk = key; dhcp6 = none }))
made [] key b n k p h = cc
made (c ∷ cs) key b n k p h =
    ground (arith, length-hex_encode (c ∷ cs), hex_encode-is_hex (c ∷ cs) b)

module _ (derive : Bytes → Bytes → Option Bytes)
    (key32 : (password salt key : Bytes) → derive password salt ≡ some key → length key ≡ 32) where
  abbrev of_key : Bytes → Option Bytes → Result WifiProfile
  of_key ssid o = elim o [
    | none ↦ err "Cannot derive Wi-Fi key"
    | some key ↦ ok (record { ssid_hex = hex_encode ssid; psk = key; dhcp6 = none })
  ]

  derived :
      (ssid : Bytes) (o : Option Bytes)
      → IsBytes ssid
      → (is_empty ssid || ltb 32 (length ssid)) ≡ false
      → ((key : Bytes) → o ≡ some key → length key ≡ 32)
      → Usable (of_key ssid o)
  derived ssid none b n k = not_made _
  derived ssid (some key) b n k = made ssid key b n (k key refl)

  -- If derived keys have 32 bytes, a profile that `make` accepts has a key of 32 bytes, typed in or
  -- derived, and its name is 2 to 64 lowercase hexadecimal digits: what a change asks for to start
  -- and what the text protocol can carry.
  pub make-IsUsable :
      (ssid password : Bytes) (p : WifiProfile)
      → IsBytes ssid
      → make derive ssid password ≡ ok p
      → (length p.psk ≡ 32)
        × (2 ≤ length p.ssid_hex)
        × (length p.ssid_hex ≤ 64)
        × (all is_hex p.ssid_hex ≡ true)
  unfolding make
  make-IsUsable ssid password p b h =
      let usable : Usable (make derive ssid password) =
        if_cases Usable (is_empty ssid || ltb 32 (length ssid)) _ _ (λ e. not_made _)
          (λ n. if_both Usable _ _ _ (not_made _) (
            if_cases Usable (length password == 64) _ _
              (λ e.
                if_both Usable _ _ _ (not_made _) (
                  made ssid (hex_decode password) b n (ground (arith, length-hex_decode password))))
              (λ e.
                if_both Usable (ltb (length password) 8 || ltb 63 (length password)) _ _
                  (not_made
                    "WPA2 password must contain 8 to 63 ASCII characters or 64 hexadecimal digits")
                  (if_both Usable (not (all (between 32 126) password)) _ _
                    (not_made "WPA2 password contains unsupported characters")
                    (derived ssid (derive password ssid) b n (key32 password ssid)))))) in
      usable p h
