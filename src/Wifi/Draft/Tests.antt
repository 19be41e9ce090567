-- ===== src/Wifi/Draft/Tests.antt =====
-- Documents of common/src/wifi_config_draft.cpp.
use encoder_next.Prelude.{
  ℕ, zero, suc, ◌<◌, ◌≡◌, refl, true, Option, none, some, Bytes, codes, replicate, IsBytes, arith,
}
use encoder_next.Wifi.Profile.{valid_text_ssid, text_loop, allowed_point, lead_byte}
use encoder_next.Wifi.Draft.{WifiConfigDraft, make_wifi_config_draft, read_wifi_config_draft}
use encoder_next.Wifi.Draft.Reading.{IsNetwork, profile, read_wifi_config_draft-make}

abbrev no_derive : Bytes → Bytes → Option Bytes
no_derive password salt = none

-- A name with a quote and a backslash.
abbrev name : Bytes
name = codes "a\"b\\"

abbrev key : Bytes
key = replicate 32 0xab

replicate-IsBytes : (n c : ℕ) → c < 256 → IsBytes (replicate n c)
replicate-IsBytes zero c h = tt
replicate-IsBytes (suc n) c h = (h, replicate-IsBytes n c h)

key-IsBytes : IsBytes key
key-IsBytes = replicate-IsBytes 32 0xab (omega arith)

network : IsNetwork name key
unfolding valid_text_ssid text_loop allowed_point lead_byte
network = (
  refl,
  omega arith,
  refl,
  (omega arith, (omega arith, (omega arith, (omega arith, tt)))),
  refl,
  key-IsBytes,
)

read_wifi_config_draft-make_example :
    (d : WifiConfigDraft) × (make_wifi_config_draft (profile name key (some true)) ≡ some d)
    × (read_wifi_config_draft no_derive d.netplan_yaml ≡ some (profile name key (some true)))
read_wifi_config_draft-make_example =
    read_wifi_config_draft-make name key (some true) network no_derive
