-- ===== src/Wifi/LinkProbe/Tests.antt =====
-- Judgements of common/src/wifi_link_probe.cpp.
use encoder_next.Prelude.{
  ◌≡◌, refl, true, false, none, List, [], ◌∷◌, ◌++◌, Bytes, codes, replicate, getlines, hex_encode,
  digits_value, find,
}
use encoder_next.Protocol.{cut}
use encoder_next.Wifi.Backend.{WifiProfile, ready, pending, failed}
use encoder_next.Wifi.LinkProbe.{
  ssid_hex, ssid_loop, usable_ipv4, ip_parts, ip_part, assess_wifi_link, read_lines, read_line,
}
use encoder_next.Wifi.LinkProbe.Ready.{IsReady, assess_wifi_link-IsReady}

abbrev target : WifiProfile
target = record { ssid_hex = hex_encode (codes "Lab\""); psk = replicate 32 7; dhcp6 = none }

abbrev line : Bytes → Bytes
line text = text ++ (10 ∷ [])

abbrev status_with : Bytes → Bytes
status_with cipher =
    line (codes "bssid=00:11:22:33:44:55")
    ++ line (codes "wpa_state=COMPLETED")
    ++ line (codes "ssid=Lab\\x22")
    ++ line (codes "key_mgmt=WPA2-PSK")
    ++ line (codes "pairwise_cipher=CCMP")
    ++ line (codes "group_cipher=" ++ cipher)
    ++ line (codes "ip_address=192.168.0.10")

abbrev own : List Bytes
own = codes "127.0.0.1" ∷ codes "192.168.0.10" ∷ []

found_ready : (assess_wifi_link target (status_with (codes "CCMP")) own).0 ≡ ready
unfolding assess_wifi_link read_lines read_line cut getlines find ssid_hex ssid_loop usable_ipv4
    ip_parts ip_part digits_value
found_ready = refl

weak_group : (assess_wifi_link target (status_with (codes "TKIP")) own).0 ≡ failed
unfolding assess_wifi_link read_lines read_line cut getlines find ssid_hex ssid_loop usable_ipv4
    ip_parts ip_part digits_value
weak_group = refl

other_address : (assess_wifi_link target (status_with (codes "CCMP")) []).0 ≡ pending
unfolding assess_wifi_link read_lines read_line cut getlines find ssid_hex ssid_loop usable_ipv4
    ip_parts ip_part digits_value
other_address = refl

addresses :
    usable_ipv4 (codes "10.0.0.255")
      ∷ usable_ipv4 (codes "169.254.1.1")
      ∷ usable_ipv4 (codes "10.0.0.256")
      ∷ usable_ipv4 (codes "10.0.00.1")
      ∷ usable_ipv4 (codes "10.0.0.1.")
      ∷ []
    ≡ true ∷ false ∷ false ∷ false ∷ false ∷ []
unfolding assess_wifi_link read_lines read_line cut getlines find ssid_hex ssid_loop usable_ipv4
    ip_parts ip_part digits_value
addresses = refl

assess_wifi_link-IsReady_example : IsReady target (getlines 10 (status_with (codes "CCMP"))) own
assess_wifi_link-IsReady_example =
    assess_wifi_link-IsReady target (status_with (codes "CCMP")) own found_ready
