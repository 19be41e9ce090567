-- ===== src/Wifi/Draft/Reading.antt =====
-- A profile comes back from the Netplan document that common/src/wifi_config_draft.cpp makes of it.
use encoder_next.Prelude.{
  ℕ, ◌+◌, ◌*◌, ◌/◌, ◌%◌, ◌<◌, ◌≤◌, ◌≡◌, refl, ap, ◌∙◌, Bool, true, false, Option, none, some, [],
  ◌∷◌, ◌++◌, append_assoc, Bytes, IsBytes, codes, bytes_eq_refl, ltb, ◌==◌, length, length-append,
  is_empty, all, is_hex, hex_digit, hex_encode, length-hex_encode, hex_encode-is_hex, ok, arith,
}
use encoder_next.Wifi.Backend.{WifiProfile}
use encoder_next.Wifi.Profile.{make, hex_decode, is_hex_digit, nibble, valid_text_ssid}
use encoder_next.Wifi.Draft.{
  WifiConfigDraft, draft_of, make_wifi_config_draft, prefix_for, prefix_in, yaml_auth, escape,
  quoted, with_psk, checked_yaml, with_key, with_name, with_prefix, read_wifi_config_draft,
}
use encoder_next.Wifi.Draft.RoundTrip.{
  plain-hex_encode, unquote-escape, key_in-append, prefix_in-prefix_for,
}

-- A name that a profile may have, and a key.
abbrev pub IsNetwork : Bytes → Bytes → Type 0
IsNetwork ssid psk =
    (is_empty ssid ≡ false)
    × (length ssid ≤ 32)
    × (valid_text_ssid ssid ≡ true)
    × IsBytes ssid
    × (length psk ≡ 32)
    × IsBytes psk

abbrev pub profile : Bytes → Bytes → Option Bool → WifiProfile
profile ssid psk dhcp6 = record { ssid_hex = hex_encode ssid; psk = psk; dhcp6 = dhcp6 }

nibble-hex_digit : (n : ℕ) → n < 16 → nibble (hex_digit n) ≡ n
nibble-hex_digit n h = ground arith

hex_decode-hex_encode : (s : Bytes) → IsBytes s → hex_decode (hex_encode s) ≡ s
unfolding hex_decode
hex_decode-hex_encode [] h = refl
hex_decode-hex_encode (b ∷ bs) h =
    let whole : b / 16 * 16 + b % 16 ≡ b = omega arith in
    rw
      (
        nibble-hex_digit (b / 16) (omega (arith, h.0)),
        nibble-hex_digit (b % 16) (omega arith),
        hex_decode-hex_encode bs h.1,
        whole,
      )
      refl

hex_is_digits : (s : Bytes) → all is_hex s ≡ true → all is_hex_digit s ≡ true
hex_is_digits [] h = refl
hex_is_digits (c ∷ cs) h = ground (arith, hex_is_digits cs)

length-escape : (s : Bytes) → length (escape s) ≤ 2 * length s
unfolding escape
length-escape [] = omega arith
length-escape (c ∷ cs) = ground (arith, length-escape cs)

-- The text of a document, as `make_wifi_config_draft` puts it together.
abbrev text : Bytes → Bytes → Option Bool → Bytes
text ssid psk dhcp6 = with_psk (prefix_for dhcp6 ++ (quoted ssid ++ yaml_auth)) psk (codes "\"\n")

some_hex : (ssid : Bytes) → is_empty ssid ≡ false → is_empty (hex_encode ssid) ≡ false
some_hex [] h = absurd (cc h)
some_hex (c ∷ cs) h = refl

short_prefix : (d : Option Bool) → length (prefix_for d) ≤ 512
unfolding prefix_for
short_prefix none = omega arith
short_prefix (some true) = omega arith
short_prefix (some false) = omega arith

module _ (ssid psk : Bytes) (dhcp6 : Option Bool) (n : IsNetwork ssid psk) where
  made_draft :
      make_wifi_config_draft (profile ssid psk dhcp6)
      ≡ some (draft_of (profile ssid psk dhcp6) ssid)
  unfolding make_wifi_config_draft
  made_draft =
      let key : (length psk == 32) ≡ true = ground arith in
      let some' = some_hex ssid n.0 in
      let size = length-hex_encode ssid in
      let small : ltb 64 (length (hex_encode ssid)) ≡ false = ground (arith, size) in
      let even : (length (hex_encode ssid) % 2 == 1) ≡ false = ground (arith, size) in
      rw (key, some', small, even, plain-hex_encode ssid n.3) refl

  remade :
      (derive : Bytes → Bytes → Option Bytes)
      → make derive ssid (hex_encode psk) ≡ ok (profile ssid psk none)
  unfolding make
  remade derive =
      let large : ltb 32 (length ssid) ≡ false = ground arith in
      let size : length (hex_encode psk) ≡ 64 = omega (arith, length-hex_encode psk, n.4) in
      let digits = hex_is_digits (hex_encode psk) (hex_encode-is_hex psk n.5) in
      rw (n.0, large, n.2, size, digits, hex_decode-hex_encode psk n.5) refl

  -- The same text, cut where the reader cuts it.
  abbrev behind : Bytes
  behind = yaml_auth ++ (hex_encode psk ++ codes "\"\n")

  abbrev parts : Bytes
  parts = prefix_for dhcp6 ++ (b'"' ∷ (escape ssid ++ (b'"' ∷ behind)))

  text-parts : text ssid psk dhcp6 ≡ parts
  text-parts =
      append_assoc (prefix_for dhcp6) (quoted ssid ++ yaml_auth) (hex_encode psk ++ codes "\"\n")
      ∙ ap (λ t. prefix_for dhcp6 ++ (b'"' ∷ t))
          (append_assoc (escape ssid ++ (b'"' ∷ [])) yaml_auth (hex_encode psk ++ codes "\"\n")
            ∙ append_assoc (escape ssid) (b'"' ∷ []) behind)

  short : ltb 4096 (length parts) ≡ false
  short =
      let head = length-append (prefix_for dhcp6) (b'"' ∷ (escape ssid ++ (b'"' ∷ behind))) in
      let name = length-append (escape ssid) (b'"' ∷ behind) in
      let key = length-append (hex_encode psk) (codes "\"\n") in
      let small : length parts ≤ 4096 = omega (
        arith,
        head,
        name,
        key,
        short_prefix dhcp6,
        length-escape ssid,
        length-hex_encode psk,
        n.1,
        n.4,
      ) in
      ground arith

  checked :
      (derive : Bytes → Bytes → Option Bytes)
      → checked_yaml derive (text ssid psk dhcp6) dhcp6 (ok (profile ssid psk none))
        ≡ some (profile ssid psk dhcp6)
  checked derive = rw (made_draft, bytes_eq_refl (text ssid psk dhcp6)) refl

  pub read_text :
      (derive : Bytes → Bytes → Option Bytes)
      → read_wifi_config_draft derive (text ssid psk dhcp6) ≡ some (profile ssid psk dhcp6)
  unfolding read_wifi_config_draft
  read_text derive =
      let input = text ssid psk dhcp6 in
      let small : ltb 4096 (length input) ≡ false = rw text-parts short in
      let size : length (hex_encode psk) ≡ 64 = omega (arith, length-hex_encode psk, n.4) in
      let digits = hex_encode-is_hex psk n.5 in
      let go =
        ap (λ t. with_prefix derive input (prefix_in t)) text-parts
        ∙ ap (with_prefix derive input)
            (prefix_in-prefix_for dhcp6 (escape ssid ++ (b'"' ∷ behind)))
        ∙ ap (with_name derive input dhcp6) (unquote-escape ssid behind 32 n.1)
        ∙ ap (with_key derive input dhcp6 ssid)
            (key_in-append yaml_auth (hex_encode psk) (codes "\"\n") size digits)
        ∙ ap (checked_yaml derive input dhcp6) (remade derive)
        ∙ checked derive in
      rw small go

  -- A profile with a name of 1 to 32 bytes that is accepted as text and a key of 32 bytes is read, with
  -- its DHCPv6 policy, from the Netplan document that is made of it, and there is such a document.
  pub read_wifi_config_draft-make :
      (derive : Bytes → Bytes → Option Bytes)
      → (d : WifiConfigDraft) × (make_wifi_config_draft (profile ssid psk dhcp6) ≡ some d)
        × (read_wifi_config_draft derive d.netplan_yaml ≡ some (profile ssid psk dhcp6))
  read_wifi_config_draft-make derive =
      (draft_of (profile ssid psk dhcp6) ssid, made_draft, read_text derive)
