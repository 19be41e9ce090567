-- ===== src/Wifi/Draft/Canonical.antt =====
-- Only what common/src/wifi_config_draft.cpp generates is read, and as what it was generated from.
use encoder_next.Prelude.{
  ◌≡◌, refl, sym, ap, ◌∙◌, inl, inr, Bool, ◌&&◌, Option, none, some, Bytes, codes, bytes_eq,
  bytes_eq_sound, ltb, length, if◌then◌else◌, Bool-cases, Result, ok, err,
}
use encoder_next.Wifi.Backend.{WifiProfile}
use encoder_next.Wifi.Profile.{make}
use encoder_next.Wifi.Draft.{
  WifiConfigDraft, make_wifi_config_draft, prefix_in, opened, key_in, yaml_auth, yaml_of, is_some,
  checked_yaml, with_key, with_name, with_prefix, read_wifi_config_draft,
}

-- The profile generates this text.
abbrev pub Generates : WifiProfile → Bytes → Type 0
Generates p input =
    (d : WifiConfigDraft) × (make_wifi_config_draft p ≡ some d) × (d.netplan_yaml ≡ input)

some_inj : (p q : WifiProfile) → some p ≡ some q → p ≡ q
some_inj p q h = cc h

generated :
    (o : Option WifiConfigDraft) (input : Bytes) (p q : WifiProfile)
    → (if is_some o && bytes_eq (yaml_of o) input then some p else none) ≡ some q
    → (d : WifiConfigDraft) × (o ≡ some d) × (d.netplan_yaml ≡ input) × (p ≡ q)
generated none input p q h = absurd (cc h)
generated (some d) input p q h = elim (Bool-cases (bytes_eq d.netplan_yaml input)) [
  | inl e ↦ (d, refl, bytes_eq_sound d.netplan_yaml input e, some_inj p q (rw e at h))
  | inr e ↦ absurd (cc (rw e at h))
]

module _ (derive : Bytes → Bytes → Option Bytes) (input : Bytes) where
  abbrev Canonical : Option WifiProfile → Type 0
  Canonical o = (q : WifiProfile) → o ≡ some q → Generates q input

  checked_yaml-Canonical :
      (dhcp6 : Option Bool) (made : Result WifiProfile)
      → Canonical (checked_yaml derive input dhcp6 made)
  checked_yaml-Canonical dhcp6 (err message) q h = absurd (cc h)
  checked_yaml-Canonical dhcp6 (ok made) q h =
      let p = record made { dhcp6 = dhcp6 } in
      let (d, made_draft, same, equal) = generated (make_wifi_config_draft p) input p q h in
      (d, ap make_wifi_config_draft (sym equal) ∙ made_draft, same)

  with_key-Canonical :
      (dhcp6 : Option Bool) (ssid : Bytes) (key : Option Bytes)
      → Canonical (with_key derive input dhcp6 ssid key)
  with_key-Canonical dhcp6 ssid none q h = absurd (cc h)
  with_key-Canonical dhcp6 ssid (some key) q h =
      checked_yaml-Canonical dhcp6 (make derive ssid key) q h

  with_name-Canonical :
      (dhcp6 : Option Bool) (o : Option (Bytes × Bytes))
      → Canonical (with_name derive input dhcp6 o)
  with_name-Canonical dhcp6 none q h = absurd (cc h)
  with_name-Canonical dhcp6 (some (ssid, rest)) q h =
      with_key-Canonical dhcp6 ssid (key_in yaml_auth (codes "\"\n") rest) q h

  with_prefix-Canonical :
      (o : Option (Option Bool × Bytes)) → Canonical (with_prefix derive input o)
  with_prefix-Canonical none q h = absurd (cc h)
  with_prefix-Canonical (some (dhcp6, rest)) q h = with_name-Canonical dhcp6 (opened rest) q h

  -- A text that is read is the Netplan document of the profile that it is read as.
  pub read_wifi_config_draft-Generates :
      (q : WifiProfile) → read_wifi_config_draft derive input ≡ some q → Generates q input
  unfolding read_wifi_config_draft
  read_wifi_config_draft-Generates q h = elim (Bool-cases (ltb 4096 (length input))) [
    | inl e ↦ absurd (cc (rw e at h))
    | inr e ↦ with_prefix-Canonical (prefix_in input) q (rw e at h)
  ]
