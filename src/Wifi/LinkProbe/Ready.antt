-- ===== src/Wifi/LinkProbe/Ready.antt =====
-- What a link that common/src/wifi_link_probe.cpp finds ready is known to be.
use encoder_next.Prelude.{
  ◌≡◌, refl, sym, ap, ◌∙◌, ◌⊎◌, inl, inr, Bool, true, false, not, ◌&&◌, ◌||◌, Option, none, some,
  List, [], ◌∷◌, ◌++◌, append-nil, append_assoc, String, Bytes, codes, bytes_eq, bytes_eq_sound,
  ltb, ◌==◌, if◌then◌else◌, Bool-cases, length, is_empty, all, Map, find, getlines, Result, ok, err,
  >>=_inv, ok_inj, arith,
}
use encoder_next.Protocol.{cut}
use encoder_next.Wifi.Backend.{WifiProfile, WifiLink, pending, ready, failed}
use encoder_next.Wifi.LinkProbe.{
  ssid_hex, ssid_loop, ip_part, ip_parts, usable_ipv4, is_wanted, is_text, is_new, store_field,
  read_line, read_lines, field, Verdict, is_one_of, assess_address, assess_network, assess_fields,
  ends_line, assess_wifi_link,
}

-- The values that a line, or a list of lines, gives for a name.
abbrev pub value_in : Bytes → Option (Bytes × Bytes) → List Bytes
value_in key none = []
value_in key (some x) = if bytes_eq x.0 key then x.1 ∷ [] else []

abbrev pub values_of : Bytes → List Bytes → List Bytes
values_of key [] = []
values_of key (line ∷ lines) = value_in key (cut b'=' line) ++ values_of key lines

abbrev pub held : Option Bytes → List Bytes
held none = []
held (some v) = v ∷ []

none_if_new : (o : Option Bytes) → is_new o ≡ true → o ≡ none
none_if_new none h = refl
none_if_new (some v) h = absurd (cc h)

-- What the tests of a field let through.
tests_inv :
    (wanted large new : Bool) (same more fields' : Map Bytes) (message : String)
    → (if not wanted then ok same else if large || not new then err message else ok more)
      ≡ ok fields'
    → ((wanted ≡ false) × (same ≡ fields')) ⊎ ((new ≡ true) × (more ≡ fields'))
tests_inv false large new same more fields' message h = inl (refl, ok_inj same fields' h)
tests_inv true true new same more fields' message h = absurd (cc h)
tests_inv true false true same more fields' message h = inr (refl, ok_inj more fields' h)
tests_inv true false false same more fields' message h = absurd (cc h)

held_more :
    (key k v : Bytes) (fields : Map Bytes)
    → is_new (find k fields) ≡ true
    → held (find key fields) ++ value_in key (some (k, v)) ≡ held (find key ((k, v) ∷ fields))
unfolding find
held_more key k v fields new = elim (Bool-cases (bytes_eq k key)) [
  | inl e ↦
      let absent : find key fields ≡ none =
        rw (← bytes_eq_sound k key e) (none_if_new (find k fields) new) in
      rw (e, absent) refl
  | inr e ↦ rw e (append-nil (held (find key fields)))
]

held_same :
    (key k v : Bytes) (fields : Map Bytes)
    → is_wanted key ≡ true
    → is_wanted k ≡ false
    → held (find key fields) ++ value_in key (some (k, v)) ≡ held (find key fields)
held_same key k v fields w n = elim (Bool-cases (bytes_eq k key)) [
  | inl e ↦
      let clash : true ≡ false = sym w ∙ sym (ap is_wanted (bytes_eq_sound k key e)) ∙ n in
      absurd (cc clash)
  | inr e ↦ rw e (append-nil (held (find key fields)))
]

store_field-held :
    (key : Bytes) (o : Option (Bytes × Bytes)) (fields fields' : Map Bytes)
    → is_wanted key ≡ true
    → store_field o fields ≡ ok fields'
    → held (find key fields) ++ value_in key o ≡ held (find key fields')
store_field-held key none fields fields' w h = absurd (cc h)
store_field-held key (some (k, v)) fields fields' w h =
    elim (tests_inv (is_wanted k) (ltb 256 (length v)) (is_new (find k fields)) _ _ fields' _ h) [
      | inl (n, e) ↦ held_same key k v fields w n ∙ ap (λ m. held (find key m)) e
      | inr (n, e) ↦ held_more key k v fields n ∙ ap (λ m. held (find key m)) e
    ]

read_line_inv :
    (line : Bytes) (fields fields' : Map Bytes)
    → read_line line fields ≡ ok fields'
    → store_field (cut b'=' line) fields ≡ ok fields'
unfolding read_line
read_line_inv line fields fields' h = elim (Bool-cases (all is_text line)) [
  | inl e ↦ rw e at h
  | inr e ↦ absurd (cc (rw e at h))
]

-- A name that is looked for has the one value that a line gives it, if one does.
read_lines-held :
    (key : Bytes) (lines : List Bytes) (fields fields' : Map Bytes)
    → is_wanted key ≡ true
    → read_lines lines fields ≡ ok fields'
    → held (find key fields) ++ values_of key lines ≡ held (find key fields')
unfolding read_lines
read_lines-held key [] fields fields' w h =
    append-nil (held (find key fields)) ∙ ap (λ m. held (find key m)) (ok_inj fields fields' h)
read_lines-held key (line ∷ lines) fields fields' w h =
    let (next, first, rest) = >>=_inv (read_line line fields) (read_lines lines) h in
    let stored =
      store_field-held key (cut b'=' line) fields next w (read_line_inv line fields next first) in
    sym (append_assoc (held (find key fields)) (value_in key (cut b'=' line)) (values_of key lines))
    ∙ ap (λ vs. vs ++ values_of key lines) stored
    ∙ read_lines-held key lines next fields' w rest

-- A value that is not empty is the only one.
only :
    (o : Option Bytes) (v : Bytes)
    → elim o [ none ↦ [] | some u ↦ u ] ≡ v
    → is_empty v ≡ false
    → held o ≡ v ∷ []
only none v e n = absurd (cc (rw (← e) at n))
only (some u) v e n = ap (λ x. x ∷ []) e

found_value :
    (key : Bytes) (lines : List Bytes) (fields : Map Bytes) (v : Bytes)
    → is_wanted key ≡ true
    → read_lines lines [] ≡ ok fields
    → field key fields ≡ v
    → is_empty v ≡ false
    → values_of key lines ≡ v ∷ []
unfolding find
found_value key lines fields v w h e some' =
    read_lines-held key lines [] fields w h ∙ only (find key fields) v e some'

-- What a link that is ready has: a target with its key, and a status whose lines give each of these
-- once: the supplicant is done, the network is the requested one, protected as required, and the
-- address is usable and one of the interface's.
abbrev pub IsReady : WifiProfile → List Bytes → List Bytes → Type 0
IsReady target lines interface_ipv4 =
    (ssid ip : Bytes) × (length target.psk ≡ 32)
    × (values_of (codes "wpa_state") lines ≡ codes "COMPLETED" ∷ [])
    × (values_of (codes "ssid") lines ≡ ssid ∷ [])
    × (ssid_hex ssid ≡ some target.ssid_hex)
    × (values_of (codes "key_mgmt") lines ≡ codes "WPA2-PSK" ∷ [])
    × (values_of (codes "pairwise_cipher") lines ≡ codes "CCMP" ∷ [])
    × (values_of (codes "group_cipher") lines ≡ codes "CCMP" ∷ [])
    × (values_of (codes "ip_address") lines ≡ ip ∷ [])
    × (usable_ipv4 ip ≡ true)
    × (is_one_of ip interface_ipv4 ≡ true)

-- A branch that is not ready was not taken.
not_taken :
    (t : Bool) (link : WifiLink) (message : String) (next : Verdict)
    → ¬ (link ≡ ready)
    → (if t then (link, message) else next).0 ≡ ready
    → (t ≡ false) × (next.0 ≡ ready)
not_taken true link message next n h = absurd (n h)
not_taken false link message next n h = (refl, h)

failed_is_not : ¬ (failed ≡ ready)
failed_is_not h = cc h

pending_is_not : ¬ (pending ≡ ready)
pending_is_not h = cc h

not-not : (b : Bool) → not b ≡ false → b ≡ true
not-not b h = ground arith

neither : (a b : Bool) → (not a || not b) ≡ false → (a ≡ true) × (b ≡ true)
neither a b h = ground arith

all_three : (a b c : Bool) → (a && b && c) ≡ true → (a ≡ true) × (b ≡ true) × (c ≡ true)
all_three a b c h = ground arith

named : (ssid : Bytes) {name : Bytes} → ssid_hex ssid ≡ some name → is_empty ssid ≡ false
unfolding ssid_hex ssid_loop
named [] h = absurd (cc h)
named (c ∷ cs) h = refl

addressed : (ip : Bytes) → usable_ipv4 ip ≡ true → is_empty ip ≡ false
unfolding usable_ipv4 ip_parts ip_part
addressed [] h = absurd (cc h)
addressed (c ∷ cs) h = refl

-- The values behind the tests of a status that reads.
module _ (target : WifiProfile) (lines interface_ipv4 : List Bytes) (key32 : length target.psk ≡ 32)
    (fields : Map Bytes) (read : read_lines lines [] ≡ ok fields) where
  one :
      (key v : Bytes)
      → is_wanted key ≡ true
      → is_empty v ≡ false
      → bytes_eq (field key fields) v ≡ true
      → values_of key lines ≡ v ∷ []
  one key v w n e = found_value key lines fields v w read (bytes_eq_sound (field key fields) v e) n

  ready_address :
      (actual : Bytes)
      → bytes_eq (field (codes "wpa_state") fields) (codes "COMPLETED") ≡ true
      → ssid_hex (field (codes "ssid") fields) ≡ some actual
      → bytes_eq actual target.ssid_hex ≡ true
      → (bytes_eq (field (codes "key_mgmt") fields) (codes "WPA2-PSK")
          && bytes_eq (field (codes "pairwise_cipher") fields) (codes "CCMP")
          && bytes_eq (field (codes "group_cipher") fields) (codes "CCMP"))
        ≡ true
      → (assess_address interface_ipv4 (field (codes "ip_address") fields)).0 ≡ ready
      → IsReady target lines interface_ipv4
  ready_address actual done name same policy h =
      let ip = field (codes "ip_address") fields in
      let ssid = field (codes "ssid") fields in
      let (tests, _) =
        not_taken (not (usable_ipv4 ip) || not (is_one_of ip interface_ipv4)) pending _ _
          pending_is_not h in
      let (usable, own) = neither (usable_ipv4 ip) (is_one_of ip interface_ipv4) tests in
      let (wpa2, pair, group) = all_three _ _ _ policy in
      (
        ssid,
        ip,
        key32,
        one (codes "wpa_state") (codes "COMPLETED") refl refl done,
        found_value (codes "ssid") lines fields ssid refl read refl (named ssid name),
        name ∙ ap some (bytes_eq_sound actual target.ssid_hex same),
        one (codes "key_mgmt") (codes "WPA2-PSK") refl refl wpa2,
        one (codes "pairwise_cipher") (codes "CCMP") refl refl pair,
        one (codes "group_cipher") (codes "CCMP") refl refl group,
        found_value (codes "ip_address") lines fields ip refl read refl (addressed ip usable),
        usable,
        own,
      )

  ready_network :
      bytes_eq (field (codes "wpa_state") fields) (codes "COMPLETED") ≡ true
      → (o : Option Bytes) → ssid_hex (field (codes "ssid") fields) ≡ o
      → (assess_network target interface_ipv4 fields o).0 ≡ ready
      → IsReady target lines interface_ipv4
  ready_network done none name h = absurd (failed_is_not h)
  ready_network done (some actual) name h =
      let (same, rest) =
        not_taken (not (bytes_eq actual target.ssid_hex)) pending _ _ pending_is_not h in
      let (policy, rest') = not_taken _ failed _ _ failed_is_not rest in
      ready_address actual done name (not-not _ same) (not-not _ policy) rest'

  ready_fields :
      (assess_fields target interface_ipv4 (ok fields)).0 ≡ ready
      → IsReady target lines interface_ipv4
  ready_fields h =
      let (waiting, rest) = not_taken _ pending _ _ pending_is_not h in
      let (done, rest') = not_taken _ failed _ _ failed_is_not rest in
      ready_network (not-not _ done) (ssid_hex (field (codes "ssid") fields)) refl rest'

ready_read :
    (target : WifiProfile) (lines interface_ipv4 : List Bytes) (r : Result (Map Bytes))
    → length target.psk ≡ 32
    → read_lines lines [] ≡ r
    → (assess_fields target interface_ipv4 r).0 ≡ ready
    → IsReady target lines interface_ipv4
ready_read target lines interface_ipv4 (err message) k read h = absurd (failed_is_not h)
ready_read target lines interface_ipv4 (ok fields) k read h =
    ready_fields target lines interface_ipv4 k fields read h

has_key : (key : Bytes) (b : Bool) → (not (length key == 32) || b) ≡ false → length key ≡ 32
has_key key b h = ground arith

-- A link that is found ready has a target with a key of 32 bytes, and of the lines of the status
-- exactly one gives each of the six names: the state is COMPLETED, the network's name decodes to the
-- target's, the key management is WPA2-PSK with CCMP for pairs and for the group, and the address is
-- a usable one and among those of the interface.
pub assess_wifi_link-IsReady :
    (target : WifiProfile) (status : Bytes) (interface_ipv4 : List Bytes)
    → (assess_wifi_link target status interface_ipv4).0 ≡ ready
    → IsReady target (getlines 10 status) interface_ipv4
unfolding assess_wifi_link
assess_wifi_link-IsReady target status interface_ipv4 h =
    let lines = getlines 10 status in
    let judged = assess_fields target interface_ipv4 (read_lines lines []) in
    let cut_off = is_empty status || ltb 8192 (length status) || not (ends_line status) in
    let no_target = not (length target.psk == 32) || is_empty target.ssid_hex in
    let incomplete : Verdict = (failed, "Missing, oversized or incomplete Wi-Fi status") in
    let (usable, rest) =
      not_taken no_target failed "Invalid or consumed target profile"
        (if cut_off then incomplete else judged) failed_is_not h in
    let (whole, rest') = not_taken cut_off failed incomplete.1 judged failed_is_not rest in
    ready_read target lines interface_ipv4 (read_lines lines [])
      (has_key target.psk (is_empty target.ssid_hex) usable) refl rest'
