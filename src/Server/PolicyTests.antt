-- ===== src/Server/PolicyTests.antt =====
-- Files of the binding policy of server/src/main.cpp.
use encoder_next.Prelude.{
  ◌≡◌, refl, Bool, true, false, some, [], ◌∷◌, Bytes, codes, pos, put, getlines, decimal,
  decimal_loop, digits_value,
}
use encoder_next.Crypto.Names.{skip_spaces}
use encoder_next.Server.Context.{ClientBindingRecord, leading_digits}
use encoder_next.Server.Binding.{sanitize_label}
use encoder_next.Server.Policy.{
  Policy, policy_text, client_lines, load_policy, read_lines, read_line, stoll,
}

abbrev client : Bool → Bytes → ClientBindingRecord
client allowed label = record {
  allowed = allowed;
  first_seen_ts = pos 5;
  last_seen_ts = pos 17;
  label = label;
}

abbrev ordinary : Policy
ordinary =
    (true, (codes "a", client true (codes "home")) ∷ (codes "b", client false (codes "x")) ∷ [])

reads_back : load_policy (some (policy_text ordinary)) ≡ ordinary
unfolding load_policy policy_text client_lines read_lines read_line stoll skip_spaces leading_digits
    digits_value put getlines decimal decimal_loop sanitize_label
reads_back = refl

-- A client that is not allowed and whose name has bars comes back as another that is.
bars_allow :
    load_policy (some (policy_text (true, (codes "x|1|0|0|y", client false (codes "z")) ∷ []))) ≡ (
      true,
      (
        codes "x",
        record { allowed = true; first_seen_ts = pos 0; last_seen_ts = pos 0; label = codes "y" },
      )
          ∷ [],
    )
unfolding load_policy policy_text client_lines read_lines read_line stoll skip_spaces leading_digits
    digits_value put getlines decimal decimal_loop sanitize_label
bars_allow = refl

-- A client without a label is lost.
label_needed :
    load_policy (some (policy_text (true, (codes "a", client false []) ∷ []))) ≡ (true, [])
unfolding load_policy policy_text client_lines read_lines read_line stoll skip_spaces leading_digits
    digits_value put getlines decimal decimal_loop sanitize_label
label_needed = refl
