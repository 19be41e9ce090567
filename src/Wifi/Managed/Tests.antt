-- ===== src/Wifi/Managed/Tests.antt =====
-- A change of server/src/wifi_managed_backend.cpp from its preparation to its confirmation.
use encoder_next.Prelude.{
  ℕ, ◌≡◌, refl, true, false, none, some, List, [], ◌∷◌, codes, replicate, hex_encode,
}
use encoder_next.Wifi.Backend.{WifiProfile, ready}
use encoder_next.Wifi.Profile.{
  make, hex_decode, valid_text_ssid, text_loop, allowed_point, lead_byte,
}
use encoder_next.Wifi.Journal.Record.{
  valid, boot_valid, hex_string, encode, body, put, decode, get_loop, digest_matches, fields,
}
use encoder_next.Wifi.Journal.{no_faults, begin, load, save, commit, cancel}
use encoder_next.Wifi.Netplan.{NetplanFaults, canonical, backup, replace, restore}
use encoder_next.Wifi.Draft.{
  make_wifi_config_draft, read_wifi_config_draft, draft_of, prefix_for, plain, escape, unquote,
}
use encoder_next.Wifi.Managed.State.{Platform, Surroundings, Managed}
use encoder_next.Wifi.Managed.Recovery.{confirm, managed_commit, managed_cancel}
use encoder_next.Wifi.Managed.{
  managed_backend, prepare_step, activate_step, commit_step, rollback_step, undo_step,
}
use encoder_next.Wifi.Managed.Commit.{Committed, commit-Committed}
use encoder_next.Wifi.Managed.Final.{
  Call, ethernet_recovery_available, prepare, activate, rollback, new, serve, serve_all, asked,
  Refuses, committed_stays,
}

abbrev fine : NetplanFaults
fine = record {
  unsafe_directory = false;
  open_fails = false;
  unsafe_file = false;
  truncated = false;
  grown = false;
  create_fails = false;
  persist_fails = false;
  remove_fails = false;
  sync_fails = false;
}

abbrev platform : Platform ℕ
platform = record {
  ethernet_ready = λ w. (true, w);
  preflight = λ p w. (true, w);
  watchdog_ready = λ w. (true, w);
  apply_target = λ p w. (true, w);
  probe_target = λ p w. (ready, w);
  restore_network = λ w. (true, w);
}

abbrev outside : Surroundings ℕ
outside = record {
  platform = platform;
  clock = λ e. (some (codes "01234567-89ab-cdef-0123-456789abcdef", 500), e);
  random = λ e. (some (replicate 16 0xa5), e);
  lock_journal = λ e. (true, e);
  journal_faults = λ e. (no_faults, e);
  netplan_faults = λ e. (fine, e);
  checksum = λ text. some (replicate 32 0);
  derive = λ password salt. none;
}

abbrev target : WifiProfile
target = record { ssid_hex = hex_encode (codes "Lab"); psk = replicate 32 7; dhcp6 = none }

abbrev fresh : Managed ℕ
fresh = new none (none, 0)

abbrev prepared : Managed ℕ
prepared = ((managed_backend outside).prepare target 60 fresh).1

abbrev activated : Managed ℕ
activated = ((managed_backend outside).activate prepared).1

confirmed : ((managed_backend outside).commit activated).0 ≡ true
unfolding managed_backend prepare_step activate_step commit_step rollback_step undo_step confirm
    managed_commit managed_cancel make_wifi_config_draft read_wifi_config_draft prefix_for plain
    escape unquote make hex_decode valid_text_ssid text_loop allowed_point lead_byte canonical
    backup replace restore begin load save commit cancel valid boot_valid hex_string encode body put
    decode get_loop digest_matches fields
confirmed = refl

file_installed : activated.world.0 ≡ some (draft_of target (codes "Lab")).netplan_yaml
unfolding managed_backend prepare_step activate_step commit_step rollback_step undo_step confirm
    managed_commit managed_cancel make_wifi_config_draft read_wifi_config_draft prefix_for plain
    escape unquote make hex_decode valid_text_ssid text_loop allowed_point lead_byte canonical
    backup replace restore begin load save commit cancel valid boot_valid hex_string encode body put
    decode get_loop digest_matches fields
file_installed = refl

undone_again : ((managed_backend outside).rollback activated).1.world.0 ≡ none
unfolding managed_backend prepare_step activate_step commit_step rollback_step undo_step confirm
    managed_commit managed_cancel make_wifi_config_draft read_wifi_config_draft prefix_for plain
    escape unquote make hex_decode valid_text_ssid text_loop allowed_point lead_byte canonical
    backup replace restore begin load save commit cancel valid boot_valid hex_string encode body put
    decode get_loop digest_matches fields
undone_again = refl

commit-Committed_example :
    Committed outside activated ((managed_backend outside).commit activated).1
commit-Committed_example = commit-Committed outside activated confirmed

abbrev before : List Call
before = prepare target 60 ∷ activate ∷ []

abbrev after : List Call
after = ethernet_recovery_available ∷ rollback ∷ prepare target 60 ∷ []

confirmed_history :
    ((managed_backend outside).commit (serve_all outside before (new none (none, 0)))).0 ≡ true
unfolding serve_all serve
confirmed_history = confirmed

abbrev over : Managed ℕ
over = ((managed_backend outside).commit (serve_all outside before (new none (none, 0)))).1

committed_stays_example :
    (serve_all outside after over ≡ record over { world = asked outside after over.world })
    × Refuses outside (serve_all outside after over)
committed_stays_example = committed_stays outside before after none (none, 0) confirmed_history
