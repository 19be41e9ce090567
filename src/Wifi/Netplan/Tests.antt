-- ===== src/Wifi/Netplan/Tests.antt =====
-- Backups of server/src/netplan_files.cpp.
use encoder_next.Prelude.{◌≡◌, refl, false, Option, none, some, Bytes, codes, ok}
use encoder_next.Wifi.Backend.{WifiProfile}
use encoder_next.Wifi.Netplan.{
  ManagedFile, NetplanFaults, present, contents, canonical, backup, replace, restore,
}
use encoder_next.Wifi.Netplan.Undo.{restore-backup}

abbrev fine : NetplanFaults
fine = record {
  unsafe_directory = false;
  open_fails = false;
  unsafe_file = false;
  truncated = false;
  grown = false;
  create_fails = false;
  persist_fails = false;
  remove_fails = false;
  sync_fails = false;
}

-- A reader that takes every text.
abbrev any : Bytes → Option WifiProfile
any text = some (record { ssid_hex = codes "61"; psk = text; dhcp6 = none })

abbrev old : ManagedFile
old = some (codes "network: old")

abbrev new : ManagedFile
new = some (codes "network: new")

saved : backup any fine old ≡ ok old
unfolding backup canonical
saved = refl

put_back : (restore any fine (present old) (contents old) new).0 ≡ ok tt
unfolding restore replace backup canonical
put_back = refl

restore-backup_example : (restore any fine (present old) (contents old) new).1 ≡ old
restore-backup_example = restore-backup any fine fine old old new saved put_back

removed_again : (restore any fine false (contents none) new).1 ≡ none
unfolding restore replace backup canonical
removed_again = refl
