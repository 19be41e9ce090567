-- ===== src/Wifi/Journal/Tests.antt =====
-- Calls of server/src/wifi_journal.cpp with a checksum of zeros.
use encoder_next.Prelude.{
  ℕ, ◌≡◌, ◌⊎◌, refl, Bool, true, Option, none, some, List, [], ◌∷◌, Bytes, codes, replicate, ok,
  arith,
}
use encoder_next.Wifi.Journal.Record.{
  RecoveryRecord, pending, committed, valid, boot_valid, hex_string, encode, body, put, decode,
  get_loop, digest_matches, fields,
}
use encoder_next.Wifi.Journal.Record.RoundTrip.{IsRecord}
use encoder_next.Wifi.Journal.Durability.{IsDigest, save_atomic}
use encoder_next.Wifi.Journal.Transitions.{View}
use encoder_next.Wifi.Journal.History.{
  Call, call_begin, call_commit, Reaches, serve, serve_all, serve_all_refines, serve_all_erased,
}
use encoder_next.Wifi.Journal.Exclusion.{commit_excludes_recovery}
use encoder_next.Wifi.Journal.{
  Faults, Disk, no_faults, resolve, load, save, begin, commit, recover_due,
}

abbrev zeros : Bytes → Option Bytes
zeros text = some (replicate 32 0)

zeros-IsDigest : IsDigest zeros
zeros-IsDigest text digest h = ground arith

abbrev restore : RecoveryRecord → ℕ → Bool × ℕ
restore r e = (true, e)

abbrev transaction : Bytes
transaction = codes "0123456789abcdef0123456789abcdef"

abbrev boot : Bytes
boot = codes "01234567-89ab-cdef-0123-456789abcdef"

abbrev change : RecoveryRecord
change = record {
  phase = pending;
  previous_exists = true;
  transaction = transaction;
  boot_id = boot;
  deadline_ms = 90000;
  previous = codes "network: {}";
}

change-IsRecord : IsRecord change
unfolding valid boot_valid hex_string
change-IsRecord = (refl, omega arith)

abbrev torn : Faults
torn = record no_faults { sync_fails = true }

save_atomic_example :
    (((save zeros torn change none).1 ≡ none)
      ⊎ (load zeros no_faults (save zeros torn change none).1 ≡ ok (some change)))
    × ((save zeros torn change none).0 ≡ ok tt
        → load zeros no_faults (save zeros torn change none).1 ≡ ok (some change))
save_atomic_example = save_atomic zeros zeros-IsDigest torn change none change-IsRecord

abbrev calls : List Call
calls = call_begin no_faults change ∷ call_commit no_faults transaction boot 500 ∷ []

serve_all_refines_example :
    (v : View) × (load zeros no_faults (serve_all zeros restore calls (none, 0)).0 ≡ ok v)
    × Reaches none v
serve_all_refines_example =
    serve_all_refines zeros restore zeros-IsDigest calls 0 (change-IsRecord, (tt, tt))

calls_run :
    load zeros no_faults (serve_all zeros restore calls (none, 0)).0
    ≡ ok (some (resolve committed change))
unfolding commit begin load save valid boot_valid hex_string encode body put decode get_loop
    digest_matches fields serve serve_all
calls_run = refl

serve_all_erased_example : (resolve committed change).previous ≡ []
serve_all_erased_example =
    serve_all_erased zeros restore zeros-IsDigest calls 0 (resolve committed change)
      (change-IsRecord, (tt, tt)) calls_run refl

abbrev written : Disk
written = (begin zeros no_faults change none).1

commits : (commit zeros no_faults transaction boot 500 written).0 ≡ ok tt
unfolding commit begin load save valid boot_valid hex_string encode body put decode get_loop
    digest_matches fields
commits = refl

commit_excludes_recovery_example :
    ((recover_due zeros restore torn boot 500 written 7).1 ≡ written)
    × ((recover_due zeros restore torn boot 500 written 7).2 ≡ 7)
commit_excludes_recovery_example =
    commit_excludes_recovery zeros zeros-IsDigest restore no_faults torn transaction boot 500
      written 7 commits
