-- ===== src/ScanLimit/Tests.antt =====
-- Three attempts on server/src/scan_limit.cpp.
use encoder_next.Prelude.{
  ◌≡◌, refl, false, none, List, [], ◌∷◌, arith, decimal, decimal_loop, digits_value,
}
use encoder_next.ScanLimit.{ScanFaults, reserve_scan_slot, read_stamp, write_stamp, check_stamp}
use encoder_next.ScanLimit.Spacing.{Attempt, AllSpaced, granted, granted-AllSpaced}

abbrev no_faults : ScanFaults
no_faults = record {
  unsafe_directory = false;
  busy = false;
  read_fails = false;
  write_leaves = none;
}

abbrev attempts : List Attempt
attempts = (no_faults, 1000) ∷ (no_faults, 1029) ∷ (no_faults, 1030) ∷ []

granted_run : granted attempts [] ≡ 1000 ∷ 1030 ∷ []
unfolding granted reserve_scan_slot read_stamp write_stamp check_stamp decimal digits_value
    decimal_loop
granted_run = refl

granted-AllSpaced_example : AllSpaced (granted attempts [])
granted-AllSpaced_example =
    granted-AllSpaced attempts []
      ((refl, omega arith), ((refl, omega arith), ((refl, omega arith), tt)))
