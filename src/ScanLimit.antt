-- ===== src/ScanLimit.antt =====
-- server/src/scan_limit.cpp: at most one scan of the radio in 30 seconds.
-- The state is the content of the one file, and a clock's whole seconds are an argument. The lock on
-- the file makes a call one step. What the operating system refuses is a `ScanFaults`.
pub mod Spacing
mod Tests
use encoder_next.Prelude.{
  ℕ, ◌+◌, ◌^◌, Bool, true, false, not, ◌&&◌, ◌||◌, Option, none, some, Bytes, is_empty, length, all,
  ltb, leb, ◌==◌, if◌then◌else◌, Result, ok, err, decimal, digits_value, is_digit,
}

-- The directory is unsafe; the file is unsafe or locked; it cannot be read; or writing it fails and
-- leaves the bytes given.
pub record ScanFaults : Type 0 where
  pub unsafe_directory : Bool
  pub busy : Bool
  pub read_fails : Bool
  pub write_leaves : Option Bytes

abbrev pub buffer_size : ℕ
buffer_size = 64

abbrev pub cooldown : ℕ
cooldown = 30

-- The stamp: a positive number of 63 bits in decimal, up to the end. A sign makes it fail like any
-- other byte, since a negative number is refused too.
unfoldable pub read_stamp : Bytes → Option ℕ
read_stamp bytes =
    let last = digits_value 0 bytes in
    if is_empty bytes || not (all is_digit bytes) || leb (2 ^ 63) last || last == 0
    then none
    else some last

unfoldable pub write_stamp : ScanFaults → ℕ → Bytes → Result (Unit {0}) × Bytes
write_stamp f now file = elim f.write_leaves [
  | none ↦ (ok tt, decimal now)
  | some bytes ↦ (err "Cannot persist scan cooldown", bytes)
]

unfoldable pub check_stamp : ScanFaults → ℕ → Option ℕ → Bytes → Result (Unit {0}) × Bytes
check_stamp f now none file = (err "Invalid scan state", file)
check_stamp f now (some last) file =
    if ltb now last || ltb now (last + cooldown)
    then (err "Scan cooldown: wait at least 30 seconds between attempts", file)
    else write_stamp f now file

unfoldable pub reserve_scan_slot : ScanFaults → ℕ → Bytes → Result (Unit {0}) × Bytes
reserve_scan_slot f now file =
    if f.unsafe_directory
    then (err "Unsafe or missing scan state directory", file)
    else if f.busy
    then (err "Scan state is unsafe or busy", file)
    else if f.read_fails || leb buffer_size (length file) || now == 0
    then (err "Cannot read scan state", file)
    else if is_empty file
    then write_stamp f now file
    else check_stamp f now (read_stamp file) file
