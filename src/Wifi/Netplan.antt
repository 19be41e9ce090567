-- ===== src/Wifi/Netplan.antt =====
-- server/src/netplan_files.cpp: the one Netplan file that the program manages, or its supplicant file.
-- The directory holds at most that file. What the operating system refuses is an argument of each
-- call, and `reads` is the strict reader of the kind of file.
pub mod Undo
mod Tests
use encoder_next.Prelude.{
  ℕ, Bool, true, false, not, ◌&&◌, ◌||◌, Option, none, some, [], String, Bytes, ltb, if◌then◌else◌,
  length, is_empty, Result, ok, err,
}
use encoder_next.Wifi.Backend.{WifiProfile}

abbrev pub ManagedFile : Type 0
ManagedFile = Option Bytes

-- The directory is unsafe. Reading: the file cannot be opened, is not a private regular one, ends
-- early or grows. Writing: the temporary file cannot be made or cannot be written, synced and renamed;
-- the file cannot be removed; the directory cannot be synced.
pub record NetplanFaults : Type 0 where
  pub unsafe_directory : Bool
  pub open_fails : Bool
  pub unsafe_file : Bool
  pub truncated : Bool
  pub grown : Bool
  pub create_fails : Bool
  pub persist_fails : Bool
  pub remove_fails : Bool
  pub sync_fails : Bool

abbrev pub present : ManagedFile → Bool
present none = false
present (some bytes) = true

abbrev pub contents : ManagedFile → Bytes
contents none = []
contents (some bytes) = bytes

abbrev pub is_read : Option WifiProfile → Bool
is_read none = false
is_read (some p) = true

abbrev pub synced : Bool → String → Result (Unit {0})
synced fails message = if fails then err message else ok tt

abbrev pub write : NetplanFaults → Bytes → ManagedFile → Result (Unit {0}) × ManagedFile
write f bytes file =
    if f.create_fails
    then (err "Cannot create managed Wi-Fi temporary file", file)
    else if f.persist_fails
    then (err "Cannot persist managed Wi-Fi configuration", file)
    else (synced f.sync_fails "Wi-Fi configuration durability uncertain", some bytes)

abbrev pub write_over :
    Result ManagedFile → NetplanFaults → Bytes → ManagedFile → Result (Unit {0}) × ManagedFile
write_over (err message) f bytes file = (err message, file)
write_over (ok old) f bytes file = write f bytes file

abbrev pub removed :
    Result ManagedFile → NetplanFaults → ManagedFile → Result (Unit {0}) × ManagedFile
removed (err message) f file = (err message, file)
removed (ok none) f file = (synced f.sync_fails "Wi-Fi restoration durability uncertain", file)
removed (ok (some bytes)) f file =
    if f.remove_fails
    then (err "Cannot remove managed Wi-Fi configuration", file)
    else (synced f.sync_fails "Wi-Fi restoration durability uncertain", none)

module _ (reads : Bytes → Option WifiProfile) where
  unfoldable pub canonical : Bytes → Bool
  canonical bytes = not (is_empty bytes) && not (ltb 4096 (length bytes)) && is_read (reads bytes)

  -- `ok none` is a directory without the file.
  unfoldable pub backup : NetplanFaults → ManagedFile → Result ManagedFile
  backup f none = if f.open_fails then err "Cannot open managed Wi-Fi configuration" else ok none
  backup f (some bytes) =
      if f.open_fails
      then err "Cannot open managed Wi-Fi configuration"
      else if f.unsafe_file || is_empty bytes || ltb 4096 (length bytes)
      then err "Unsafe managed Wi-Fi configuration"
      else if f.truncated
      then err "Incomplete Wi-Fi configuration backup"
      else if f.grown || not (canonical bytes)
      then err "Refusing noncanonical Wi-Fi configuration"
      else ok (some bytes)

  unfoldable pub replace : NetplanFaults → Bytes → ManagedFile → Result (Unit {0}) × ManagedFile
  replace f bytes file =
      if not (canonical bytes)
      then (err "Unsupported managed Wi-Fi configuration format or size", file)
      else write_over (backup f file) f bytes file

  unfoldable pub restore :
      NetplanFaults → Bool → Bytes → ManagedFile → Result (Unit {0}) × ManagedFile
  restore f true bytes file = replace f bytes file
  restore f false bytes file =
      if not (is_empty bytes)
      then (err "Unexpected backup for absent Wi-Fi configuration", file)
      else removed (backup f file) f file
