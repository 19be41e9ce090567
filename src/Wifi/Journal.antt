-- ===== src/Wifi/Journal.antt =====
-- server/src/wifi_journal.cpp: the durable record of a Wi-Fi change that may have to be undone.
-- The directory holds at most the one file `journal`, a `Disk`. What the operating system may
-- refuse is a `Faults` argument of each call, and SHA-256 is `checksum`, which may fail. The lock
-- makes each method one step.
pub mod Record
pub mod Durability
pub mod Transitions
pub mod History
pub mod Exclusion
mod Tests
use encoder_next.Prelude.{
  ℕ, ◌≡◌, String, Bool, true, false, not, ◌&&◌, ◌||◌, Option, none, some, [], Bytes, leb, ltb,
  if◌then◌else◌, bytes_eq, length, Result, ok, err,
}
use Record.{
  RecoveryPhase, RecoveryRecord, pending, committed, restored, valid, boot_valid, hex_string,
  encode, decode,
}

abbrev pub Disk : Type 0
Disk = Option Bytes

-- Reading: the file cannot be opened, is not a private regular file, ends early or grows.
-- Writing: the temporary file cannot be made; it cannot be written, synced and renamed; or the
-- directory cannot be synced once the rename is done.
pub record Faults : Type 0 where
  pub open_fails : Bool
  pub unsafe_file : Bool
  pub truncated : Bool
  pub grown : Bool
  pub create_fails : Bool
  pub persist_fails : Bool
  pub sync_fails : Bool

abbrev pub no_faults : Faults
no_faults = record {
  open_fails = false;
  unsafe_file = false;
  truncated = false;
  grown = false;
  create_fails = false;
  persist_fails = false;
  sync_fails = false;
}

-- `failed` carries the message.
pub data RecoveryOutcome : Type 0 where
  nothing waiting undone : RecoveryOutcome
  failed : String → RecoveryOutcome

abbrev pub is_pending : RecoveryPhase → Bool
is_pending pending = true
is_pending _ = false

abbrev pub is_committed : RecoveryPhase → Bool
is_committed committed = true
is_committed _ = false

abbrev pub is_restored : RecoveryPhase → Bool
is_restored restored = true
is_restored _ = false

-- A settled record keeps no old credentials.
abbrev pub resolve : RecoveryPhase → RecoveryRecord → RecoveryRecord
resolve phase r = record r { phase = phase; previous = [] }

module _ (checksum : Bytes → Option Bytes) where
  -- `load`: `ok none` is a directory with no journal.
  unfoldable pub load : Faults → Disk → Result (Option RecoveryRecord)
  load f none = if f.open_fails then err "Cannot open recovery journal" else ok none
  load f (some bytes) =
      if f.open_fails
      then err "Cannot open recovery journal"
      else if f.unsafe_file || ltb (length bytes) 122 || ltb 65658 (length bytes)
      then err "Unsafe or invalid recovery journal"
      else if f.truncated
      then err "Truncated recovery journal"
      else if f.grown
      then err "Recovery journal changed during read"
      else elim (decode checksum bytes) [ err m ↦ err m | ok r ↦ ok (some r) ]

  unfoldable pub save : Faults → RecoveryRecord → Disk → Result (Unit {0}) × Disk
  save f r d =
      if not (valid r) then (err "Invalid recovery record", d) else elim (encode checksum r) [
        | none ↦ (err "Cannot checksum recovery journal", d)
        | some bytes ↦
            if f.create_fails
            then (err "Cannot create recovery journal", d)
            else if f.persist_fails
            then (err "Cannot persist recovery journal", d)
            else if f.sync_fails
            then (err "Recovery journal durability uncertain", some bytes)
            else (ok tt, some bytes)
      ]

  begin_over : Faults → RecoveryRecord → Option RecoveryRecord → Disk → Result (Unit {0}) × Disk
  begin_over f r none d =
      if not (is_pending r.phase) then (err "New transaction must be pending", d) else save f r d
  begin_over f r (some old) d =
      if is_pending old.phase
      then (err "Unresolved recovery transaction exists", d)
      else if not (is_pending r.phase)
      then (err "New transaction must be pending", d)
      else save f r d

  unfoldable pub begin : Faults → RecoveryRecord → Disk → Result (Unit {0}) × Disk
  unfolding begin_over
  begin f r d = elim (load f d) [ err m ↦ (err m, d) | ok old ↦ begin_over f r old d ]

  -- The record is the named transaction, of this boot.
  abbrev pub is_named : Bytes → Bytes → RecoveryRecord → Bool
  is_named transaction boot r = bytes_eq r.transaction transaction && bytes_eq r.boot_id boot

  commit_found :
      Faults → Bytes → Bytes → ℕ → Option RecoveryRecord → Disk → Result (Unit {0}) × Disk
  commit_found f transaction boot now none d = (err "Recovery transaction cannot be committed", d)
  commit_found f transaction boot now (some r) d =
      if not (is_pending r.phase) || not (is_named transaction boot r) || leb r.deadline_ms now
      then (err "Recovery transaction cannot be committed", d)
      else save f (resolve committed r) d

  unfoldable pub commit : Faults → Bytes → Bytes → ℕ → Disk → Result (Unit {0}) × Disk
  unfolding commit_found
  commit f transaction boot now d = elim (load f d) [
    | err m ↦ (err m, d)
    | ok r ↦ commit_found f transaction boot now r d
  ]

module _ {E : Type 0} (checksum : Bytes → Option Bytes)
    (restore : RecoveryRecord → E → Bool × E) where
  -- What `save` answers, as an outcome.
  abbrev saved : Result (Unit {0}) → RecoveryOutcome
  saved (ok _) = undone
  saved (err m) = failed m

  -- An exception of the callback is a `false`.
  restore_pending : Faults → RecoveryRecord → Disk → E → RecoveryOutcome × Disk × E
  restore_pending f r d e =
      let (done, e') = restore r e in
      let (answer, d') = save checksum f (resolve restored r) d in
      if not done
      then (failed "Recovery failed; pending journal retained", d, e')
      else (saved answer, d', e')

  recover_found : Faults → Bytes → ℕ → Option RecoveryRecord → Disk → E → RecoveryOutcome × Disk × E
  recover_found f boot now none d e = (nothing, d, e)
  recover_found f boot now (some r) d e =
      if not (is_pending r.phase)
      then (nothing, d, e)
      else if bytes_eq r.boot_id boot && ltb now r.deadline_ms
      then (waiting, d, e)
      else restore_pending f r d e

  unfoldable pub recover_due : Faults → Bytes → ℕ → Disk → E → RecoveryOutcome × Disk × E
  unfolding recover_found restore_pending
  recover_due f boot now d e =
      if not (boot_valid boot)
      then (failed "Invalid current boot identity", d, e)
      else elim (load checksum f d) [
        | err m ↦ (failed m, d, e)
        | ok r ↦ recover_found f boot now r d e
      ]

  cancel_found :
      Faults → Bytes → Bytes → Option RecoveryRecord → Disk → E → RecoveryOutcome × Disk × E
  cancel_found f transaction boot none d e =
      (failed "Recovery transaction cannot be cancelled", d, e)
  cancel_found f transaction boot (some r) d e =
      if not (is_named checksum transaction boot r) || is_committed r.phase
      then (failed "Recovery transaction cannot be cancelled", d, e)
      else if is_restored r.phase
      then (nothing, d, e)
      else restore_pending f r d e

  unfoldable pub cancel : Faults → Bytes → Bytes → Disk → E → RecoveryOutcome × Disk × E
  unfolding cancel_found restore_pending
  cancel f transaction boot d e =
      if not (hex_string transaction 32) || not (boot_valid boot)
      then (failed "Invalid cancellation identity", d, e)
      else elim (load checksum f d) [
        | err m ↦ (failed m, d, e)
        | ok r ↦ cancel_found f transaction boot r d e
      ]
