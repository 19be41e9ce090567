-- ===== src/Wifi/Managed/Recovery.antt =====
-- server/src/wifi_recovery_worker.cpp: confirming and undoing a change under the lock of the journal.
use encoder_next.Prelude.{
  ℕ, Bool, true, false, not, ◌&&◌, Option, some, Bytes, bytes_eq, ltb, if◌then◌else◌, Result, ok,
  err,
}
use encoder_next.Wifi.Backend.{WifiProfile}
use encoder_next.Wifi.Journal.Record.{RecoveryRecord}
use encoder_next.Wifi.Journal.{
  Disk, is_pending, RecoveryOutcome, nothing, undone, load, begin, commit, cancel, recover_due,
}
use encoder_next.Wifi.Netplan.{ManagedFile, present, contents, backup, replace, restore}
use encoder_next.Wifi.Draft.{WifiConfigDraft, make_wifi_config_draft, read_wifi_config_draft}
use encoder_next.Wifi.Managed.State.{
  World, Surroundings, Step, insist, reads, or_fail, or_error, ask, ◌>>=◌, ◌>>◌,
}

-- The record is pending, the named transaction, of this boot, and in time.
abbrev pub is_live : Bytes → Bytes × ℕ → RecoveryRecord → Bool
is_live transaction (boot, now) r =
    is_pending r.phase
    && bytes_eq r.transaction transaction
    && bytes_eq r.boot_id boot
    && ltb now r.deadline_ms

abbrev pub is_settled : RecoveryOutcome → Bool
is_settled undone = true
is_settled nothing = true
is_settled _ = false

abbrev pub holds : WifiConfigDraft → ManagedFile → Bool
holds draft file = present file && bytes_eq (contents file) draft.netplan_yaml

module _ {E : Type 0} (o : Surroundings E) where
  abbrev pub netplan_reader : Bytes → Option WifiProfile
  netplan_reader = read_wifi_config_draft o.derive

  -- Opens the journal, which locks it, and loads it.
  abbrev pub load_journal : Step E (Option RecoveryRecord)
  load_journal = do
    locked ← ask o.lock_journal
    insist locked
    faults ← ask o.journal_faults
    disk ← reads (λ s. s.journal)
    or_error (load o.checksum faults disk)

  -- `NetplanFiles::open`.
  abbrev pub open_files : Step E (Unit {0})
  open_files = do faults ← ask o.netplan_faults; insist (not faults.unsafe_directory)

  abbrev pub back_up : Step E ManagedFile
  back_up = do
    faults ← ask o.netplan_faults
    file ← reads (λ s. s.world.0)
    or_error (backup netplan_reader faults file)

  abbrev pub replace_file : Bytes → Step E (Unit {0})
  replace_file bytes s =
      let (faults, e) = o.netplan_faults s.world.1 in
      let (answer, file) = replace netplan_reader faults bytes s.world.0 in
      or_error answer (record s { world = (file, e) })

  abbrev pub begin_journal : RecoveryRecord → Step E (Unit {0})
  begin_journal r s =
      let (faults, e) = o.journal_faults s.world.1 in
      let (answer, disk) = begin o.checksum faults r s.journal in
      or_error answer (record s { journal = disk; world = (s.world.0, e) })

  abbrev pub commit_journal : Bytes → Bytes × ℕ → Step E (Unit {0})
  commit_journal transaction (boot, now) s =
      let (faults, e) = o.journal_faults s.world.1 in
      let (answer, disk) = commit o.checksum faults transaction boot now s.journal in
      or_error answer (record s { journal = disk; world = (s.world.0, e) })

  -- The last look at the file, and at the clock.
  unfoldable pub confirm : WifiConfigDraft → Bytes → Step E (Unit {0})
  confirm expected transaction = do
    again ← back_up
    insist (holds expected again)
    reading ← ask o.clock
    now ← or_fail reading
    commit_journal transaction now

  unfoldable pub managed_commit : Bytes → WifiProfile → Step E (Unit {0}) → Step E (Unit {0})
  managed_commit transaction target verify_live = do
    old ← load_journal
    reading ← ask o.clock
    now ← or_fail reading
    r ← or_fail old
    insist (is_live transaction now r)
    open_files
    persisted ← back_up
    expected ← or_fail (make_wifi_config_draft target)
    insist (holds expected persisted)
    verify_live
    confirm expected transaction

  -- The callback of recovery, over the file and what else is outside.
  abbrev pub restored_then : Result (Unit {0}) × ManagedFile → E → Bool × World E
  restored_then (err message, file) e = (false, (file, e))
  restored_then (ok _, file) e = o.platform.restore_network (file, e)

  abbrev pub restore_managed : RecoveryRecord → World E → Bool × World E
  restore_managed r (file, e) =
      let (faults, e') = o.netplan_faults e in
      if faults.unsafe_directory
      then (false, (file, e'))
      else restored_then (restore netplan_reader faults r.previous_exists r.previous file) e'

  -- An answer of the journal with what it leaves behind.
  abbrev pub settle : RecoveryOutcome × Disk × World E → Step E RecoveryOutcome
  settle (outcome, disk, w) s = (some outcome, record s { journal = disk; world = w })

  abbrev pub cancel_journal : Bytes → Bytes × ℕ → Step E RecoveryOutcome
  cancel_journal transaction (boot, now) s =
      let (faults, e) = o.journal_faults s.world.1 in
      settle (cancel o.checksum restore_managed faults transaction boot s.journal (s.world.0, e)) s

  -- `none` is the outcome `Failed` of a journal or a clock that cannot be had.
  unfoldable pub managed_cancel : Bytes → Step E RecoveryOutcome
  managed_cancel transaction = do
    locked ← ask o.lock_journal
    insist locked
    reading ← ask o.clock
    now ← or_fail reading
    cancel_journal transaction now

  abbrev pub recover_journal : Bytes × ℕ → Step E RecoveryOutcome
  recover_journal (boot, now) s =
      let (faults, e) = o.journal_faults s.world.1 in
      settle (recover_due o.checksum restore_managed faults boot now s.journal (s.world.0, e)) s

  unfoldable pub managed_recovery_tick : Step E RecoveryOutcome
  managed_recovery_tick = do
    locked ← ask o.lock_journal
    insist locked
    reading ← ask o.clock
    now ← or_fail reading
    recover_journal now
