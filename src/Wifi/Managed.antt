-- ===== src/Wifi/Managed.antt =====
-- server/src/wifi_managed_backend.cpp: the change of the machine's Wi-Fi that can always be undone.
pub mod State
pub mod Recovery
pub mod Commit
pub mod Attempted
pub mod Final
mod Tests
use encoder_next.Prelude.{
  ℕ, ◌+◌, ◌*◌, ◌%◌, ◌^◌, Bool, true, false, not, ◌&&◌, ◌||◌, Option, none, some, [], Bytes,
  bytes_eq, ltb, leb, ◌==◌, if◌then◌else◌, is_empty, hex_encode,
}
use encoder_next.Wifi.Backend.{WifiProfile, WifiLink, WifiChangeBackend, failed, ready}
use encoder_next.Wifi.Journal.Record.{RecoveryRecord, pending}
use encoder_next.Wifi.Journal.{is_pending, begin, undone, nothing}
use encoder_next.Wifi.Netplan.{ManagedFile, present, contents, backup, replace}
use encoder_next.Wifi.Draft.{WifiConfigDraft, make_wifi_config_draft, read_wifi_config_draft}
use State.{
  Surroundings, Managed, Step, insist, change, reads, or_fail, or_error, ask, act, ensure, ◌>>=◌,
  ◌>>◌, pass_on,
}
use Recovery.{
  load_journal, open_files, back_up, replace_file, begin_journal, managed_commit, managed_cancel,
  is_live, is_settled,
}

abbrev pub is_set : Option WifiProfile → Bool
is_set none = false
is_set (some p) = true

abbrev pub no_pending : Option RecoveryRecord → Bool
no_pending none = true
no_pending (some r) = not (is_pending r.phase)

abbrev same_bool : Bool → Bool → Bool
same_bool true b = b
same_bool false b = not b

abbrev pub same_file : ManagedFile → RecoveryRecord → Bool
same_file before r =
    same_bool (present before) r.previous_exists && bytes_eq (contents before) r.previous

abbrev pub is_ready : WifiLink → Bool
is_ready ready = true
is_ready _ = false

abbrev pub done {ℓ} : {A : Type ℓ} → Option A → Bool
done none = false
done (some a) = true

module _ {E : Type 0} (o : Surroundings E) where
  abbrev pub forget_target : Managed E → Managed E
  forget_target s = record s { target = none; candidate = [] }

  -- The record is the own transaction, of this boot, and in time.
  abbrev pub current : RecoveryRecord → Step E (Unit {0})
  current r = do
    reading ← ask o.clock
    now ← or_fail reading
    transaction ← reads (λ s. s.transaction)
    insist (is_live transaction now r)

  abbrev pub safety_checks : WifiProfile → Step E (Unit {0})
  safety_checks p = do
    ensure o.platform.ethernet_ready
    ensure (o.platform.preflight p)
    ensure o.platform.watchdog_ready

  -- The installed DHCPv6 policy goes on with the new network.
  abbrev pub inherit : WifiProfile → ManagedFile → Step E (Unit {0})
  inherit p none = insist true
  inherit p (some bytes) = do
    previous ← or_fail (read_wifi_config_draft o.derive bytes)
    let q = record p { dhcp6 = previous.dhcp6 }
    change (λ s. record s { target = some q })
    draft ← or_fail (make_wifi_config_draft q)
    change (λ s. record s { candidate = draft.netplan_yaml })

  abbrev pub fresh_record : Bytes → ℕ → Bytes × ℕ → ManagedFile → RecoveryRecord
  fresh_record random lifetime (boot, now) previous = record {
    phase = pending;
    previous_exists = present previous;
    transaction = hex_encode random;
    boot_id = boot;
    deadline_ms = (now + lifetime * 1000) % 2 ^ 64;
    previous = contents previous;
  }

  unfoldable pub prepare_step : WifiProfile → ℕ → Step E (Unit {0})
  prepare_step profile lifetime = do
    attempted ← reads (λ s. s.attempted)
    insist (not attempted)
    change (λ s. record s { attempted = true })
    insist (not (lifetime == 0) && leb lifetime 90)
    draft ← or_fail (make_wifi_config_draft profile)
    change (λ s. record s { candidate = draft.netplan_yaml })
    p ← or_fail (read_wifi_config_draft o.derive draft.netplan_yaml)
    change (λ s. record s { target = some p })
    safety_checks p
    old ← load_journal o
    insist (no_pending old)
    open_files o
    previous ← back_up o
    inherit p previous
    reading ← ask o.clock
    now ← or_fail reading
    drawn ← ask o.random
    random ← or_fail drawn
    let fresh = fresh_record random lifetime now previous
    change (λ s. record s { transaction = fresh.transaction })
    begin_journal o fresh
    ensure o.platform.watchdog_ready
    current fresh
    change (λ s. record s { prepared = true })

  unfoldable pub activate_step : Step E (Unit {0})
  activate_step = do
    s ← reads (λ s. s)
    insist (s.prepared && not s.activated && not s.committed && not s.restored)
    p ← or_fail s.target
    old ← load_journal o
    r ← or_fail old
    current r
    safety_checks p
    open_files o
    before ← back_up o
    insist (same_file before r)
    current r
    replace_file o s.candidate
    ensure (o.platform.apply_target p)
    after ← back_up o
    insist (present after && bytes_eq (contents after) s.candidate)
    current r
    change (λ s. record s { activated = true })

  abbrev pub live_checks : WifiProfile → Step E (Unit {0})
  live_checks p = do safety_checks p; link ← act (o.platform.probe_target p); insist (is_ready link)

  unfoldable pub commit_step : Step E (Unit {0})
  commit_step = do
    s ← reads (λ s. s)
    insist (s.activated && not s.committed && not s.restored)
    p ← or_fail s.target
    managed_commit o s.transaction p (live_checks p)
    change (λ s. forget_target (record s { committed = true }))

  -- Undoing what was begun under the own transaction.
  unfoldable pub undo_step : Bytes → Step E (Unit {0})
  undo_step transaction = do
    outcome ← managed_cancel o transaction
    insist (is_settled outcome)
    change (λ s. forget_target (record s { restored = true }))

  unfoldable pub rollback_step : Step E (Unit {0})
  rollback_step s =
      if s.committed
      then (none, s)
      else if is_empty s.transaction || s.restored
      then (some tt, forget_target s)
      else undo_step s.transaction s

  abbrev pub probe_step : Step E WifiLink
  probe_step = do
    s ← reads (λ s. s)
    insist (s.activated && not s.committed && not s.restored)
    p ← or_fail s.target
    ensure o.platform.watchdog_ready
    act (o.platform.probe_target p)

  abbrev pub or_failed : Option WifiLink → WifiLink
  or_failed none = failed
  or_failed (some link) = link

  abbrev pub answers {ℓ} : {A : Type ℓ} → Option A × Managed E → Bool × Managed E
  answers (a, s) = (done a, s)

  unfoldable pub probe : Managed E → WifiLink × Managed E
  probe s = let (link, s') = probe_step s in (or_failed link, s')

  -- The backend as the adapter that a change works with.
  unfoldable pub managed_backend : WifiChangeBackend (Managed E)
  managed_backend = record {
    ethernet_recovery_available = λ s. answers (ensure o.platform.ethernet_ready s);
    prepare = λ p lifetime s. answers (prepare_step p lifetime s);
    activate = λ s. answers (activate_step s);
    probe = probe;
    commit = λ s. answers (commit_step s);
    rollback = λ s. answers (rollback_step s);
  }
