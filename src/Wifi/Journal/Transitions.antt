-- ===== src/Wifi/Journal/Transitions.antt =====
-- The journal of server/src/wifi_journal.cpp as a state machine: what its calls may do to the
-- record on the disk, whatever the operating system refuses.
use encoder_next.Prelude.{
  ℕ, ◌^◌, ◌<◌, ◌≡◌, inl, inr, refl, Bool, true, false, not, Option, none, some, Bytes, if_both,
  Result, ok, arith, Bool-cases, ◌||◌,
}
use encoder_next.Wifi.Journal.Record.{
  RecoveryPhase, RecoveryRecord, pending, committed, restored, valid,
}
use encoder_next.Wifi.Journal.Record.RoundTrip.{IsRecord}
use encoder_next.Wifi.Journal.Durability.{IsDigest, save_atomic, load-valid, load_disturbed}
use encoder_next.Wifi.Journal.{
  Faults, Disk, RecoveryOutcome, no_faults, is_pending, is_committed, is_restored, is_named,
  resolve, load, save, begin, begin_over, commit, commit_found, recover_due, recover_found,
  restore_pending, cancel, cancel_found,
}

abbrev pub View : Type 0
View = Option RecoveryRecord

-- No transaction is open.
abbrev pub IsSettled : View → Type 0
IsSettled none = Unit {0}
IsSettled (some r) = is_pending r.phase ≡ false

pub data Transition : View → View → Type 0 where
  stays : (v : View) → Transition v v
  begins : (v : View) (r : RecoveryRecord) → IsSettled v → r.phase ≡ pending → Transition v (some r)
  commits :
      (r : RecoveryRecord) → r.phase ≡ pending → Transition (some r) (some (resolve committed r))
  restores :
      (r : RecoveryRecord) → r.phase ≡ pending → Transition (some r) (some (resolve restored r))

-- A deadline is a uint64_t.
abbrev pub Fits : View → Type 0
Fits none = Unit {0}
Fits (some r) = r.deadline_ms < 2 ^ 64

module _ (checksum : Bytes → Option Bytes) where
  -- An undisturbed reading of the disk gives the view.
  abbrev pub Shows : Disk → View → Type 0
  Shows d v = (load checksum no_faults d ≡ ok v) × Fits v

  -- The disk shows a view that one transition leads to.
  abbrev pub Moves : View → Disk → Type 0
  Moves v d = (w : View) × Shows d w × Transition v w

  abbrev Answered : View → Result (Unit {0}) × Disk → Type 0
  Answered v s = Moves v s.1

  abbrev Served : {E : Type 0} → View → RecoveryOutcome × Disk × E → Type 0
  Served v s = Moves v s.1

or_true : (b : Bool) → (b || true) ≡ true
or_true b = ground arith

resolve-valid :
    (p : RecoveryPhase) (r : RecoveryRecord) → valid r ≡ true → valid (resolve p r) ≡ true
unfolding valid
resolve-valid p r h = ground arith

pending_of : (p : RecoveryPhase) → is_pending p ≡ true → p ≡ pending
pending_of p h = ground arith

module _ (checksum : Bytes → Option Bytes) (sha : IsDigest checksum) where
  save-Moves :
      (f : Faults) (r : RecoveryRecord) (d : Disk) (v : View)
      → IsRecord r
      → Shows checksum d v
      → Transition v (some r)
      → Moves checksum v (save checksum f r d).1
  save-Moves f r d v good h t = elim (save_atomic checksum sha f r d good).0 [
    | inl same ↦ (v, rw same h, stays v)
    | inr new ↦ (some r, (new, good.1), t)
  ]

  begin_over-Moves :
      (f : Faults) (r : RecoveryRecord) (old v : View) (d : Disk)
      → IsRecord r
      → Shows checksum d v
      → old ≡ v
      → Moves checksum v (begin_over checksum f r old d).1
  unfolding begin_over
  begin_over-Moves f r none v d good h e = elim (Bool-cases (is_pending r.phase)) [
    | inl p ↦ rw p (save-Moves f r d v good h (rw (← e) (begins none r tt (pending_of r.phase p))))
    | inr p ↦ rw p (v, h, stays v)
  ]
  begin_over-Moves f r (some old) v d good h e = elim (Bool-cases (is_pending old.phase)) [
    | inl q ↦ rw q (v, h, stays v)
    | inr q ↦ elim (Bool-cases (is_pending r.phase)) [
      | inl p ↦
          rw (q, p)
            (save-Moves f r d v good h (rw (← e) (begins (some old) r q (pending_of r.phase p))))
      | inr p ↦ rw (q, p) (v, h, stays v)
    ]
  ]

  -- `begin` with a valid record, under any faults, makes one transition of the journal.
  pub begin-Moves :
      (f : Faults) (r : RecoveryRecord) (d : Disk) (v : View)
      → IsRecord r
      → Shows checksum d v
      → Moves checksum v (begin checksum f r d).1
  unfolding begin
  begin-Moves f r d v good h = elim (load_disturbed checksum sha f d v h.0) [
    | inl e ↦ rw (e, begin) (begin_over-Moves f r v v d good h refl)
    | inr (m, e) ↦ rw (e, begin) (v, h, stays v)
  ]

  resolve-IsRecord :
      (p : RecoveryPhase) (r : RecoveryRecord) (d : Disk)
      → Shows checksum d (some r)
      → IsRecord (resolve p r)
  resolve-IsRecord p r d h = (resolve-valid p r (load-valid checksum sha d r h.0), h.1)

  commit_found-Moves :
      (f : Faults) (transaction boot : Bytes) (now : ℕ) (v : View) (d : Disk)
      → Shows checksum d v
      → Moves checksum v (commit_found checksum f transaction boot now v d).1
  unfolding commit_found
  commit_found-Moves f transaction boot now none d h = (none, h, stays none)
  commit_found-Moves f transaction boot now (some r) d h = elim (Bool-cases (is_pending r.phase)) [
    | inl p ↦ rw p (
        if_both (Answered checksum (some r)) _ _ _ (some r, h, stays (some r))
          (save-Moves f (resolve committed r) d (some r) (resolve-IsRecord committed r d h) h
            (commits r (pending_of r.phase p))))
    | inr p ↦ rw p (some r, h, stays (some r))
  ]

  pub commit-Moves :
      (f : Faults) (transaction boot : Bytes) (now : ℕ) (d : Disk) (v : View)
      → Shows checksum d v
      → Moves checksum v (commit checksum f transaction boot now d).1
  unfolding commit
  commit-Moves f transaction boot now d v h = elim (load_disturbed checksum sha f d v h.0) [
    | inl e ↦ rw (e, commit) (commit_found-Moves f transaction boot now v d h)
    | inr (m, e) ↦ rw (e, commit) (v, h, stays v)
  ]

  module _ {E : Type 0} (restore : RecoveryRecord → E → Bool × E) where
    restore_pending-Moves :
        (f : Faults) (r : RecoveryRecord) (d : Disk) (e : E)
        → r.phase ≡ pending
        → Shows checksum d (some r)
        → Moves checksum (some r) (restore_pending checksum restore f r d e).1
    unfolding restore_pending
    restore_pending-Moves f r d e p h =
        if_both (Served checksum (some r)) _ _ _ (some r, h, stays (some r))
          (save-Moves f (resolve restored r) d (some r) (resolve-IsRecord restored r d h) h
            (restores r p))

    recover_found-Moves :
        (f : Faults) (boot : Bytes) (now : ℕ) (v : View) (d : Disk) (e : E)
        → Shows checksum d v
        → Moves checksum v (recover_found checksum restore f boot now v d e).1
    unfolding recover_found
    recover_found-Moves f boot now none d e h = (none, h, stays none)
    recover_found-Moves f boot now (some r) d e h = elim (Bool-cases (is_pending r.phase)) [
      | inl p ↦ rw p (
          if_both (Served checksum (some r)) _ _ _ (some r, h, stays (some r))
            (restore_pending-Moves f r d e (pending_of r.phase p) h))
      | inr p ↦ rw p (some r, h, stays (some r))
    ]

    pub recover_due-Moves :
        (f : Faults) (boot : Bytes) (now : ℕ) (d : Disk) (e : E) (v : View)
        → Shows checksum d v
        → Moves checksum v (recover_due checksum restore f boot now d e).1
    unfolding recover_due
    recover_due-Moves f boot now d e v h = elim (load_disturbed checksum sha f d v h.0) [
      | inl q ↦
          rw (q, recover_due)
            (if_both (Served checksum v) _ _ _ (v, h, stays v)
              (recover_found-Moves f boot now v d e h))
      | inr (m, q) ↦
          rw (q, recover_due) (if_both (Served checksum v) _ _ _ (v, h, stays v) (v, h, stays v))
    ]

    unresolved-pending :
        (p : RecoveryPhase) → is_committed p ≡ false → is_restored p ≡ false → p ≡ pending
    unresolved-pending p h k = ground arith

    cancel_found-Moves :
        (f : Faults) (transaction boot : Bytes) (v : View) (d : Disk) (e : E)
        → Shows checksum d v
        → Moves checksum v (cancel_found checksum restore f transaction boot v d e).1
    unfolding cancel_found
    cancel_found-Moves f transaction boot none d e h = (none, h, stays none)
    cancel_found-Moves f transaction boot (some r) d e h =
        let Kept = Served checksum {E = E} (some r) in
        elim (Bool-cases (is_committed r.phase)) [
          | inl c ↦
              rw (c, or_true (not (is_named checksum transaction boot r)))
                (some r, h, stays (some r))
          | inr c ↦ elim (Bool-cases (is_restored r.phase)) [
            | inl q ↦
                rw (c, q)
                  (if_both Kept _ _ _ (some r, h, stays (some r)) (some r, h, stays (some r)))
            | inr q ↦
                rw (c, q)
                  (if_both Kept _ _ _ (some r, h, stays (some r))
                    (restore_pending-Moves f r d e (unresolved-pending r.phase c q) h))
          ]
        ]

    pub cancel-Moves :
        (f : Faults) (transaction boot : Bytes) (d : Disk) (e : E) (v : View)
        → Shows checksum d v
        → Moves checksum v (cancel checksum restore f transaction boot d e).1
    unfolding cancel
    cancel-Moves f transaction boot d e v h = elim (load_disturbed checksum sha f d v h.0) [
      | inl q ↦
          rw (q, cancel)
            (if_both (Served checksum v) _ _ _ (v, h, stays v)
              (cancel_found-Moves f transaction boot v d e h))
      | inr (m, q) ↦
          rw (q, cancel) (if_both (Served checksum v) _ _ _ (v, h, stays v) (v, h, stays v))
    ]
