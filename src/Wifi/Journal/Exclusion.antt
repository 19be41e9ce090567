-- ===== src/Wifi/Journal/Exclusion.antt =====
-- In server/src/wifi_journal.cpp no instant is both in time for `commit` and due for recovery.
use encoder_next.Prelude.{
  ℕ, ◌<◌, ◌≡◌, refl, Bool, true, false, ◌||◌, Option, none, some, Bytes, Result, ok, err,
  Result-cases, ltb, bytes_eq, if◌then◌else◌, if_both, arith, inl, inr, String, length,
}
use encoder_next.Wifi.Journal.Record.{RecoveryRecord, decode}
use encoder_next.Wifi.Journal.Durability.{IsDigest, load_disturbed}
use encoder_next.Wifi.Journal.{
  Faults, Disk, RecoveryOutcome, no_faults, is_pending, load, commit, commit_found, recover_due,
  recover_found,
}

-- A success under faults is a success without them.
clear {ℓ} :
    {A : Type ℓ} (v : A) (o u l h t g : Bool) (a b c d : String) (r : Result A)
    → (if o
        then err a
        else if u || l || h
        then err b
        else if t
        then err c
        else if g
        then err d
        else r)
      ≡ ok v
    → (if false || l || h then err b else r) ≡ ok v
clear v o u l h t g a b c d r e = ground arith

refused : (m : String) → ◌≡◌ {A = Result (Unit {0})} (err m) (ok tt) → ⊥
refused m h = cc

-- The record that a successful commit found.
abbrev Found : Bytes → ℕ → RecoveryRecord → Type 0
Found boot now r =
    (is_pending r.phase ≡ true) × (bytes_eq r.boot_id boot ≡ true) × (now < r.deadline_ms)

module _ (checksum : Bytes → Option Bytes) (sha : IsDigest checksum) where
  abbrev read : Bytes → Result (Option RecoveryRecord)
  read b = elim (decode checksum b) [ err m ↦ err m | ok r ↦ ok (some r) ]

  load-clear :
      (f : Faults) (d : Disk) (v : Option RecoveryRecord)
      → load checksum f d ≡ ok v
      → load checksum no_faults d ≡ ok v
  unfolding load
  load-clear f none v h = ground arith
  load-clear f (some b) v h =
      clear v f.open_fails f.unsafe_file (ltb (length b) 122) (ltb 65658 (length b)) f.truncated
        f.grown _ _ _ _ (read b) h

  commit_found_inv :
      (f : Faults) (transaction boot : Bytes) (now : ℕ) (v : Option RecoveryRecord) (d : Disk)
      → (commit_found checksum f transaction boot now v d).0 ≡ ok tt
      → (r : RecoveryRecord) × (v ≡ some r) × Found boot now r
  unfolding commit_found
  commit_found_inv f transaction boot now none d h = cc
  commit_found_inv f transaction boot now (some r) d h =
      (r, refl, (ground arith, ground arith, ground arith))

  module _ {E : Type 0} (restore : RecoveryRecord → E → Bool × E) where
    keeps_waiting :
        (f : Faults) (boot : Bytes) (now : ℕ) (r : RecoveryRecord) (d : Disk) (e : E)
        → Found boot now r
        → ((recover_found checksum restore f boot now (some r) d e).1 ≡ d)
          × ((recover_found checksum restore f boot now (some r) d e).2 ≡ e)
    unfolding recover_found
    keeps_waiting f boot now r d e h = ground arith

    unchanged :
        (f : Faults) (boot : Bytes) (now : ℕ) (r : RecoveryRecord) (d : Disk) (e : E)
        → Found boot now r
        → load checksum no_faults d ≡ ok (some r)
        → ((recover_due checksum restore f boot now d e).1 ≡ d)
          × ((recover_due checksum restore f boot now d e).2 ≡ e)
    unfolding recover_due
    unchanged f boot now r d e found h =
        let Kept = λ (s : RecoveryOutcome × Disk × E). (s.1 ≡ d) × (s.2 ≡ e) in
        elim (load_disturbed checksum sha f d (some r) h) [
          | inl q ↦
              rw (q, recover_due)
                (if_both Kept _ _ _ (refl, refl) (keeps_waiting f boot now r d e found))
          | inr (m, q) ↦ rw (q, recover_due) (if_both Kept _ _ _ (refl, refl) (refl, refl))
        ]

    -- If digests have 32 bytes: on a disk where `commit` succeeds at an instant of a boot,
    -- `recover_due` at that instant and boot, under any failures of its own, changes neither the disk
    -- nor what the restore callback works on.
    pub commit_excludes_recovery :
        (f g : Faults) (transaction boot : Bytes) (now : ℕ) (d : Disk) (e : E)
        → (commit checksum f transaction boot now d).0 ≡ ok tt
        → ((recover_due checksum restore g boot now d e).1 ≡ d)
          × ((recover_due checksum restore g boot now d e).2 ≡ e)
    unfolding commit
    commit_excludes_recovery f g transaction boot now d e h =
        elim (Result-cases (load checksum f d)) [
          | inl (v, q) ↦
              let (r, same, found) =
                commit_found_inv f transaction boot now v d (rw (q, commit) at h) in
              unchanged g boot now r d e found (load-clear f d (some r) (rw (← same) q))
          | inr (m, q) ↦ absurd (refused m (rw (q, commit) at h))
        ]
