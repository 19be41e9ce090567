-- ===== src/Wifi/Managed/Attempted.antt =====
-- A backend of server/src/wifi_managed_backend.cpp is used once: what was attempted stays so.
use encoder_next.Prelude.{
  ℕ, ◌≡◌, refl, Bool, true, false, not, ◌&&◌, ◌==◌, leb, bytes_eq, Bytes, Option, none, some,
  Result, ok, err, arith,
}
use encoder_next.Wifi.Backend.{WifiProfile}
use encoder_next.Wifi.Journal.Record.{RecoveryRecord}
use encoder_next.Wifi.Journal.{load, begin, commit}
use encoder_next.Wifi.Draft.{make_wifi_config_draft, read_wifi_config_draft}
use encoder_next.Wifi.Netplan.{ManagedFile, present, contents, backup, replace}
use encoder_next.Wifi.Managed.State.{
  World, Surroundings, Managed, Step, insist, or_error, change, ensure, pass_on, ◌>>=◌, ◌>>◌,
}
use encoder_next.Wifi.Managed.Recovery.{
  is_live, holds, confirm, netplan_reader, commit_journal, load_journal, open_files, back_up,
  replace_file, begin_journal, managed_commit, managed_cancel,
}
use encoder_next.Wifi.Managed.{
  no_pending, same_file, fresh_record, safety_checks, current, inherit, prepare_step, activate_step,
  live_checks, commit_step, undo_step, rollback_step, probe_step,
}

module _ {E : Type 0} where
  -- A step after which an attempt is still one.
  abbrev pub Keeps {ℓ} : {A : Type ℓ} → Step E A → Type 0
  Keeps step = (s : Managed E) → s.attempted ≡ true → (step s).1.attempted ≡ true

  abbrev pub Attempted {ℓ} : {A : Type ℓ} → Option A × Managed E → Type 0
  Attempted o = o.1.attempted ≡ true

  pub keeps_next {ℓ κ} :
      {A : Type ℓ} {B : Type κ} (next : A → Step E B) (o : Option A × Managed E)
      → ((a : A) (s : Managed E) → s.attempted ≡ true → Attempted (next a s))
      → Attempted o
      → Attempted (pass_on next o)
  keeps_next next (none, s) f h = h
  keeps_next next (some a, s) f h = f a s h

  insist-Keeps : (t : Bool) → Keeps (insist t)
  insist-Keeps true s h = h
  insist-Keeps false s h = h

  or_error-Keeps {ℓ} : {A : Type ℓ} (r : Result A) → Keeps (or_error r)
  or_error-Keeps (ok a) s h = h
  or_error-Keeps (err message) s h = h

  ensure-Keeps : (op : World E → Bool × World E) → Keeps (ensure op)
  ensure-Keeps op s h = insist-Keeps (op s.world).0 _ h

module _ {E : Type 0} (o : Surroundings E) where
  load_journal-Keeps : Keeps (load_journal o)
  load_journal-Keeps s h =
      keeps_next _ (insist (o.lock_journal s.world.1).0 _)
        (λ _ t k. or_error-Keeps (load o.checksum (o.journal_faults t.world.1).0 t.journal) _ k)
        (insist-Keeps (o.lock_journal s.world.1).0 _ h)

  open_files-Keeps : Keeps (open_files o)
  open_files-Keeps s h = insist-Keeps (not (o.netplan_faults s.world.1).0.unsafe_directory) _ h

  back_up-Keeps : Keeps (back_up o)
  back_up-Keeps s h =
      or_error-Keeps (backup (netplan_reader o) (o.netplan_faults s.world.1).0 s.world.0) _ h

  replace_file-Keeps : (bytes : Bytes) → Keeps (replace_file o bytes)
  replace_file-Keeps bytes s h =
      or_error-Keeps (replace (netplan_reader o) (o.netplan_faults s.world.1).0 bytes s.world.0).0 _
        h

  begin_journal-Keeps : (r : RecoveryRecord) → Keeps (begin_journal o r)
  begin_journal-Keeps r s h =
      or_error-Keeps (begin o.checksum (o.journal_faults s.world.1).0 r s.journal).0 _ h

  commit_journal-Keeps :
      (transaction : Bytes) (now : Bytes × ℕ) → Keeps (commit_journal o transaction now)
  commit_journal-Keeps transaction (boot, now) s h =
      or_error-Keeps
        (commit o.checksum (o.journal_faults s.world.1).0 transaction boot now s.journal).0 _ h

  safety_checks-Keeps : (p : WifiProfile) → Keeps (safety_checks o p)
  safety_checks-Keeps p s h = ground arith

  live_checks-Keeps : (p : WifiProfile) → Keeps (live_checks o p)
  live_checks-Keeps p s h = ground arith

  current-Keeps : (r : RecoveryRecord) → Keeps (current o r)
  current-Keeps r s h = ground arith

  inherit-Keeps : (p : WifiProfile) (previous : ManagedFile) → Keeps (inherit o p previous)
  inherit-Keeps p none s h = h
  inherit-Keeps p (some bytes) s h = ground arith

  -- Keeps from here on, after something that may fail.
  then_insist {κ} :
      {B : Type κ} (t : Bool) (next : Unit {0} → Step E B) (s : Managed E)
      → s.attempted ≡ true
      → Attempted (next tt s)
      → Attempted (pass_on next (insist t s))
  then_insist true next s h k = k
  then_insist false next s h k = h

  then_option {ℓ κ} :
      {A : Type ℓ} {B : Type κ} (r : Option A) (next : A → Step E B) (s : Managed E)
      → s.attempted ≡ true
      → ((a : A) → Attempted (next a s))
      → Attempted (pass_on next (r, s))
  then_option none next s h k = h
  then_option (some a) next s h k = k a

  managed_commit-Keeps :
      (transaction : Bytes) (p : WifiProfile) (verify : Step E (Unit {0}))
      → Keeps verify
      → Keeps (managed_commit o transaction p verify)
  unfolding managed_commit confirm
  managed_commit-Keeps transaction p verify v s h =
      keeps_next _ (load_journal o s)
        (λ old t k. then_option (o.clock t.world.1).0 _ _ k (λ now. then_option old _ _ k (λ r.
          then_insist (is_live transaction now r) _ _ k (
            keeps_next _ (open_files o _)
              (λ _ t₂ k₂.
                keeps_next _ (back_up o t₂)
                  (λ file t₃ k₃. then_option (make_wifi_config_draft p) _ _ k₃ (λ d.
                    then_insist (holds d file) _ _ k₃ (
                      keeps_next _ (verify t₃)
                        (λ _ t₄ k₄.
                          keeps_next _ (back_up o t₄)
                            (λ again t₅ k₅. then_insist (holds d again) _ _ k₅ (
                              then_option (o.clock t₅.world.1).0 _ _ k₅
                                (λ now. commit_journal-Keeps transaction now _ k₅)))
                            (back_up-Keeps t₄ k₄))
                        (v t₃ k₃))))
                  (back_up-Keeps t₂ k₂))
              (open_files-Keeps _ k)))))
        (load_journal-Keeps s h)

  pub commit_step-Keeps : Keeps (commit_step o)
  unfolding commit_step
  commit_step-Keeps s h = then_insist (s.activated && not s.committed && not s.restored) _ _ h (
      then_option s.target _ _ h (λ p.
        keeps_next _ (managed_commit o s.transaction p (live_checks o p) s) (λ _ t k. k)
          (managed_commit-Keeps s.transaction p (live_checks o p) (live_checks-Keeps p) s h)))

  pub probe_step-Keeps : Keeps (probe_step o)
  probe_step-Keeps s h = ground arith

  pub rollback_step-Keeps : Keeps (rollback_step o)
  unfolding rollback_step undo_step managed_cancel
  rollback_step-Keeps s h = ground arith

  after_apply :
      (r : RecoveryRecord) (candidate : Bytes)
      → Keeps (
          back_up o >>= (λ after.
            insist (present after && bytes_eq (contents after) candidate)
            >> (current o r >> change (λ s. record s { activated = true }))))
  after_apply r candidate s h =
      keeps_next _ (back_up o s)
        (λ after t k.
          then_insist (present after && bytes_eq (contents after) candidate) _ _ k
            (keeps_next _ (current o r t) (λ _ t₂ k₂. k₂) (current-Keeps r t k)))
        (back_up-Keeps s h)

  own_journal :
      (r : RecoveryRecord)
      → Keeps (
          change (λ s. record s { transaction = r.transaction })
          >> (begin_journal o r
              >> (ensure o.platform.watchdog_ready
                  >> (current o r >> change (λ s. record s { prepared = true })))))
  own_journal r s h =
      keeps_next _ (begin_journal o r _)
        (λ _ t k.
          keeps_next _ (ensure o.platform.watchdog_ready t)
            (λ _ t₂ k₂. keeps_next _ (current o r t₂) (λ _ t₃ k₃. k₃) (current-Keeps r t₂ k₂))
            (ensure-Keeps o.platform.watchdog_ready t k))
        (begin_journal-Keeps r _ h)

  pub activate_step-Keeps : Keeps (activate_step o)
  unfolding activate_step
  activate_step-Keeps s h =
      then_insist (s.prepared && not s.activated && not s.committed && not s.restored) _ _ h (
        then_option s.target _ _ h (λ p.
          keeps_next _ (load_journal o s)
            (λ old t k. then_option old _ _ k (λ r.
              keeps_next _ (current o r t)
                (λ _ t₂ k₂.
                  keeps_next _ (safety_checks o p t₂)
                    (λ _ t₃ k₃.
                      keeps_next _ (open_files o t₃)
                        (λ _ t₄ k₄.
                          keeps_next _ (back_up o t₄)
                            (λ before t₅ k₅. then_insist (same_file before r) _ _ k₅ (
                              keeps_next _ (current o r t₅)
                                (λ _ t₆ k₆.
                                  keeps_next _ (replace_file o s.candidate t₆)
                                    (λ _ t₇ k₇.
                                      keeps_next _ (ensure (o.platform.apply_target p) t₇)
                                        (λ _ t₈ k₈. after_apply r s.candidate t₈ k₈)
                                        (ensure-Keeps (o.platform.apply_target p) t₇ k₇))
                                    (replace_file-Keeps s.candidate t₆ k₆))
                                (current-Keeps r t₅ k₅)))
                            (back_up-Keeps t₄ k₄))
                        (open_files-Keeps t₃ k₃))
                    (safety_checks-Keeps p t₂ k₂))
                (current-Keeps r t k)))
            (load_journal-Keeps s h)))

  first_attempt {κ} :
      {B : Type κ} (b : Bool) (next : Unit {0} → Step E B) (s : Managed E)
      → s.attempted ≡ b
      → Attempted (next tt s)
      → Attempted (pass_on next (insist (not b) s))
  first_attempt true next s h k = h
  first_attempt false next s h k = k

  -- A preparation always leaves the backend used, whether it succeeds or not.
  pub prepare_step-Attempted :
      (p : WifiProfile) (lifetime : ℕ) (s : Managed E) → Attempted (prepare_step o p lifetime s)
  unfolding prepare_step
  prepare_step-Attempted p lifetime s = first_attempt s.attempted _ s refl (
      then_insist (not (lifetime == 0) && leb lifetime 90) _ _ refl (
        then_option (make_wifi_config_draft p) _ _ refl (λ d.
          then_option (read_wifi_config_draft o.derive d.netplan_yaml) _ _ refl (λ q.
            keeps_next _ (safety_checks o q _)
              (λ _ t k.
                keeps_next _ (load_journal o t)
                  (λ old t₂ k₂. then_insist (no_pending old) _ _ k₂ (
                    keeps_next _ (open_files o t₂)
                      (λ _ t₃ k₃.
                        keeps_next _ (back_up o t₃)
                          (λ previous t₄ k₄.
                            keeps_next _ (inherit o q previous t₄)
                              (λ _ t₅ k₅. then_option (o.clock t₅.world.1).0 _ _ k₅ (λ now.
                                then_option (o.random (o.clock t₅.world.1).1).0 _ _ k₅ (λ random.
                                  own_journal (fresh_record o random lifetime now previous)
                                    (record t₅ {
                                      world = (t₅.world.0, (o.random (o.clock t₅.world.1).1).1);
                                    })
                                    k₅)))
                              (inherit-Keeps q previous t₄ k₄))
                          (back_up-Keeps t₃ k₃))
                      (open_files-Keeps t₂ k₂)))
                  (load_journal-Keeps t k))
              (safety_checks-Keeps q _ refl)))))
