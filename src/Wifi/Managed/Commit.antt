-- ===== src/Wifi/Managed/Commit.antt =====
-- What a confirmation of server/src/wifi_managed_backend.cpp that succeeds has made sure of.
use encoder_next.Prelude.{
  ℕ, ◌≡◌, refl, sym, ap, ◌∙◌, true, not, ◌&&◌, Option, none, some, Bytes, bytes_eq_sound, ok,
}
use mathlib.Core.Path.{subst}
use encoder_next.Wifi.Backend.{WifiProfile}
use encoder_next.Wifi.Journal.{Disk, Faults, load, commit}
use encoder_next.Wifi.Netplan.{ManagedFile, backup}
use encoder_next.Wifi.Netplan.Undo.{backup-same}
use encoder_next.Wifi.Draft.{WifiConfigDraft, make_wifi_config_draft}
use encoder_next.Wifi.Managed.State.{
  Surroundings, Managed, Step, insist, act, ensure, ◌>>=◌, ◌>>◌, pass_on_inv, insist_step,
  or_fail_step, or_error_step, or_error_last, KeepsJournal, bind-KeepsJournal, insist-KeepsJournal,
  keeps_next, then-KeepsJournal, or_error-KeepsJournal, same_journal, ensure-KeepsJournal,
}
use encoder_next.Wifi.Managed.Recovery.{
  is_live, netplan_reader, holds, back_up, confirm, managed_commit, load_journal, open_files,
}
use encoder_next.Wifi.Managed.{
  safety_checks, live_checks, is_ready, commit_step, forget_target, managed_backend, done,
}

holds_file :
    (d : WifiConfigDraft) (file : ManagedFile) → holds d file ≡ true → file ≡ some d.netplan_yaml
holds_file d none h = absurd (cc h)
holds_file d (some bytes) h = ap some (bytes_eq_sound bytes d.netplan_yaml h)

module _ {E : Type 0} (o : Surroundings E) where
  -- The journal was committed for the transaction, and the file is the expected one.
  abbrev pub Confirmed : WifiConfigDraft → Bytes → Disk → Managed E → Type 0
  Confirmed expected transaction journal s' =
      (f : Faults) × (boot : Bytes) × (now : ℕ) × ((commit o.checksum f transaction boot now
          journal).0
        ≡ ok tt)
      × (s'.journal ≡ (commit o.checksum f transaction boot now journal).1)
      × (s'.world.0 ≡ some expected.netplan_yaml)

  confirm_inv :
      (expected : WifiConfigDraft) (transaction : Bytes) (s s' : Managed E)
      → confirm o expected transaction s ≡ (some tt, s')
      → Confirmed expected transaction s.journal s'
  unfolding confirm
  confirm_inv expected transaction s s' h =
      let (faults, e) = o.netplan_faults s.world.1 in
      let (file, read, rest) = or_error_step (backup (netplan_reader o) faults s.world.0) _ _ h in
      let (held, rest₂) = insist_step (holds expected file) _ _ rest in
      let (now, _, rest₃) = or_fail_step (o.clock e).0 _ _ rest₂ in
      let (f, e₂) = o.journal_faults (o.clock e).1 in
      let (answer, same) =
        or_error_last (commit o.checksum f transaction now.0 now.1 s.journal).0 _ s' rest₃ in
      let kept =
        backup-same (netplan_reader o) faults s.world.0 file read ∙ holds_file expected file held in
      (
        f,
        now.0,
        now.1,
        answer,
        ap (λ x. x.journal) (sym same),
        ap (λ x. x.world.0) (sym same) ∙ kept,
      )

  load_journal-KeepsJournal : KeepsJournal (load_journal o)
  load_journal-KeepsJournal s =
      keeps_next _ (insist (o.lock_journal s.world.1).0 _) s.journal
        (λ _ t. or_error-KeepsJournal (load o.checksum (o.journal_faults t.world.1).0 t.journal) _)
        (insist-KeepsJournal (o.lock_journal s.world.1).0 _)

  open_files-KeepsJournal : KeepsJournal (open_files o)
  open_files-KeepsJournal s =
      insist-KeepsJournal (not (o.netplan_faults s.world.1).0.unsafe_directory) _

  back_up-KeepsJournal : KeepsJournal (back_up o)
  back_up-KeepsJournal s =
      or_error-KeepsJournal (backup (netplan_reader o) (o.netplan_faults s.world.1).0 s.world.0) _

  managed_commit_inv :
      (transaction : Bytes) (target : WifiProfile) (verify_live : Step E (Unit {0}))
      (s s' : Managed E)
      → KeepsJournal verify_live
      → managed_commit o transaction target verify_live s ≡ (some tt, s')
      → (d : WifiConfigDraft) × (make_wifi_config_draft target ≡ some d)
        × Confirmed d transaction s.journal s'
  unfolding managed_commit
  managed_commit_inv transaction target verify_live s s' keeps h =
      let (old, s₁, e₁, h₁) = pass_on_inv _ (load_journal o s) h in
      let (now, _, h₂) = or_fail_step (o.clock s₁.world.1).0 _ _ h₁ in
      let (r, _, h₃) = or_fail_step old _ _ h₂ in
      let (live, h₄) = insist_step (is_live transaction now r) _ _ h₃ in
      let (_, s₂, e₂, h₅) = pass_on_inv _ (open_files o _) h₄ in
      let (file, s₃, e₃, h₆) = pass_on_inv _ (back_up o s₂) h₅ in
      let (d, made, h₇) = or_fail_step (make_wifi_config_draft target) _ _ h₆ in
      let (_, h₈) = insist_step (holds d file) _ _ h₇ in
      let (_, s₄, e₄, h₉) = pass_on_inv _ (verify_live s₃) h₈ in
      let journal : s₄.journal ≡ s.journal =
        same_journal verify_live s₃ s₄ _ keeps e₄
        ∙ same_journal (back_up o) s₂ s₃ _ back_up-KeepsJournal e₃
        ∙ same_journal (open_files o) _ s₂ _ open_files-KeepsJournal e₂
        ∙ same_journal (load_journal o) s s₁ _ load_journal-KeepsJournal e₁ in
      (
        d,
        made,
        subst (λ j. Confirmed d transaction j s') journal (confirm_inv d transaction s₄ s' h₉),
      )

  live_checks-KeepsJournal : (p : WifiProfile) → KeepsJournal (live_checks o p)
  live_checks-KeepsJournal p =
      then-KeepsJournal (safety_checks o p)
        (act (o.platform.probe_target p) >>= (λ link. insist (is_ready link)))
        (then-KeepsJournal (ensure o.platform.ethernet_ready)
          (ensure (o.platform.preflight p) >> ensure o.platform.watchdog_ready)
          (ensure-KeepsJournal o.platform.ethernet_ready)
          (then-KeepsJournal (ensure (o.platform.preflight p)) (ensure o.platform.watchdog_ready)
            (ensure-KeepsJournal (o.platform.preflight p))
            (ensure-KeepsJournal o.platform.watchdog_ready)))
        (bind-KeepsJournal (act (o.platform.probe_target p)) (λ link. insist (is_ready link))
          (λ s. refl) (λ link. insist-KeepsJournal (is_ready link)))

  -- What was true before, and what the confirmation left.
  abbrev pub Committed : Managed E → Managed E → Type 0
  Committed s s' =
      (p : WifiProfile) × (d : WifiConfigDraft) × ((s.activated
          && not s.committed
          && not s.restored)
        ≡ true)
      × (s.target ≡ some p)
      × (make_wifi_config_draft p ≡ some d)
      × Confirmed d s.transaction s.journal s'
      × (s'.committed ≡ true)
      × (s'.target ≡ none)

  commit_step-Committed : (s s' : Managed E) → commit_step o s ≡ (some tt, s') → Committed s s'
  unfolding commit_step
  commit_step-Committed s s' h =
      let (fit, h₁) = insist_step (s.activated && not s.committed && not s.restored) _ _ h in
      let (p, target, h₂) = or_fail_step s.target _ _ h₁ in
      let (_, s₁, e, h₃) =
        pass_on_inv _ (managed_commit o s.transaction p (live_checks o p) s) h₂ in
      let (d, made, (f, boot, now, answer, journal, file)) =
        managed_commit_inv s.transaction p (live_checks o p) s s₁ (live_checks-KeepsJournal p) e in
      let same : forget_target o (record s₁ { committed = true }) ≡ s' = ap (λ x. x.1) h₃ in
      (
        p,
        d,
        fit,
        target,
        made,
        (
          f,
          boot,
          now,
          answer,
          ap (λ x. x.journal) (sym same) ∙ journal,
          ap (λ x. x.world.0) (sym same) ∙ file,
        ),
        ap (λ x. x.committed) (sym same),
        ap (λ x. x.target) (sym same),
      )

  answered : (r : Option (Unit {0}) × Managed E) → done r.0 ≡ true → r ≡ (some tt, r.1)
  answered (none, s) h = absurd (cc h)
  answered (some u, s) h = refl

  -- A confirmation that the backend reports was made for a change that it had activated and neither
  -- confirmed nor undone; the journal was committed for its own transaction, by the journal's rules; at
  -- the end the managed file is exactly the document of the target, whatever the platform did to it in
  -- between; and the target with its key is forgotten.
  pub commit-Committed :
      (s : Managed E)
      → ((managed_backend o).commit s).0 ≡ true
      → Committed s ((managed_backend o).commit s).1
  unfolding managed_backend
  commit-Committed s h = commit_step-Committed s _ (answered (commit_step o s) h)
