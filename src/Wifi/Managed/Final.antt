-- ===== src/Wifi/Managed/Final.antt =====
-- A change that server/src/wifi_managed_backend.cpp has confirmed stays, whatever is asked of it.
use encoder_next.Prelude.{
  ℕ, ◌≡◌, refl, ap, ◌⊎◌, inl, inr, Bool, true, false, not, ◌&&◌, none, List, [], ◌∷◌, arith,
}
use encoder_next.Wifi.Backend.{WifiProfile, failed}
use encoder_next.Wifi.Journal.{Disk}
use encoder_next.Wifi.Managed.State.{World, Surroundings, Managed, Step, insist, pass_on}
use encoder_next.Wifi.Managed.Recovery.{managed_cancel}
use encoder_next.Wifi.Managed.{
  prepare_step, activate_step, commit_step, rollback_step, undo_step, probe, managed_backend,
  answers, or_failed,
}
use encoder_next.Wifi.Managed.Commit.{commit-Committed}
use encoder_next.Wifi.Managed.Attempted.{
  prepare_step-Attempted, activate_step-Keeps, commit_step-Keeps, probe_step-Keeps,
  rollback_step-Keeps,
}

-- The operations of the backend.
pub data Call : Type 0 where
  ethernet_recovery_available : Call
  prepare : WifiProfile → ℕ → Call
  activate probe_link commit rollback : Call

no_more :
    (prepared activated committed restored : Bool)
    → committed ≡ true
    → ((prepared && not activated && not committed && not restored) ≡ false)
      × ((activated && not committed && not restored) ≡ false)
no_more prepared activated committed restored c = (ground arith, ground arith)

module _ {E : Type 0} where
  -- A backend as it is constructed.
  abbrev pub new : Disk → World E → Managed E
  new journal world = record {
    attempted = false;
    prepared = false;
    activated = false;
    committed = false;
    restored = false;
    transaction = [];
    target = none;
    candidate = [];
    journal = journal;
    world = world;
  }

module _ {E : Type 0} (o : Surroundings E) where
  unfoldable pub serve : Call → Managed E → Managed E
  serve ethernet_recovery_available s = ((managed_backend o).ethernet_recovery_available s).1
  serve (prepare profile lifetime) s = ((managed_backend o).prepare profile lifetime s).1
  serve activate s = ((managed_backend o).activate s).1
  serve probe_link s = ((managed_backend o).probe s).1
  serve commit s = ((managed_backend o).commit s).1
  serve rollback s = ((managed_backend o).rollback s).1

  unfoldable pub serve_all : List Call → Managed E → Managed E
  serve_all [] s = s
  serve_all (call ∷ calls) s = serve_all calls (serve call s)

  -- What the platform makes of the machine while it is asked whether Ethernet is ready.
  abbrev asked_by : Call → World E → World E
  asked_by ethernet_recovery_available w = (o.platform.ethernet_ready w).1
  asked_by (prepare profile lifetime) w = w
  asked_by activate w = w
  asked_by probe_link w = w
  asked_by commit w = w
  asked_by rollback w = w

  abbrev pub asked : List Call → World E → World E
  asked [] w = w
  asked (call ∷ calls) w = asked calls (asked_by call w)

  refused {κ} :
      {B : Type κ} (t : Bool) (next : Unit {0} → Step E B) (s : Managed E)
      → t ≡ false
      → pass_on next (insist t s) ≡ (none, s)
  refused t next s h = rw h refl

  -- Used already, or nothing prepared yet.
  abbrev UsedOnce : Managed E → Type 0
  UsedOnce s = (s.attempted ≡ true) ⊎ ((s.prepared ≡ false) × (s.activated ≡ false))

  used : (call : Call) (s : Managed E) → s.attempted ≡ true → (serve call s).attempted ≡ true
  unfolding serve managed_backend probe
  used ethernet_recovery_available s a = ground arith
  used (prepare profile lifetime) s a = prepare_step-Attempted o profile lifetime s
  used activate s a = activate_step-Keeps o s a
  used probe_link s a = probe_step-Keeps o s a
  used commit s a = commit_step-Keeps o s a
  used rollback s a = rollback_step-Keeps o s a

  unused :
      (call : Call) (s : Managed E)
      → s.prepared ≡ false
      → s.activated ≡ false
      → UsedOnce (serve call s)
  unfolding serve managed_backend probe activate_step commit_step rollback_step undo_step
      managed_cancel
  unused ethernet_recovery_available s p a = inr (ground arith, ground arith)
  unused (prepare profile lifetime) s p a = inl (prepare_step-Attempted o profile lifetime s)
  unused activate s p a = rw p (inr (refl, a))
  unused probe_link s p a = rw a (inr (p, refl))
  unused commit s p a = rw a (inr (p, refl))
  unused rollback s p a = inr (ground arith, ground arith)

  serve-UsedOnce : (call : Call) (s : Managed E) → UsedOnce s → UsedOnce (serve call s)
  serve-UsedOnce call s (inl a) = inl (used call s a)
  serve-UsedOnce call s (inr (p, a)) = unused call s p a

  serve_all-UsedOnce :
      (calls : List Call) (s : Managed E) → UsedOnce s → UsedOnce (serve_all calls s)
  unfolding serve_all
  serve_all-UsedOnce [] s u = u
  serve_all-UsedOnce (call ∷ calls) s u =
      serve_all-UsedOnce calls (serve call s) (serve-UsedOnce call s u)

  -- All refusals of a confirmed backend.
  abbrev pub Refuses : Managed E → Type 0
  Refuses s =
      ((profile : WifiProfile) (lifetime : ℕ)
        → ((managed_backend o).prepare profile lifetime s).0 ≡ false)
      × (((managed_backend o).activate s).0 ≡ false)
      × (((managed_backend o).probe s).0 ≡ failed)
      × (((managed_backend o).commit s).0 ≡ false)
      × (((managed_backend o).rollback s).0 ≡ false)

  module _ (s : Managed E) (a : s.attempted ≡ true) (c : s.committed ≡ true) where
    prepare_refused :
        (profile : WifiProfile) (lifetime : ℕ) → prepare_step o profile lifetime s ≡ (none, s)
    unfolding prepare_step
    prepare_refused profile lifetime =
        let again : not s.attempted ≡ false = rw a refl in refused (not s.attempted) _ s again

    activate_refused : activate_step o s ≡ (none, s)
    unfolding activate_step
    activate_refused =
        refused (s.prepared && not s.activated && not s.committed && not s.restored) _ s
          (no_more s.prepared s.activated s.committed s.restored c).0

    probe_refused : probe o s ≡ (failed, s)
    unfolding probe
    probe_refused =
        ap (λ r. (or_failed o r.0, r.1))
          (refused (s.activated && not s.committed && not s.restored) _ s
            (no_more s.prepared s.activated s.committed s.restored c).1)

    commit_refused : commit_step o s ≡ (none, s)
    unfolding commit_step
    commit_refused =
        refused (s.activated && not s.committed && not s.restored) _ s
          (no_more s.prepared s.activated s.committed s.restored c).1

    rollback_refused : rollback_step o s ≡ (none, s)
    unfolding rollback_step
    rollback_refused = rw c refl

    confirmed-Refuses : Refuses s
    unfolding managed_backend
    confirmed-Refuses = (
      λ profile lifetime. ap (λ r. (answers o r).0) (prepare_refused profile lifetime),
      ap (λ r. (answers o r).0) activate_refused,
      ap (λ r. r.0) probe_refused,
      ap (λ r. (answers o r).0) commit_refused,
      ap (λ r. (answers o r).0) rollback_refused,
    )

    serve_same : (call : Call) → serve call s ≡ record s { world = asked_by call s.world }
    unfolding serve managed_backend
    serve_same ethernet_recovery_available = ground arith
    serve_same (prepare profile lifetime) = ap (λ r. r.1) (prepare_refused profile lifetime)
    serve_same activate = ap (λ r. r.1) activate_refused
    serve_same probe_link = ap (λ r. r.1) probe_refused
    serve_same commit = ap (λ r. r.1) commit_refused
    serve_same rollback = ap (λ r. r.1) rollback_refused

  serve_all_same :
      (calls : List Call) (s : Managed E)
      → s.attempted ≡ true
      → s.committed ≡ true
      → serve_all calls s ≡ record s { world = asked calls s.world }
  unfolding serve_all
  serve_all_same [] s a c = refl
  serve_all_same (call ∷ calls) s a c =
      rw (serve_same s a c call)
        (serve_all_same calls (record s { world = asked_by call s.world }) a c)

  activated-used :
      (s : Managed E)
      → s.activated && not s.committed && not s.restored ≡ true
      → UsedOnce s
      → s.attempted ≡ true
  activated-used s fit (inl a) = a
  activated-used s fit (inr (p, a)) = absurd (cc (rw a at fit))

  -- After any calls of a new backend, let a confirmation succeed. Then, after any further calls of any
  -- of its operations, everything is as the confirmation left it, in the backend's state, the journal
  -- and the rest of what stands outside, but for what the platform itself does when it is asked whether
  -- Ethernet is ready, and but for the text of the last error, which is not modelled; and a preparation, an activation, a probe, a confirmation and a rollback are
  -- refused.
  pub committed_stays :
      (before after : List Call) (journal : Disk) (world : World E)
      → ((managed_backend o).commit (serve_all before (new journal world))).0 ≡ true
      → let s = ((managed_backend o).commit (serve_all before (new journal world))).1 in
        (serve_all after s ≡ record s { world = asked after s.world }) × Refuses (serve_all after s)
  unfolding serve
  committed_stays before after journal world done =
      let s = serve_all before (new journal world) in
      let s' = ((managed_backend o).commit s).1 in
      let (p, d, fit, target, made, confirmed, c, gone) = commit-Committed o s done in
      let a =
        activated-used s fit (serve_all-UsedOnce before (new journal world) (inr (refl, refl))) in
      let a' = used commit s a in
      let same = serve_all_same after s' a' c in
      (same, rw same (confirmed-Refuses (record s' { world = asked after s'.world }) a' c))
