-- ===== src/Wifi/Managed/State.antt =====
-- What `WifiManagedBackend` of server/src/wifi_managed_backend.cpp keeps and works on, and chains of
-- steps on it. A step that fails answers nothing and keeps what was done before it. The texts of
-- `error_` are left out; the journal stays locked from a method's opening of it to the method's end.
use encoder_next.Prelude.{
  ℕ, ◌≡◌, ◌∙◌, ap, sym, refl, Bool, true, false, Option, none, some, Bytes, Result, ok, err,
}
use encoder_next.Wifi.Backend.{WifiProfile, WifiLink}
use encoder_next.Wifi.Journal.{Disk, Faults}
use encoder_next.Wifi.Netplan.{ManagedFile, NetplanFaults}

-- The managed file, and what else stands outside.
abbrev pub World : Type 0 → Type 0
World E = ManagedFile × E

-- `WifiManagedPlatform`: its operations may touch the managed file.
pub record Platform (E : Type 0) : Type 0 where
  pub ethernet_ready : World E → Bool × World E
  pub preflight : WifiProfile → World E → Bool × World E
  pub watchdog_ready : World E → Bool × World E
  pub apply_target : WifiProfile → World E → Bool × World E
  pub probe_target : WifiProfile → World E → WifiLink × World E
  pub restore_network : World E → Bool × World E

-- The rest: `recovery_clock`, `RAND_bytes`, the lock of the journal, what the operating system
-- refuses in the next call, and the two functions of OpenSSL.
pub record Surroundings (E : Type 0) : Type 0 where
  pub platform : Platform E
  pub clock : E → Option (Bytes × ℕ) × E
  pub random : E → Option Bytes × E
  pub lock_journal : E → Bool × E
  pub journal_faults : E → Faults × E
  pub netplan_faults : E → NetplanFaults × E
  pub checksum : Bytes → Option Bytes
  pub derive : Bytes → Bytes → Option Bytes

pub record Managed (E : Type 0) : Type 0 where
  pub attempted : Bool
  pub prepared : Bool
  pub activated : Bool
  pub committed : Bool
  pub restored : Bool
  pub transaction : Bytes
  pub target : Option WifiProfile
  pub candidate : Bytes
  pub journal : Disk
  pub world : World E

abbrev pub Step {ℓ} : Type 0 → Type ℓ → Type ℓ
Step E A = Managed E → Option A × Managed E

module _ {E : Type 0} where
  abbrev pub pass_on {ℓ κ} :
      {A : Type ℓ} {B : Type κ} → (A → Step E B) → Option A × Managed E → Option B × Managed E
  pass_on next (none, s) = (none, s)
  pass_on next (some a, s) = next a s

  infixl 5 ◌>>=◌
  abbrev pub ◌>>=◌ {ℓ κ} : {A : Type ℓ} {B : Type κ} → Step E A → (A → Step E B) → Step E B
  ◌>>=◌ step next s = pass_on next (step s)

  infixl 5 ◌>>◌
  abbrev pub ◌>>◌ {κ} : {B : Type κ} → Step E (Unit {0}) → Step E B → Step E B
  ◌>>◌ step next s = pass_on (λ _. next) (step s)

  abbrev pub insist : Bool → Step E (Unit {0})
  insist true s = (some tt, s)
  insist false s = (none, s)

  abbrev pub change : (Managed E → Managed E) → Step E (Unit {0})
  change f s = (some tt, f s)

  abbrev pub reads {ℓ} : {A : Type ℓ} → (Managed E → A) → Step E A
  reads f s = (some (f s), s)

  abbrev pub or_fail {ℓ} : {A : Type ℓ} → Option A → Step E A
  or_fail o s = (o, s)

  abbrev pub or_error {ℓ} : {A : Type ℓ} → Result A → Step E A
  or_error (ok a) s = (some a, s)
  or_error (err message) s = (none, s)

  -- Asking what is outside leaves the file as it is.
  abbrev pub ask {ℓ} : {A : Type ℓ} → (E → A × E) → Step E A
  ask op s = let (a, e) = op s.world.1 in (some a, record s { world = (s.world.0, e) })

  abbrev pub act {ℓ} : {A : Type ℓ} → (World E → A × World E) → Step E A
  act op s = let (a, w) = op s.world in (some a, record s { world = w })

  abbrev pub ensure : (World E → Bool × World E) → Step E (Unit {0})
  ensure op = act op >>= insist

  -- What a chain that answers went through.
  pub pass_on_inv {ℓ κ} :
      {A : Type ℓ} {B : Type κ} (next : A → Step E B) (o : Option A × Managed E) {b : B}
      {s' : Managed E}
      → pass_on next o ≡ (some b, s')
      → (a : A) × (s : Managed E) × (o ≡ (some a, s)) × (next a s ≡ (some b, s'))
  pass_on_inv next (none, s) h = absurd (cc h)
  pass_on_inv next (some a, s) h = (a, s, refl, h)

  pub insist_step {κ} :
      {B : Type κ} (t : Bool) (next : Unit {0} → Step E B) (s : Managed E) {b : B} {s' : Managed E}
      → pass_on next (insist t s) ≡ (some b, s')
      → (t ≡ true) × (next tt s ≡ (some b, s'))
  insist_step true next s h = (refl, h)
  insist_step false next s h = absurd (cc h)

  pub or_fail_step {ℓ κ} :
      {A : Type ℓ} {B : Type κ} (o : Option A) (next : A → Step E B) (s : Managed E) {b : B}
      {s' : Managed E}
      → pass_on next (o, s) ≡ (some b, s')
      → (a : A) × (o ≡ some a) × (next a s ≡ (some b, s'))
  or_fail_step none next s h = absurd (cc h)
  or_fail_step (some a) next s h = (a, refl, h)

  pub or_error_step {ℓ κ} :
      {A : Type ℓ} {B : Type κ} (r : Result A) (next : A → Step E B) (s : Managed E) {b : B}
      {s' : Managed E}
      → pass_on next (or_error r s) ≡ (some b, s')
      → (a : A) × (r ≡ ok a) × (next a s ≡ (some b, s'))
  or_error_step (err message) next s h = absurd (cc h)
  or_error_step (ok a) next s h = (a, refl, h)

  pub or_error_last :
      (r : Result (Unit {0})) (s s' : Managed E)
      → or_error r s ≡ (some tt, s')
      → (r ≡ ok tt) × (s ≡ s')
  or_error_last (err message) s s' h = absurd (cc h)
  or_error_last (ok u) s s' h = (refl, cc h)

  -- A step that leaves the journal as it is.
  abbrev pub KeepsJournal {ℓ} : {A : Type ℓ} → Step E A → Type 0
  KeepsJournal step = (s : Managed E) → (step s).1.journal ≡ s.journal

  pub keeps_next {ℓ κ} :
      {A : Type ℓ} {B : Type κ} (next : A → Step E B) (o : Option A × Managed E) (journal : Disk)
      → ((a : A) → KeepsJournal (next a))
      → o.1.journal ≡ journal
      → (pass_on next o).1.journal ≡ journal
  keeps_next next (none, s) journal f h = h
  keeps_next next (some a, s) journal f h = f a s ∙ h

  pub bind-KeepsJournal {ℓ κ} :
      {A : Type ℓ} {B : Type κ} (step : Step E A) (next : A → Step E B)
      → KeepsJournal step
      → ((a : A) → KeepsJournal (next a))
      → KeepsJournal (step >>= next)
  bind-KeepsJournal step next k f s = keeps_next next (step s) s.journal f (k s)

  pub insist-KeepsJournal : (t : Bool) → KeepsJournal (insist t)
  insist-KeepsJournal true s = refl
  insist-KeepsJournal false s = refl

  pub ensure-KeepsJournal : (op : World E → Bool × World E) → KeepsJournal (ensure op)
  ensure-KeepsJournal op = bind-KeepsJournal (act op) insist (λ s. refl) insist-KeepsJournal

  pub or_error-KeepsJournal {ℓ} : {A : Type ℓ} (r : Result A) → KeepsJournal (or_error r)
  or_error-KeepsJournal (ok a) s = refl
  or_error-KeepsJournal (err message) s = refl

  pub same_journal {ℓ} :
      {A : Type ℓ} (step : Step E A) (s s' : Managed E) (r : Option A)
      → KeepsJournal step
      → step s ≡ (r, s')
      → s'.journal ≡ s.journal
  same_journal step s s' r k h = ap (λ x. x.1.journal) (sym h) ∙ k s

  pub then-KeepsJournal {κ} :
      {B : Type κ} (step : Step E (Unit {0})) (next : Step E B)
      → KeepsJournal step
      → KeepsJournal next
      → KeepsJournal (step >> next)
  then-KeepsJournal step next k f s = keeps_next (λ _. next) (step s) s.journal (λ _. f) (k s)
