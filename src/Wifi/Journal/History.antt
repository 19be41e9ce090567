-- ===== src/Wifi/Journal/History.antt =====
-- Whole histories of the journal of server/src/wifi_journal.cpp.
use mathlib.Core.Path.{subst}
use encoder_next.Prelude.{
  ℕ, ◌≡◌, refl, Bool, false, Option, none, some, List, [], ◌∷◌, Bytes, ok, arith,
}
use encoder_next.Wifi.Journal.Record.{RecoveryRecord, pending}
use encoder_next.Wifi.Journal.Record.RoundTrip.{IsRecord}
use encoder_next.Wifi.Journal.Durability.{IsDigest}
use encoder_next.Wifi.Journal.Transitions.{
  View, Transition, stays, begins, commits, restores, Shows, Moves, begin-Moves, commit-Moves,
  recover_due-Moves, cancel-Moves,
}
use encoder_next.Wifi.Journal.{
  Faults, Disk, no_faults, is_pending, load, begin, commit, recover_due, cancel,
}

pub data Call : Type 0 where
  call_begin : Faults → RecoveryRecord → Call
  call_commit : Faults → Bytes → Bytes → ℕ → Call
  call_recover : Faults → Bytes → ℕ → Call
  call_cancel : Faults → Bytes → Bytes → Call

-- A new transaction is a record whose sizes fit the format; no other call needs a condition.
abbrev pub IsCall : Call → Type 0
IsCall (call_begin f r) = IsRecord r
IsCall _ = Unit {0}

abbrev pub AllCalls : List Call → Type 0
AllCalls [] = Unit {0}
AllCalls (c ∷ cs) = IsCall c × AllCalls cs

-- The disk after a history that began with the first view.
pub data Reaches (v : View) : View → Type 0 where
  here : Reaches v v
  more : {w x : View} → Reaches v w → Transition w x → Reaches v x

-- A settled record holds no backup.
abbrev pub IsErased : View → Type 0
IsErased none = Unit {0}
IsErased (some r) = is_pending r.phase ≡ false → r.previous ≡ []

pending_not :
    (r : RecoveryRecord) → r.phase ≡ pending → is_pending r.phase ≡ false → r.previous ≡ []
pending_not r p q = ground arith

Transition-IsErased : {v w : View} → Transition v w → IsErased v → IsErased w
Transition-IsErased (stays v) h = h
Transition-IsErased (begins v r s p) h = λ q. pending_not r p q
Transition-IsErased (commits r p) h = λ q. refl
Transition-IsErased (restores r p) h = λ q. refl

Reaches-IsErased : {v w : View} → IsErased v → Reaches v w → IsErased w
Reaches-IsErased h here = h
Reaches-IsErased h (more r t) = Transition-IsErased t (Reaches-IsErased h r)

module _ {E : Type 0} (checksum : Bytes → Option Bytes)
    (restore : RecoveryRecord → E → Bool × E) where
  unfoldable pub serve : Call → Disk × E → Disk × E
  serve (call_begin f r) (d, e) = ((begin checksum f r d).1, e)
  serve (call_commit f transaction boot now) (d, e) =
      ((commit checksum f transaction boot now d).1, e)
  serve (call_recover f boot now) (d, e) =
      let (outcome, d', e') = recover_due checksum restore f boot now d e in (d', e')
  serve (call_cancel f transaction boot) (d, e) =
      let (outcome, d', e') = cancel checksum restore f transaction boot d e in (d', e')

  unfoldable pub serve_all : List Call → Disk × E → Disk × E
  serve_all [] s = s
  serve_all (c ∷ cs) s = serve_all cs (serve c s)

  module _ (sha : IsDigest checksum) where
    serve-Moves :
        (c : Call) (s : Disk × E) (v : View)
        → IsCall c
        → Shows checksum s.0 v
        → Moves checksum v (serve c s).0
    unfolding serve
    serve-Moves (call_begin f r) s v i h = begin-Moves checksum sha f r s.0 v i h
    serve-Moves (call_commit f t b n) s v i h = commit-Moves checksum sha f t b n s.0 v h
    serve-Moves (call_recover f b n) s v i h =
        recover_due-Moves checksum sha restore f b n s.0 s.1 v h
    serve-Moves (call_cancel f t b) s v i h = cancel-Moves checksum sha restore f t b s.0 s.1 v h

    serve_all-Reaches :
        (cs : List Call) (s : Disk × E) (v w : View)
        → AllCalls cs
        → Shows checksum s.0 w
        → Reaches v w
        → (x : View) × Shows checksum (serve_all cs s).0 x × Reaches v x
    unfolding serve_all
    serve_all-Reaches [] s v w i h r = (w, h, r)
    serve_all-Reaches (c ∷ cs) s v w i h r =
        let (x, shown, t) = serve-Moves c s w i.0 h in
        serve_all-Reaches cs (serve c s) v x i.1 shown (more r t)

    -- If digests have 32 bytes and each `begin` is given a valid record with a deadline of 64 bits:
    -- after any calls on an empty directory, with any operating-system failures and any restore
    -- callback, an undisturbed reading of the journal succeeds, and it gives what some sequence of
    -- the journal's transitions leads to: a pending record is never replaced by another, and goes
    -- only to committed or restored.
    pub serve_all_refines :
        (cs : List Call) (e : E)
        → AllCalls cs
        → (v : View) × (load checksum no_faults (serve_all cs (none, e)).0 ≡ ok v) × Reaches none v
    unfolding load
    serve_all_refines cs e i =
        let (v, shown, r) = serve_all-Reaches cs (none, e) none none i (refl, tt) here in
        (v, shown.0, r)

    -- If digests have 32 bytes and each `begin` is given a valid record with a deadline of 64 bits,
    -- no history from an empty directory leaves the backup, with its credentials, in a journal that
    -- is settled and can be read.
    pub serve_all_erased :
        (cs : List Call) (e : E) (r : RecoveryRecord)
        → AllCalls cs
        → load checksum no_faults (serve_all cs (none, e)).0 ≡ ok (some r)
        → is_pending r.phase ≡ false
        → r.previous ≡ []
    serve_all_erased cs e r i h settled =
        let (v, shown, reached) = serve_all_refines cs e i in
        let same : v ≡ some r = cc in subst IsErased same (Reaches-IsErased tt reached) settled
