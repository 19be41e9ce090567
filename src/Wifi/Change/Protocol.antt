-- ===== src/Wifi/Change/Protocol.antt =====
-- The calls that common/src/wifi_change.cpp makes of its adapter, and their order.
-- `recorded` is any adapter with a log beside its state; `phase` reads a log.
use encoder_next.Prelude.{Bool, if◌then◌else◌, List, [], ◌∷◌}
use encoder_next.Wifi.Backend.{
  WifiChangeState, WifiChangeBackend, idle, connecting, awaiting_confirmation, committed,
  rolled_back, recovery_required,
}

-- A call that changes the machine, with its answer; a probe changes nothing.
pub data Call : Type 0 where
  prepares activates commits rolls_back : Bool → Call
  probes : Call

-- The log of a backend, the last call first.
unfoldable pub recorded : {E : Type 0} → WifiChangeBackend E → WifiChangeBackend (E × List Call)
recorded b = record {
  ethernet_recovery_available =
      λ s. let (ok, e) = b.ethernet_recovery_available s.0 in (ok, (e, s.1));
  prepare = λ p n s. let (ok, e) = b.prepare p n s.0 in (ok, (e, prepares ok ∷ s.1));
  activate = λ s. let (ok, e) = b.activate s.0 in (ok, (e, activates ok ∷ s.1));
  probe = λ s. let (link, e) = b.probe s.0 in (link, (e, probes ∷ s.1));
  commit = λ s. let (ok, e) = b.commit s.0 in (ok, (e, commits ok ∷ s.1));
  rollback = λ s. let (ok, e) = b.rollback s.0 in (ok, (e, rolls_back ok ∷ s.1));
}

-- What the adapter's contract allows next. `broken`: a call failed and a rollback is owed.
pub data Phase : Type 0 where
  untouched prepared active broken settled restored unresolved violated : Phase

abbrev pub advance : Call → Phase → Phase
advance (prepares ok) untouched = if ok then prepared else broken
advance (activates ok) prepared = if ok then active else broken
advance probes active = active
advance (commits ok) active = if ok then settled else broken
advance (rolls_back ok) active = if ok then restored else unresolved
advance (rolls_back ok) broken = if ok then restored else unresolved
advance _ _ = violated

abbrev pub phase : List Call → Phase
phase [] = untouched
phase (c ∷ cs) = advance c (phase cs)

-- The phase that each state of a change stands for.
abbrev pub phase_of : WifiChangeState → Phase
phase_of idle = untouched
phase_of connecting = active
phase_of awaiting_confirmation = active
phase_of committed = settled
phase_of rolled_back = restored
phase_of recovery_required = unresolved
