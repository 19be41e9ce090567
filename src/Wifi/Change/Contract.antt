-- ===== src/Wifi/Change/Contract.antt =====
-- Every history of common/src/wifi_change.cpp keeps to the adapter's contract.
use encoder_next.Prelude.{ℕ, ◌≡◌, refl, false, none, some, List, [], ◌∷◌, Bytes, ◌⊎◌, arith}
use encoder_next.Wifi.Backend.{WifiChangeBackend}
use encoder_next.Wifi.Change.{
  WifiChange, fresh, is_pending, revert, start, tick, confirm, settle, cancel, destroy,
}
use encoder_next.Wifi.Change.Protocol.{
  Call, recorded, phase, phase_of, untouched, settled, restored, unresolved,
}
use encoder_next.Wifi.Change.History.{
  Request, starts, ticks, confirms, cancels, destroys, serve, serve_all,
}

-- The log stands where the state of the change says.
abbrev pub InPhase : {E : Type 0} → WifiChange → E × List Call → Type 0
InPhase c s = phase s.1 ≡ phase_of c.state

module _ {E : Type 0} (backend : WifiChangeBackend E) where
  tick-InPhase :
      (now : ℕ) (c : WifiChange) (s : E × List Call)
      → InPhase c s
      → let r = tick (recorded backend) now c s in InPhase r.0 r.1
  unfolding tick recorded revert
  tick-InPhase now c s h = ground arith

  settle-InPhase :
      (ticket : Bytes) (c : WifiChange) (s : E × List Call)
      → InPhase c s
      → let r = settle (recorded backend) ticket c s in InPhase r.1 r.2
  unfolding settle recorded revert
  settle-InPhase ticket c s h = ground arith

  serve-InPhase :
      (r : Request) (c : WifiChange) (s : E × List Call)
      → InPhase c s
      → let t = serve (recorded backend) r c s in InPhase t.0 t.1
  unfolding serve start confirm cancel destroy recorded revert
  serve-InPhase (starts p none now) c s h = ground arith
  serve-InPhase (starts p (some r) now) c s h = ground arith
  serve-InPhase (ticks now) c s h = tick-InPhase now c s h
  serve-InPhase (confirms ticket now) c s h =
      let t = tick (recorded backend) now c s in
      settle-InPhase ticket t.0 t.1 (tick-InPhase now c s h)
  serve-InPhase cancels c s h = ground arith
  serve-InPhase destroys c s h = ground arith

  serve_all-InPhase :
      (rs : List Request) (c : WifiChange) (s : E × List Call)
      → InPhase c s
      → let t = serve_all (recorded backend) rs c s in InPhase t.0 t.1
  unfolding serve_all
  serve_all-InPhase [] c s h = h
  serve_all-InPhase (r ∷ rs) c s h =
      let t = serve (recorded backend) r c s in serve_all-InPhase rs t.0 t.1 (serve-InPhase r c s h)

  -- With any adapter and after any requests to a new change, the adapter's log stands in the phase
  -- that the change's state names: it was prepared at most once, activated only once prepared,
  -- probed and committed only while active, and rolled back exactly where a call failed or the
  -- change was given up.
  pub serve_all-phase :
      (rs : List Request) (e : E)
      → let t = serve_all (recorded backend) rs fresh (e, []) in phase t.1.1 ≡ phase_of t.0.state
  serve_all-phase rs e = serve_all-InPhase rs fresh (e, []) refl

  destroy_not_pending :
      (c : WifiChange) (s : E × List Call)
      → is_pending (destroy (recorded backend) c s).0.state ≡ false
  unfolding destroy revert recorded
  destroy_not_pending c s = ground arith

  -- Whatever was requested before, once the owner is gone the adapter's log ends in one of four
  -- ways: nothing was ever prepared, the change was committed, it was rolled back, or its rollback
  -- was tried and refused. No change stays prepared or active behind its owner.
  pub destroy_leaves_nothing_open :
      (rs : List Request) (e : E)
      → let t = serve_all (recorded backend) rs fresh (e, []) in
        let p = phase (destroy (recorded backend) t.0 t.1).1.1 in
        (p ≡ untouched) ⊎ ((p ≡ settled) ⊎ ((p ≡ restored) ⊎ (p ≡ unresolved)))
  destroy_leaves_nothing_open rs e =
      let t = serve_all (recorded backend) rs fresh (e, []) in
      let after : InPhase (destroy (recorded backend) t.0 t.1).0
          (destroy (recorded backend) t.0 t.1).1 =
        unfold serve in serve-InPhase destroys t.0 t.1 (serve_all-phase rs e) in
      ground (arith, after, destroy_not_pending t.0 t.1)
