-- ===== src/Wifi/Change/Window.antt =====
-- The 90 seconds of common/src/wifi_change.cpp, and what ends a change for good.
use encoder_next.Prelude.{
  ℕ, ◌+◌, ◌≤◌, ◌<◌, ◌≡◌, ◌↔◌, refl, ◌∙◌, true, false, Option, none, some, List, [], ◌∷◌, Bytes,
  bytes_eq_sound, bytes_eq_refl, arith,
}
use encoder_next.Wifi.Backend.{WifiProfile, WifiChangeBackend, ready}
use encoder_next.Wifi.Change.{
  WifiChange, is_pending, is_idle, window, revert, start, tick, confirm, settle, cancel, destroy,
}
use encoder_next.Wifi.Change.History.{
  Request, starts, ticks, confirms, cancels, destroys, serve, serve_all,
}

module _ {E : Type 0} (backend : WifiChangeBackend E) where
  -- A call keeps the deadline of a change that is under way or over.
  serve-deadline :
      (r : Request) (c : WifiChange) (e : E)
      → is_idle c.state ≡ false
      → let t = serve backend r c e in (is_idle t.0.state ≡ false) × (t.0.deadline ≡ c.deadline)
  unfolding serve start tick confirm settle cancel destroy revert
  serve-deadline (starts p random now) c e h = ground arith
  serve-deadline (ticks now) c e h = ground arith
  serve-deadline (confirms ticket now) c e h = ground arith
  serve-deadline cancels c e h = ground arith
  serve-deadline destroys c e h = ground arith

  serve_all-deadline :
      (rs : List Request) (c : WifiChange) (e : E)
      → is_idle c.state ≡ false
      → (serve_all backend rs c e).0.deadline ≡ c.deadline
  unfolding serve_all
  serve_all-deadline [] c e h = refl
  serve_all-deadline (r ∷ rs) c e h =
      let t = serve backend r c e in
      let kept = serve-deadline r c e h in serve_all-deadline rs t.0 t.1 kept.0 ∙ kept.1

  tick_late :
      (now : ℕ) (c : WifiChange) (e : E)
      → c.deadline ≤ now
      → is_pending (tick backend now c e).0.state ≡ false
  unfolding tick revert
  tick_late now c e h = ground arith

  start-deadline :
      (p : WifiProfile) (random : Option Bytes) (now : ℕ) (c : WifiChange) (e : E)
      → (start backend p random now c e).0 ≡ true
      → let t = start backend p random now c e in
        (is_idle t.1.state ≡ false) × (t.1.deadline ≡ now + window)
  unfolding start
  start-deadline p none now c e h = ground arith
  start-deadline p (some r) now c e h = ground arith

  -- A change that a successful `start` put under way at time `begun` is no longer pending after a
  -- tick at `begun` plus 90 seconds or later, whatever requests came between: none of them, a second
  -- `start` included, moves the deadline.
  pub start-window :
      (p : WifiProfile) (random : Option Bytes) (begun now : ℕ) (c : WifiChange) (e : E)
      (rs : List Request)
      → (start backend p random begun c e).0 ≡ true
      → begun + window ≤ now
      → let s = start backend p random begun c e in
        let t = serve_all backend rs s.1 s.2 in
        is_pending (tick backend now t.0 t.1).0.state ≡ false
  start-window p random begun now c e rs h late =
      let s = start backend p random begun c e in
      let t = serve_all backend rs s.1 s.2 in
      let opened = start-deadline p random begun c e h in
      tick_late now t.0 t.1 (omega (arith, serve_all-deadline rs s.1 s.2 opened.0, opened.1))

  serve_over :
      (r : Request) (c : WifiChange) (e : E)
      → is_idle c.state ≡ false
      → is_pending c.state ≡ false
      → c.ticket ≡ []
      → serve backend r c e ≡ (c, e)
  unfolding serve start tick confirm settle cancel destroy
  serve_over (starts p random now) c e h k t = ground arith
  serve_over (ticks now) c e h k t = ground arith
  serve_over (confirms ticket now) c e h k t = ground arith
  serve_over cancels c e h k t = ground arith
  serve_over destroys c e h k t = ground arith

  -- A change that is committed, rolled back or in need of recovery, with its ticket erased, is over:
  -- no request alters it or reaches the machine.
  pub serve_all_over :
      (rs : List Request) (c : WifiChange) (e : E)
      → is_idle c.state ≡ false
      → is_pending c.state ≡ false
      → c.ticket ≡ []
      → serve_all backend rs c e ≡ (c, e)
  unfolding serve_all
  serve_all_over [] c e h k t = refl
  serve_all_over (r ∷ rs) c e h k t = rw (serve_over r c e h k t) (serve_all_over rs c e h k t)

  -- `confirm` answers yes exactly when the change is pending and in time, the Ethernet connection
  -- and then the target link are found well, the ticket is the issued one, and the adapter's commit
  -- succeeds, in that order.
  pub confirm_iff :
      (ticket : Bytes) (now : ℕ) (c : WifiChange) (e : E)
      → let (ethernet, e₁) = backend.ethernet_recovery_available e in
        let (link, e₂) = backend.probe e₁ in
        ((confirm backend ticket now c e).0 ≡ true) ↔ (
          (is_pending c.state ≡ true)
          × (now < c.deadline)
          × (ethernet ≡ true)
          × (link ≡ ready)
          × (ticket ≡ c.ticket)
          × ((backend.commit e₂).0 ≡ true))
  unfolding confirm tick settle revert
  confirm_iff ticket now c e = (
    λ h. ground (arith, bytes_eq_sound ticket c.ticket),
    λ h. ground (arith, bytes_eq_refl c.ticket),
  )

  -- Outside its window a change answers and does nothing.
  pub request_over :
      (ticket : Bytes) (now : ℕ) (c : WifiChange) (e : E)
      → is_pending c.state ≡ false
      → (tick backend now c e ≡ (c, e))
        × (confirm backend ticket now c e ≡ (false, c, e))
        × (cancel backend c e ≡ (c, e))
  unfolding tick confirm cancel settle
  request_over ticket now c e h = (ground arith, ground arith, ground arith)
