-- ===== src/Wifi/Change.antt =====
-- common/src/wifi_change.cpp: one Wi-Fi change, from `start` to its confirmation or its rollback.
-- A method takes the object and the machine's state `E` and returns both. Time is a steady clock's
-- count of nanoseconds, the random bytes are an argument (`none` if they cannot be had), and an
-- erased ticket is empty.
pub mod Protocol
pub mod History
pub mod Contract
pub mod Ticket
pub mod Window
mod Tests
use encoder_next.Prelude.{
  ℕ, ◌+◌, ◌*◌, String, Bool, true, false, not, ◌&&◌, ◌||◌, Option, none, some, [], ◌++◌, Bytes, leb,
  ◌==◌, if◌then◌else◌, is_empty, length, bytes_eq, hex_encode,
}
use encoder_next.Wifi.Backend.{
  WifiChangeState, WifiLink, WifiProfile, WifiChangeBackend, idle, connecting,
  awaiting_confirmation, committed, rolled_back, recovery_required, ready, failed,
}
use encoder_next.Wifi.Backend

pub record WifiChange : Type 0 where
  pub state : WifiChangeState
  pub deadline : ℕ
  pub ticket : Bytes
  pub message : String

abbrev pub fresh : WifiChange
fresh = record { state = idle; deadline = 0; ticket = []; message = "" }

-- The confirmation window, and its length in ticks of the clock.
abbrev pub window_seconds : ℕ
window_seconds = 90

abbrev pub window : ℕ
window = window_seconds * 1000000000

abbrev pub is_idle : WifiChangeState → Bool
is_idle idle = true
is_idle _ = false

abbrev pub is_awaiting : WifiChangeState → Bool
is_awaiting awaiting_confirmation = true
is_awaiting _ = false

-- `WifiChange::pending`.
abbrev pub is_pending : WifiChangeState → Bool
is_pending connecting = true
is_pending awaiting_confirmation = true
is_pending _ = false

abbrev is_failed : WifiLink → Bool
is_failed failed = true
is_failed _ = false

abbrev is_ready : WifiLink → Bool
is_ready ready = true
is_ready _ = false

module _ {E : Type 0} (backend : WifiChangeBackend E) where
  open backend use {ethernet_recovery_available, prepare, activate, probe, commit, rollback}

  pub revert : String → WifiChange → E → WifiChange × E
  revert reason c e =
      let (done, e') = rollback e in
      (
        record c {
          state = if done then rolled_back else recovery_required;
          message = if done then reason else "Rollback failed; recovery required";
          ticket = [];
        },
        e',
      )

  -- The part of `start` behind the state change: recovery is prepared, then the target activated.
  unfoldable launch : WifiProfile → WifiChange → E → Bool × WifiChange × E
  launch profile c e =
      let (prepared, e₁) = prepare profile window_seconds e in
      let (activated, e₂) = activate e₁ in
      let unprepared = revert "Recovery preparation failed" c e₁ in
      let inactive = revert "Connection activation failed" c e₂ in
      if not prepared
      then (false, unprepared.0, unprepared.1)
      else if not activated
      then (false, inactive.0, inactive.1)
      else (
        true,
        record c { message = "Connecting; explicit confirmation required within 90 seconds" },
        e₂,
      )

  -- The ticket is the 32 random bytes in hexadecimal.
  unfoldable issue : WifiProfile → Option Bytes → ℕ → WifiChange → E → Bool × WifiChange × E
  unfolding launch
  issue profile none now c e =
      (false, record c { message = "Cannot create confirmation ticket" }, e)
  issue profile (some random) now c e =
      launch profile
        (record c {
          ticket = c.ticket ++ hex_encode random;
          deadline = now + window;
          state = connecting;
        })
        e

  unfoldable pub start : WifiProfile → Option Bytes → ℕ → WifiChange → E → Bool × WifiChange × E
  unfolding issue
  start profile random now c e =
      if not (is_idle c.state)
      then (false, c, e)
      else if not (length profile.psk == 32) || is_empty profile.ssid_hex
      then (false, record c { message = "Invalid or consumed Wi-Fi profile" }, e)
      else let (ethernet, e') = ethernet_recovery_available e in
        if not ethernet
        then (false, record c { message = "Ethernet recovery connection required" }, e')
        else issue profile random now c e'

  -- `tick` once the change is pending and in time.
  watch : WifiChange → E → WifiChange × E
  watch c e =
      let (ethernet, e₁) = ethernet_recovery_available e in
      let (link, e₂) = probe e₁ in
      if not ethernet
      then revert "Ethernet recovery connection lost" c e₁
      else if is_failed link
      then revert "Target connection failed" c e₂
      else (
        record c {
          state = if is_ready link then awaiting_confirmation else connecting;
          message =
              if is_ready link then "Target connected; awaiting confirmation" else "Connecting";
        },
        e₂,
      )

  pub tick : ℕ → WifiChange → E → WifiChange × E
  unfolding watch
  tick now c e =
      if not (is_pending c.state)
      then (c, e)
      else if leb c.deadline now
      then revert "Confirmation timed out" c e
      else watch c e

  -- `confirm` behind its call of `tick`.
  settle : Bytes → WifiChange → E → Bool × WifiChange × E
  settle ticket c e =
      if not (is_awaiting c.state) || not (bytes_eq ticket c.ticket)
      then (false, c, e)
      else let (saved, e') = commit e in
        let lost = revert "Cannot persist target connection" c e' in
        if not saved then (false, lost.0, lost.1) else (
          true,
          record c { state = committed; message = "Connection confirmed"; ticket = [] },
          e',
        )

  pub confirm : Bytes → ℕ → WifiChange → E → Bool × WifiChange × E
  unfolding settle
  confirm ticket now c e = let (c', e') = tick now c e in settle ticket c' e'

  pub cancel : WifiChange → E → WifiChange × E
  cancel c e = if is_pending c.state then revert "Connection cancelled" c e else (c, e)

  -- `~WifiChange`, up to the erasure of the ticket.
  pub destroy : WifiChange → E → WifiChange × E
  destroy c e =
      let (c', e') = if is_pending c.state then revert "Connection owner closed" c e else (c, e) in
      (record c' { ticket = [] }, e')
