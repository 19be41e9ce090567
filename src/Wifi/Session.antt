-- ===== src/Wifi/Session.antt =====
-- common/src/wifi_session.cpp: one change behind the ticket that its caller must show.
-- The mutex makes each method one step. The callers' pointers are never null, so what a method
-- stores through them is part of its answer: `none` if it stores nothing.
use encoder_next.Prelude.{
  ℕ, Bool, true, false, not, ◌&&◌, Option, none, some, [], Bytes, ◌==◌, if◌then◌else◌, is_empty,
  length, take, bytes_eq, ◌||◌,
}
use encoder_next.Wifi.Backend.{
  WifiChangeState, WifiProfile, WifiChangeBackend, committed, rolled_back,
}
use encoder_next.Wifi.Change.{WifiChange, fresh, is_idle}
use encoder_next.Wifi.Change

-- The ticket stays for queries after the change has erased its own.
pub record WifiSession : Type 0 where
  pub change : WifiChange
  pub ticket : Bytes

abbrev pub new_session : WifiSession
new_session = record { change = fresh; ticket = [] }

unfoldable pub authorized : Bytes → WifiSession → Bool
authorized ticket s = (length s.ticket == 64) && bytes_eq ticket s.ticket

abbrev pub is_committed : WifiChangeState → Bool
is_committed committed = true
is_committed _ = false

abbrev pub is_final : WifiChangeState → Bool
is_final committed = true
is_final rolled_back = true
is_final _ = false

unfoldable pub finished : WifiSession → Bool
finished s = is_final s.change.state

module _ {E : Type 0} (backend : WifiChangeBackend E) where
  -- A started session answers with the ticket.
  unfoldable pub start :
      WifiProfile → Option Bytes → ℕ → WifiSession → E → Option Bytes × WifiSession × E
  start profile random now s e =
      if not (is_idle s.change.state) || not (is_empty s.ticket)
      then (none, s, e)
      else let (started, c, e') = Change.start backend profile random now s.change e in
        let value = take 64 c.ticket in
        if not started
        then (none, record s { change = c }, e')
        else (some value, record { change = c; ticket = value }, e')

  unfoldable pub status :
      Bytes → ℕ → WifiSession → E → Bool × Option WifiChangeState × WifiSession × E
  status ticket now s e =
      let (c, e') = Change.tick backend now s.change e in
      if not (authorized ticket s)
      then (false, none, s, e)
      else (true, some c.state, record s { change = c }, e')

  unfoldable pub confirm :
      Bytes → ℕ → WifiSession → E → Bool × Option WifiChangeState × WifiSession × E
  confirm ticket now s e =
      let (done, c, e') = Change.confirm backend ticket now s.change e in
      if not (authorized ticket s)
      then (false, none, s, e)
      else if is_committed s.change.state
      then (true, some s.change.state, s, e)
      else (done, some c.state, record s { change = c }, e')

  unfoldable pub cancel : Bytes → WifiSession → E → Bool × Option WifiChangeState × WifiSession × E
  cancel ticket s e =
      let (c, e') = Change.cancel backend s.change e in
      if not (authorized ticket s)
      then (false, none, s, e)
      else (true, some c.state, record s { change = c }, e')

  unfoldable pub tick : ℕ → WifiSession → E → WifiSession × E
  tick now s e = let (c, e') = Change.tick backend now s.change e in (record s { change = c }, e')

  -- The destructor: the change goes with its session.
  unfoldable pub destroy : WifiSession → E → E
  destroy s e = (Change.destroy backend s.change e).1
