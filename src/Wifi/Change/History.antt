-- ===== src/Wifi/Change/History.antt =====
-- The calls that the owner of a change makes of common/src/wifi_change.cpp, one after another.
use encoder_next.Prelude.{ℕ, Bool, Option, List, [], ◌∷◌, Bytes}
use encoder_next.Wifi.Backend.{WifiProfile, WifiChangeBackend}
use encoder_next.Wifi.Change.{WifiChange, start, tick, confirm, cancel, destroy}

pub data Request : Type 0 where
  starts : WifiProfile → Option Bytes → ℕ → Request
  ticks : ℕ → Request
  confirms : Bytes → ℕ → Request
  cancels destroys : Request

abbrev pub state_part : {E : Type 0} → Bool × WifiChange × E → WifiChange × E
state_part r = (r.1, r.2)

module _ {E : Type 0} (backend : WifiChangeBackend E) where
  -- The state after a call, its answer left out.
  unfoldable pub serve : Request → WifiChange → E → WifiChange × E
  serve (starts profile random now) c e = state_part (start backend profile random now c e)
  serve (ticks now) c e = tick backend now c e
  serve (confirms ticket now) c e = state_part (confirm backend ticket now c e)
  serve cancels c e = cancel backend c e
  serve destroys c e = destroy backend c e

  unfoldable pub serve_all : List Request → WifiChange → E → WifiChange × E
  serve_all [] c e = (c, e)
  serve_all (r ∷ rs) c e = let (c', e') = serve r c e in serve_all rs c' e'
