-- ===== src/Wifi/Rpc/Guards.antt =====
-- What common/src/wifi_rpc.cpp refuses.
use encoder_next.Prelude.{
  ℕ, ◌≡◌, ◌≢◌, refl, Bool, true, false, Option, none, some, List, [], ◌∷◌, Bytes, codes,
  bytes_eq_sound, split_on, arith,
}
use encoder_next.Wifi.Backend.{WifiChangeBackend}
use encoder_next.Wifi.Session.{WifiSession, authorized, finished, status, confirm, cancel}
use encoder_next.Wifi.Rpc.{
  Slot, is_busy, handle, handle_fields, handle_start, handle_pair, handle_ticket,
}

-- The second field of a request.
abbrev pub second : List Bytes → Bytes
second [] = []
second (a ∷ []) = []
second (a ∷ b ∷ rest) = b

authorized_sound : (t : Bytes) (s : WifiSession) → t ≢ s.ticket → authorized t s ≡ false
unfolding authorized
authorized_sound t s h = ground (arith, bytes_eq_sound t s.ticket)

module _ {E : Type 0} (backend : WifiChangeBackend E) (factory : E → Bool × E)
    (derive : Bytes → Bytes → Option Bytes) where
  status_refused :
      (ticket : Bytes) (now : ℕ) (s : WifiSession) (e : E)
      → authorized ticket s ≡ false
      → status backend ticket now s e ≡ (false, none, s, e)
  unfolding status
  status_refused ticket now s e h = rw h

  confirm_refused :
      (ticket : Bytes) (now : ℕ) (s : WifiSession) (e : E)
      → authorized ticket s ≡ false
      → confirm backend ticket now s e ≡ (false, none, s, e)
  unfolding confirm
  confirm_refused ticket now s e h = rw h

  cancel_refused :
      (ticket : Bytes) (s : WifiSession) (e : E)
      → authorized ticket s ≡ false
      → cancel backend ticket s e ≡ (false, none, s, e)
  unfolding cancel
  cancel_refused ticket s e h = rw h

  handle_ticket_refused :
      (verb ticket : Bytes) (now : ℕ) (s : WifiSession) (e : E)
      → authorized ticket s ≡ false
      → handle_ticket backend factory derive verb ticket now s e ≡ (codes "error", some s, e)
  unfolding handle_ticket
  handle_ticket_refused verb ticket now s e h =
      rw
        (
          status_refused ticket now s e h,
          confirm_refused ticket now s e h,
          cancel_refused ticket s e h,
        )
        (ground arith)

  handle_pair_refused :
      (verb ticket : Bytes) (now : ℕ) (s : WifiSession) (e : E)
      → authorized ticket s ≡ false
      → handle_pair backend factory derive verb ticket now (some s) e ≡ (codes "error", some s, e)
  unfolding handle_pair
  handle_pair_refused verb ticket now s e h =
      ground (arith, handle_ticket_refused verb ticket now s e h)

  pub handle_start_busy :
      (name key : Bytes) (random : Option Bytes) (now : ℕ) (slot : Slot) (e : E)
      → is_busy slot ≡ true
      → handle_start backend factory derive name key random now slot e ≡ (codes "rejected", slot, e)
  unfolding handle_start
  handle_start_busy name key random now slot e h = rw h

  fields_refused :
      (fields : List Bytes) (random : Option Bytes) (now : ℕ) (s : WifiSession) (e : E)
      → finished s ≡ false
      → second fields ≢ s.ticket
      → (handle_fields backend factory derive fields random now (some s) e).1 ≡ some s
        × ((handle_fields backend factory derive fields random now (some s) e).2 ≡ e)
  unfolding handle_fields
  fields_refused [] random now s e f h = (refl, refl)
  fields_refused (a ∷ []) random now s e f h = (refl, refl)
  fields_refused (a ∷ b ∷ []) random now s e f h =
      rw (handle_pair_refused a b now s e (authorized_sound b s h)) (refl, refl)
  fields_refused (a ∷ b ∷ c ∷ []) random now s e f h =
      ground (arith, handle_start_busy b c random now (some s) e)
  fields_refused (a ∷ b ∷ c ∷ d ∷ rest) random now s e f h = (refl, refl)

  -- While a session is under way, a packet whose second field is not its ticket, of whatever verb
  -- and shape, changes neither the session nor the machine; a second `start` counts among these.
  pub handle_without_ticket :
      (packet : Bytes) (random : Option Bytes) (now : ℕ) (s : WifiSession) (e : E)
      → finished s ≡ false
      → second (split_on b'|' packet) ≢ s.ticket
      → ((handle backend factory derive packet random now (some s) e).1 ≡ some s)
        × ((handle backend factory derive packet random now (some s) e).2 ≡ e)
  unfolding handle
  handle_without_ticket packet random now s e f h =
      ground (arith, fields_refused (split_on b'|' packet) random now s e f h)
