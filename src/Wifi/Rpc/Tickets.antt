-- ===== src/Wifi/Rpc/Tickets.antt =====
-- The ticket that common/src/wifi_rpc.cpp hands out, and the session that nothing replaces.
use encoder_next.Prelude.{
  ℕ, ◌≡◌, refl, Bool, true, false, Option, none, some, List, [], ◌∷◌, ◌++◌, Bytes, IsBytes, codes,
  length, bytes_eq, bytes_eq_refl, take, Bool-cases, inl, inr, if_both, split_on, arith, ap, zero,
  suc,
}
use encoder_next.Wifi.Backend.{WifiProfile, WifiChangeBackend, recovery_required}
use encoder_next.Wifi.Change.{WifiChange, is_pending}
use encoder_next.Wifi.Change.Ticket.{IsTicket, start-IsTicket}
use encoder_next.Wifi.Change.Window.{request_over}
use encoder_next.Wifi.Session.{
  WifiSession, new_session, authorized, finished, status, confirm, cancel, start,
}
use encoder_next.Wifi.Rpc.{
  Slot, drop_session, hex, handle, handle_fields, handle_pair, handle_ticket, launch,
}
use encoder_next.Wifi.Rpc.Guards.{handle_start_busy}
use encoder_next.Wifi.Change
use encoder_next.Wifi.Change.{fresh as new_change}

take_all {ℓ} : {A : Type ℓ} (n : ℕ) (xs : List A) → length xs ≡ n → take n xs ≡ xs
take_all zero [] h = refl
take_all zero (x ∷ xs) h = absurd (omega arith)
take_all (suc n) [] h = refl
take_all (suc n) (x ∷ xs) h = ap (◌∷◌ x) (take_all n xs (omega arith))

ticket-hex : (t : Bytes) → IsTicket t → hex t 64 64 ≡ true
unfolding hex
ticket-hex t h = ground arith

accepted :
    (t : Bytes) (s : WifiSession)
    → IsTicket t
    → s.ticket ≡ t
    → (hex t 64 64 ≡ true) × (authorized t s ≡ true)
unfolding authorized
accepted t s h e = (ticket-hex t h, ground (arith, bytes_eq_refl t))

no_ticket : (t : Bytes) → ◌≡◌ {A = Option Bytes} none (some t) → ⊥
no_ticket t h = cc

module _ {E : Type 0} (backend : WifiChangeBackend E) where
  session_ticket :
      (p : WifiProfile) (random : Bytes) (now : ℕ) (e : E) (t : Bytes)
      → length random ≡ 32
      → IsBytes random
      → (start backend p (some random) now new_session e).0 ≡ some t
      → IsTicket t × ((start backend p (some random) now new_session e).1.ticket ≡ t)
  unfolding start
  session_ticket p random now e t n b h =
      elim (Bool-cases (Change.start backend p (some random) now new_change e).0) [
        | inl started ↦
            let good = start-IsTicket backend p random now e n b started in
            ground (
              arith,
              started,
              good,
              take_all 64 (Change.start backend p (some random) now new_change e).1.ticket good.0,
            )
        | inr failed ↦ absurd (no_ticket t (rw failed at h))
      ]

  session_over :
      (ticket : Bytes) (now : ℕ) (s : WifiSession) (e : E)
      → is_pending s.change.state ≡ false
      → ((status backend ticket now s e).2 ≡ s)
        × ((status backend ticket now s e).3 ≡ e)
        × ((confirm backend ticket now s e).2 ≡ s)
        × ((confirm backend ticket now s e).3 ≡ e)
        × ((cancel backend ticket s e).2 ≡ s)
        × ((cancel backend ticket s e).3 ≡ e)
  unfolding status confirm cancel
  session_over ticket now s e h =
      let over = request_over backend ticket now s.change e h in
      elim (Bool-cases (authorized ticket s)) [
        | inl yes' ↦ rw (yes', over.0, over.1, over.2) (ground arith)
        | inr no' ↦ rw no' (refl, refl, refl, refl, refl, refl)
      ]

  module _ (factory : E → Bool × E) (derive : Bytes → Bytes → Option Bytes) where
    abbrev Kept : WifiSession → E → Bytes × Slot × E → Type 0
    Kept s e r = (r.1 ≡ some s) × (r.2 ≡ e)

    ticket_over :
        (verb ticket : Bytes) (now : ℕ) (s : WifiSession) (e : E)
        → is_pending s.change.state ≡ false
        → Kept s e (handle_ticket backend factory derive verb ticket now s e)
    unfolding handle_ticket
    ticket_over verb ticket now s e h =
        let (s₁, e₁, s₂, e₂, s₃, e₃) = session_over ticket now s e h in
        if_both (Kept s e) (bytes_eq verb (codes "status")) _ _ (ap some s₁, e₁)
          (if_both (Kept s e) (bytes_eq verb (codes "confirm")) _ _ (ap some s₂, e₂)
            (if_both (Kept s e) (bytes_eq verb (codes "cancel")) _ _ (ap some s₃, e₃) (refl, refl)))

    fields_over :
        (fields : List Bytes) (random : Option Bytes) (now : ℕ) (s : WifiSession) (e : E)
        → s.change.state ≡ recovery_required
        → Kept s e (handle_fields backend factory derive fields random now (some s) e)
    unfolding handle_fields handle_pair finished
    fields_over [] random now s e h = (refl, refl)
    fields_over (a ∷ []) random now s e h = (refl, refl)
    fields_over (a ∷ b ∷ []) random now s e h =
        if_both (Kept s e) _ _ _ (refl, refl) (ticket_over a b now s e (rw h))
    fields_over (a ∷ b ∷ c ∷ []) random now s e h =
        ground (arith, handle_start_busy backend factory derive b c random now (some s) e)
    fields_over (a ∷ b ∷ c ∷ d ∷ rest) random now s e h = (refl, refl)

    -- With a session in need of recovery, no packet changes the session or the machine: a new
    -- `start` is refused too.
    pub handle_recovery_required :
        (packet : Bytes) (random : Option Bytes) (now : ℕ) (s : WifiSession) (e : E)
        → s.change.state ≡ recovery_required
        → ((handle backend factory derive packet random now (some s) e).1 ≡ some s)
          × ((handle backend factory derive packet random now (some s) e).2 ≡ e)
    unfolding handle
    handle_recovery_required packet random now s e h =
        if_both (Kept s e) _ _ _ (refl, refl) (fields_over (split_on b'|' packet) random now s e h)

    -- When a `start` is answered with a ticket, from a random source that gave 32 bytes, the ticket
    -- is 64 lowercase hexadecimal digits, the form that the other requests must have, and the new
    -- session accepts it.
    pub launch-authorized :
        (p : WifiProfile) (random : Bytes) (now : ℕ) (slot : Slot) (e : E) (t : Bytes)
        (s : WifiSession)
        → length random ≡ 32
        → IsBytes random
        → (launch backend factory derive p (some random) now slot e).0 ≡ codes "connecting|" ++ t
        → (launch backend factory derive p (some random) now slot e).1 ≡ some s
        → (hex t 64 64 ≡ true) × (authorized t s ≡ true)
    unfolding launch
    launch-authorized p random now slot e t s n b h k =
        let e' = (factory (drop_session backend factory derive slot e)).1 in
        ground (arith, session_ticket p random now e' t n b, accepted t s)
