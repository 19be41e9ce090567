-- ===== src/Wifi/Rpc.antt =====
-- common/src/wifi_rpc.cpp: the text protocol of the privileged helper.
-- `factory` makes the adapter of a new session in the machine's state `E`, or fails; what
-- `WifiProfile::make` takes from OpenSSL is `derive`.
pub mod Guards
pub mod Tickets
mod Tests
use encoder_next.Prelude.{
  ℕ, ◌+◌, ◌-◌, ◌*◌, ◌%◌, Bool, true, false, not, ◌&&◌, ◌||◌, Option, none, some, List, [], ◌∷◌,
  ◌++◌, Bytes, codes, ltb, leb, ◌==◌, if◌then◌else◌, length, all, is_hex, bytes_eq, split_on,
  contains, ok, err,
}
use encoder_next.Wifi.Backend.{
  WifiChangeState, WifiProfile, WifiChangeBackend, idle, connecting, awaiting_confirmation,
  committed, rolled_back, recovery_required,
}
use encoder_next.Wifi.Profile.{make}
use encoder_next.Wifi.Session.{WifiSession, new_session, finished}
use encoder_next.Wifi.Session

unfoldable pub hex : Bytes → ℕ → ℕ → Bool
hex value least most =
    not (ltb (length value) least || ltb most (length value) || not (length value % 2 == 0))
    && all is_hex value

unfoldable pub state_name : WifiChangeState → Bytes
state_name connecting = codes "connecting"
state_name awaiting_confirmation = codes "ready"
state_name committed = codes "committed"
state_name rolled_back = codes "rolled_back"
state_name recovery_required = codes "recovery_required"
state_name _ = codes "rejected"

abbrev digit : ℕ → ℕ
digit c = if leb c b'9' then c - b'0' else c - b'a' + 10

-- The loop over the pairs of digits; the number of digits is even.
unfoldable pub unhex : Bytes → Bytes
unhex [] = []
unhex (a ∷ []) = []
unhex (a ∷ b ∷ rest) = (digit a * 16 + digit b) ∷ unhex rest

abbrev answer : Bool × Option WifiChangeState → Bytes
answer (true, some state) = state_name state
answer (true, none) = state_name idle
answer (false, written) = codes "error"

-- `none` is no session yet.
abbrev pub Slot : Type 0
Slot = Option WifiSession

abbrev pub is_busy : Slot → Bool
is_busy none = false
is_busy (some s) = not (finished s)

module _ {E : Type 0} (backend : WifiChangeBackend E) (factory : E → Bool × E)
    (derive : Bytes → Bytes → Option Bytes) where
  -- `session_.reset()`.
  abbrev pub drop_session : Slot → E → E
  drop_session none e = e
  drop_session (some s) e = Session.destroy backend s e

  unfoldable pub launch : WifiProfile → Option Bytes → ℕ → Slot → E → Bytes × Slot × E
  launch profile random now slot e =
      let (made, e') = factory (drop_session slot e) in
      let (ticket, s, e'') = Session.start backend profile random now new_session e' in
      if not made then (codes "rejected", none, e') else (
        elim ticket [
          | none ↦ codes "recovery_required"
          | some value ↦ codes "connecting|" ++ value
        ],
        some s,
        e'',
      )

  unfoldable pub handle_start : Bytes → Bytes → Option Bytes → ℕ → Slot → E → Bytes × Slot × E
  handle_start name key random now slot e =
      if is_busy slot || not (hex name 2 64) || not (hex key 64 64)
      then (codes "rejected", slot, e)
      else elim (make derive (unhex name) key) [
        | err message ↦ (codes "rejected", slot, e)
        | ok profile ↦ launch profile random now slot e
      ]

  -- The requests that carry a ticket, once there is a session.
  unfoldable pub handle_ticket : Bytes → Bytes → ℕ → WifiSession → E → Bytes × Slot × E
  handle_ticket verb ticket now s e =
      let (ok₁, state₁, s₁, e₁) = Session.status backend ticket now s e in
      let (ok₂, state₂, s₂, e₂) = Session.confirm backend ticket now s e in
      let (ok₃, state₃, s₃, e₃) = Session.cancel backend ticket s e in
      if bytes_eq verb (codes "status")
      then (answer (ok₁, state₁), some s₁, e₁)
      else if bytes_eq verb (codes "confirm")
      then (answer (ok₂, state₂), some s₂, e₂)
      else if bytes_eq verb (codes "cancel")
      then (answer (ok₃, state₃), some s₃, e₃)
      else (codes "error", some s, e)

  unfoldable pub handle_pair : Bytes → Bytes → ℕ → Slot → E → Bytes × Slot × E
  handle_pair verb ticket now none e = (codes "error", none, e)
  handle_pair verb ticket now (some s) e =
      if not (hex ticket 64 64)
      then (codes "error", some s, e)
      else handle_ticket verb ticket now s e

  unfoldable pub handle_fields : List Bytes → Option Bytes → ℕ → Slot → E → Bytes × Slot × E
  handle_fields (verb ∷ name ∷ key ∷ []) random now slot e =
      if bytes_eq verb (codes "start")
      then handle_start name key random now slot e
      else (codes "error", slot, e)
  handle_fields (verb ∷ ticket ∷ []) random now slot e = handle_pair verb ticket now slot e
  handle_fields fields random now slot e = (codes "error", slot, e)

  unfoldable pub handle : Bytes → Option Bytes → ℕ → Slot → E → Bytes × Slot × E
  handle packet random now slot e =
      if ltb 256 (length packet) || contains 0 packet
      then (codes "error", slot, e)
      else handle_fields (split_on b'|' packet) random now slot e

  unfoldable pub tick : ℕ → Slot → E → Slot × E
  tick now none e = (none, e)
  tick now (some s) e = let (s', e') = Session.tick backend now s e in (some s', e')
