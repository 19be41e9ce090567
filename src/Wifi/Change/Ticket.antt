-- ===== src/Wifi/Change/Ticket.antt =====
-- The confirmation ticket of common/src/wifi_change.cpp.
use encoder_next.Prelude.{
  ℕ, ◌≡◌, Bool, true, false, none, some, List, [], ◌∷◌, Bytes, IsBytes, length, all, is_hex,
  hex_encode, length-hex_encode, hex_encode-is_hex, arith,
}
use encoder_next.Wifi.Backend.{WifiProfile, WifiChangeBackend}
use encoder_next.Wifi.Change.{
  WifiChange, fresh, is_pending, revert, start, tick, confirm, settle, cancel, destroy,
}
use encoder_next.Wifi.Change.History.{
  Request, starts, ticks, confirms, cancels, destroys, serve, serve_all,
}

abbrev pub IsTicket : Bytes → Type 0
IsTicket t = (length t ≡ 64) × (all is_hex t ≡ true)

-- A pending change holds a ticket; any other holds none.
abbrev pub Holds : Bool → Bytes → Type 0
Holds true t = IsTicket t
Holds false t = t ≡ []

abbrev pub HoldsTicket : WifiChange → Type 0
HoldsTicket c = Holds (is_pending c.state) c.ticket

-- The random source gives 32 bytes or fails.
abbrev pub IsRandom : Request → Type 0
IsRandom (starts p (some bytes) now) = (length bytes ≡ 32) × IsBytes bytes
IsRandom _ = Unit {0}

abbrev pub AllRandom : List Request → Type 0
AllRandom [] = Unit {0}
AllRandom (r ∷ rs) = IsRandom r × AllRandom rs

new-IsTicket : (bytes : Bytes) → length bytes ≡ 32 → IsBytes bytes → IsTicket (hex_encode bytes)
new-IsTicket bytes n b = (omega (arith, length-hex_encode bytes), hex_encode-is_hex bytes b)

module _ {E : Type 0} (backend : WifiChangeBackend E) where
  tick-HoldsTicket :
      (now : ℕ) (c : WifiChange) (e : E) → HoldsTicket c → HoldsTicket (tick backend now c e).0
  unfolding tick revert
  tick-HoldsTicket now c e h = ground arith

  settle-HoldsTicket :
      (ticket : Bytes) (c : WifiChange) (e : E)
      → HoldsTicket c
      → HoldsTicket (settle backend ticket c e).1
  unfolding settle revert
  settle-HoldsTicket ticket c e h = ground arith

  serve-HoldsTicket :
      (r : Request) (c : WifiChange) (e : E)
      → IsRandom r
      → HoldsTicket c
      → HoldsTicket (serve backend r c e).0
  unfolding serve start confirm cancel destroy revert
  serve-HoldsTicket (starts p none now) c e i h = ground arith
  serve-HoldsTicket (starts p (some r) now) c e i h = ground (arith, new-IsTicket r i.0 i.1)
  serve-HoldsTicket (ticks now) c e i h = tick-HoldsTicket now c e h
  serve-HoldsTicket (confirms ticket now) c e i h =
      let t = tick backend now c e in settle-HoldsTicket ticket t.0 t.1 (tick-HoldsTicket now c e h)
  serve-HoldsTicket cancels c e i h = ground arith
  serve-HoldsTicket destroys c e i h = ground arith

  -- From a change that holds a ticket of 64 lowercase hexadecimal digits exactly if it is pending, and
  -- none otherwise, every history of requests leads to such a change again, if each `start` whose
  -- random source succeeds is given 32 bytes.
  pub serve_all-HoldsTicket :
      (rs : List Request) (c : WifiChange) (e : E)
      → AllRandom rs
      → HoldsTicket c
      → HoldsTicket (serve_all backend rs c e).0
  unfolding serve_all
  serve_all-HoldsTicket [] c e i h = h
  serve_all-HoldsTicket (r ∷ rs) c e i h =
      let t = serve backend r c e in
      serve_all-HoldsTicket rs t.0 t.1 i.1 (serve-HoldsTicket r c e i.0 h)

  -- A new change that starts holds a new ticket.
  pub start-IsTicket :
      (p : WifiProfile) (random : Bytes) (now : ℕ) (e : E)
      → length random ≡ 32
      → IsBytes random
      → (start backend p (some random) now fresh e).0 ≡ true
      → IsTicket (start backend p (some random) now fresh e).1.ticket
  unfolding start
  start-IsTicket p random now e n b h = ground (arith, new-IsTicket random n b)
