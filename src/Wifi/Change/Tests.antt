-- ===== src/Wifi/Change/Tests.antt =====
-- Runs of common/src/wifi_change.cpp against an adapter that always succeeds and counts its calls.
use encoder_next.Prelude.{
  ℕ, suc, ◌≡◌, refl, true, false, none, some, List, [], ◌∷◌, Bytes, ◌⊎◌, ◌↔◌, ◌<◌, replicate, codes,
  arith, IsBytes, hex_encode, ◌++◌,
}
use encoder_next.Wifi.Backend.{WifiProfile, WifiChangeBackend, ready, committed}
use encoder_next.Wifi.Change.{WifiChange, fresh, is_pending, start, tick, confirm, destroy}
use encoder_next.Wifi.Change.Protocol.{
  phase, phase_of, recorded, untouched, settled, restored, unresolved,
}
use encoder_next.Wifi.Change.History.{Request, starts, ticks, confirms, serve, serve_all}
use encoder_next.Wifi.Change.Contract.{serve_all-phase, destroy_leaves_nothing_open}
use encoder_next.Wifi.Change.Ticket.{HoldsTicket, serve_all-HoldsTicket}
use encoder_next.Wifi.Change.Window.{start-window, confirm_iff}

abbrev steady : WifiChangeBackend ℕ
steady = record {
  ethernet_recovery_available = λ e. (true, e);
  prepare = λ p n e. (true, suc e);
  activate = λ e. (true, suc e);
  probe = λ e. (ready, e);
  commit = λ e. (true, suc e);
  rollback = λ e. (true, suc e);
}

abbrev profile : WifiProfile
profile = record { ssid_hex = codes "6c6162"; psk = replicate 32 7; dhcp6 = none }

abbrev random : Bytes
random = replicate 32 0xab

abbrev requests : List Request
requests = starts profile (some random) 1000 ∷ ticks 2000 ∷ []

abbrev under_way : WifiChange × ℕ
under_way = serve_all steady requests fresh 0

abbrev ticket : Bytes
ticket = hex_encode random

-- The run ends with the change committed and the log settled.
run_committed :
    let t = serve_all (recorded steady) (requests ++ (confirms ticket 3000 ∷ [])) fresh (0, []) in
    (t.0.state ≡ committed) × (phase t.1.1 ≡ settled)
unfolding serve_all serve start tick confirm recorded
run_committed = (refl, refl)

serve_all-phase_example :
    let t = serve_all (recorded steady) requests fresh (0, []) in phase t.1.1 ≡ phase_of t.0.state
serve_all-phase_example = serve_all-phase steady requests 0

destroy_leaves_nothing_open_example :
    let t = serve_all (recorded steady) requests fresh (0, []) in
    let p = phase (destroy (recorded steady) t.0 t.1).1.1 in
    (p ≡ untouched) ⊎ ((p ≡ settled) ⊎ ((p ≡ restored) ⊎ (p ≡ unresolved)))
destroy_leaves_nothing_open_example = destroy_leaves_nothing_open steady requests 0

random-IsBytes : IsBytes random
random-IsBytes = omega arith

serve_all-HoldsTicket_example : HoldsTicket (serve_all steady requests fresh 0).0
serve_all-HoldsTicket_example =
    serve_all-HoldsTicket steady requests fresh 0 ((refl, random-IsBytes), (tt, tt)) refl

start_succeeds : (start steady profile (some random) 1000 fresh 0).0 ≡ true
unfolding start
start_succeeds = refl

start-window_example :
    let s = start steady profile (some random) 1000 fresh 0 in
    let t = serve_all steady (ticks 2000 ∷ []) s.1 s.2 in
    is_pending (tick steady 90000001000 t.0 t.1).0.state ≡ false
start-window_example =
    start-window steady profile (some random) 1000 90000001000 fresh 0 (ticks 2000 ∷ [])
      start_succeeds (omega arith)

abbrev over : WifiChange
over = record { state = committed; deadline = 500; ticket = []; message = "Connection confirmed" }

confirm_iff_example : ((confirm steady ticket 3000 under_way.0 under_way.1).0 ≡ true) ↔ (
    (is_pending under_way.0.state ≡ true)
    × (3000 < under_way.0.deadline)
    × (true ≡ true)
    × (ready ≡ ready)
    × (ticket ≡ under_way.0.ticket)
    × (true ≡ true))
confirm_iff_example = confirm_iff steady ticket 3000 under_way.0 under_way.1
