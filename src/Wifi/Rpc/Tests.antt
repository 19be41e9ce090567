-- ===== src/Wifi/Rpc/Tests.antt =====
-- Packets for common/src/wifi_rpc.cpp, with an adapter that always succeeds.
use encoder_next.Prelude.{
  ℕ, suc, ◌≡◌, ◌≢◌, refl, Bool, true, Option, none, some, [], Bytes, codes, replicate, hex_encode,
  split_on,
}
use encoder_next.Wifi.Backend.{
  WifiProfile, WifiChangeBackend, ready, awaiting_confirmation, recovery_required,
}
use encoder_next.Wifi.Session.{WifiSession, new_session, finished, start}
use encoder_next.Wifi.Rpc.{handle}
use encoder_next.Wifi.Rpc.Guards.{second, handle_without_ticket}

abbrev steady : WifiChangeBackend ℕ
steady = record {
  ethernet_recovery_available = λ e. (true, e);
  prepare = λ p n e. (true, suc e);
  activate = λ e. (true, suc e);
  probe = λ e. (ready, e);
  commit = λ e. (true, suc e);
  rollback = λ e. (true, suc e);
}

abbrev make_steady : ℕ → Bool × ℕ
make_steady e = (true, suc e)

abbrev no_key : Bytes → Bytes → Option Bytes
no_key password ssid = none

abbrev random : Bytes
random = replicate 32 0xab

abbrev ticket : Bytes
ticket = hex_encode random

abbrev profile : WifiProfile
profile = record { ssid_hex = codes "6c6162"; psk = replicate 32 7; dhcp6 = none }

abbrev waiting : WifiSession
waiting = record {
  change = record { state = awaiting_confirmation; deadline = 9000; ticket = ticket; message = "" };
  ticket = ticket;
}

abbrev stuck : WifiSession
stuck = record {
  change = record { state = recovery_required; deadline = 9000; ticket = []; message = "" };
  ticket = ticket;
}

abbrev wrong : Bytes
wrong = codes "confirm|00"

wrong_ticket : second (split_on b'|' wrong) ≢ waiting.ticket
wrong_ticket = λ h. cc

handle_without_ticket_example :
    ((handle steady make_steady no_key wrong (some random) 100 (some waiting) 5).1 ≡ some waiting)
    × ((handle steady make_steady no_key wrong (some random) 100 (some waiting) 5).2 ≡ 5)
unfolding finished
handle_without_ticket_example =
    handle_without_ticket steady make_steady no_key wrong (some random) 100 waiting 5 refl
      wrong_ticket

abbrev launched : WifiSession
launched = (start steady profile (some random) 100 new_session 1).1
