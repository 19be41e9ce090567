-- ===== src/Wifi/Backend.antt =====
-- common/include/encoder/wifi_profile.h and the interface of common/include/encoder/wifi_change.h.
use encoder_next.Prelude.{ℕ, Bytes, Bool, Option}

pub data WifiChangeState : Type 0 where
  idle connecting awaiting_confirmation committed rolled_back recovery_required : WifiChangeState

pub data WifiLink : Type 0 where
  pending ready failed : WifiLink

-- The key is a secure buffer; a consumed one is empty. `dhcp6` is the installed DHCPv6 policy.
pub record WifiProfile : Type 0 where
  pub ssid_hex : Bytes
  pub psk : Bytes
  pub dhcp6 : Option Bool

-- The virtual methods, over the state `E` of the machine that the adapter works on.
pub record WifiChangeBackend (E : Type 0) : Type 0 where
  pub ethernet_recovery_available : E → Bool × E
  pub prepare : WifiProfile → ℕ → E → Bool × E
  pub activate : E → Bool × E
  pub probe : E → WifiLink × E
  pub commit : E → Bool × E
  pub rollback : E → Bool × E
