-- ===== src/Wifi.antt =====
-- Changing the server's Wi-Fi connection with a rollback that nothing can skip: common/src/wifi_*.cpp.
pub mod Backend
pub mod Change
pub mod Profile
pub mod Session
pub mod Rpc
pub mod Journal
pub mod LinkProbe
pub mod Draft
pub mod Netplan
pub mod Managed
