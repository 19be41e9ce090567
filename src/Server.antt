-- ===== src/Server.antt =====
-- server/src/main.cpp: the commands of clients.
-- A command is a function on `ServerContext` that answers or refuses; either way it returns the
-- context, since what was recorded before a refusal stays. Its surroundings are the fields of `Env`.
pub mod Context
pub mod Binding
pub mod Policy
mod PolicyTests
pub mod Audit
pub mod Config
pub mod Keys
pub mod Access
pub mod Encrypt
pub mod Decrypt
pub mod Account
pub mod Users
pub mod Admin
pub mod Session
pub mod Effects
pub mod Guards
pub mod Integrity
pub mod Clients
pub mod Authority
pub mod NoToken
pub mod WrongPassword
pub mod PasswordChange
pub mod RoundTrip
mod Tests
