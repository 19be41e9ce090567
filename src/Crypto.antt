-- ===== src/Crypto.antt =====
-- common/src/crypto.cpp: names of ciphers and digests, and the engine that calls OpenSSL.
pub mod Ciphers
pub mod Specs
pub mod Names
pub mod NamesLaws
pub mod OpenSsl
pub mod OpenSslLaw
pub mod EvpLaw
pub mod Digest
pub mod Gost
pub mod GostLaw
pub mod Recovery
pub mod Engine
pub mod EngineLaw
pub mod Toy
mod Tests
