-- ===== src/Encoding.antt =====
-- The byte formats of the wire and of the files: common/src/base64.cpp, bytes.cpp and protocol.cpp.
pub mod Base64
pub mod Bytes
