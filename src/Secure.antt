-- ===== src/Secure.antt =====
-- security/SecureChannel.h and security/SecureChannel.cpp: the encrypted channel of a session.
-- Windows CNG, which security/Crypto.cpp calls, is the record `Cng`.
pub mod Crypto
pub mod Channel
pub mod Replay
pub mod Nonces
pub mod Sealed
pub mod Agreement
