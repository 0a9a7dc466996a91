-- ===== src/Crypto.antt =====
-- voice/crypto.c and voice/crypto_sha256.c: the hash functions, their keyed forms, and Base64.
pub mod Words
pub mod Stream
pub mod Sha256
pub mod Sha1
pub mod Md5
pub mod Base64
pub mod Digests
mod Tests
