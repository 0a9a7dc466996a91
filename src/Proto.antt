-- ===== src/Proto.antt =====
-- apptraffic/src/proto.c: the header parsers. A buffer is the list of its bytes and its length is
-- the list's. In the DNS and TLS parsers an access out of range is a fault.
pub mod Dns
pub mod Tls
pub mod Http
