-- ===== src/Dav.antt =====
-- The WebDAV bridge, dav-bridge/src/dav-bridge.c: a CGI program behind the web server.
pub mod Path
pub mod Reader
pub mod Upload
pub mod Multipart
pub mod Guard
pub mod Accounts
mod Tests
