-- ===== src/Dnsmap.antt =====
-- apptraffic/src/dnsmap.c: the caches of names and of flows, the table of applications, and the
-- services of this host. A table is passed and returned, the time and the allocator's answer are
-- arguments, and a string is the list of its bytes without the terminator. The mutexes are held over
-- each whole function, so that a function is one step.
pub mod Flow
pub mod Names
pub mod Apps
pub mod Local
mod Tests
