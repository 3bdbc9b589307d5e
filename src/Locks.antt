-- ===== src/Locks.antt =====
-- The lock files of rxtx-devel/src/SerialImp.c, as the Linux build makes them: FHS is defined, and
-- LOCKDIR is /var/lock.
pub mod Text
pub mod System
pub mod Check
pub mod Fhs
pub mod Uucp
pub mod Daemon
