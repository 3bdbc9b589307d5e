-- ===== src/Examples.antt =====
-- Ports, lock files and readers on which the operations are run: tests, and instances of the theorems.
mod Setup
mod Settings
mod Lines
mod Locks
mod Uucp
mod Read
mod Ports
mod Events
mod Loops
mod Opening
mod Preopened
mod Static
mod Bytes
mod Daemon
mod Write
mod Timeouts
mod Close
mod Status
