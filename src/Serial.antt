-- ===== src/Serial.antt =====
-- The native half of gnu.io.RXTXPort, rxtx-devel/src/SerialImp.c, as it is built for Windows: over
-- the termios layer of rxtx-devel/src/termios.c.
pub mod Rates
pub mod Settings
pub mod Params
pub mod Lines
pub mod Flow
pub mod Read
pub mod Events
pub mod Loops
pub mod Preopened
pub mod Static
pub mod Timeouts
pub mod Close
pub mod Open
pub mod Bytes
pub mod Write
