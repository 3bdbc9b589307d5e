-- ===== src/Flags.antt =====
-- The constants of rxtx-devel/src/win32termios.h and rxtx-devel/src/SerialImp.h that the modelled
-- code uses, at the values written there.
mod Modes
mod Speeds
mod Java
pub use Modes.*
pub use Speeds.*
pub use Java.*
