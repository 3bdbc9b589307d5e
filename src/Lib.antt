-- ===== src/Lib.antt =====
-- cameratrack: the serial port library below the camera program.
--
-- The Java program (src/main/java) moves and watches cameras through a serial port, for which it uses
-- gnu.io of rxtx-devel. The native half of gnu.io is C, and is what is modelled here.
--
-- - rxtx-devel/src/SerialImp.c holds the native methods of gnu.io.RXTXPort. It calls `tcgetattr`,
--   `tcsetattr` and `ioctl` on a descriptor.
-- - rxtx-devel/src/lfd/lockdaemon.c is a server for lock files, which lfs_lock and lfs_unlock of
--   SerialImp.c ask over a connection.
-- - rxtx-devel/src/termios.c gives those calls on Windows, over a DCB, a COMMTIMEOUTS and a modem
--   register for each open port, and the Windows calls of a handle.
--
-- Files, and the code that they model:
-- - Base, Bits, Flags: shared names, bit masks on words (up to 32 bits, where a complement is taken),
--   and the constants of rxtx-devel/src/win32termios.h and SerialImp.h.
-- - Termios: `struct termios` and the DCB. Termios/Speed: `CBR_to_B`, `B_to_CBR`, `cfsetospeed` and its
--   kin. Termios/Convert: `termios_to_DCB`, `DCB_to_termios`, `cfmakeraw`, `init_termios`, and the
--   ladders of `tcgetattr`. Termios/Comm: the Windows calls as a record of functions over a state `W`,
--   with their documented laws, and the port table as a function from descriptors. Termios/Attr:
--   `tcgetattr` and `tcsetattr`. Termios/Modem: `ClearErrors` and the requests TIOCMGET, TIOCMSET and
--   TIOCGICOUNT of `ioctl`. Termios/Ports: the list of open ports, `find_port`, `add_port`,
--   `get_free_fd`, `port_opened`, `serial_close`, and the table that the list stands for. Termios/Open:
--   `serial_open`. Termios/Queues: `tcsendbreak`, `tcdrain`, `tcflush` and `termios_setflags`.
--   Termios/Status: the requests TIOCSERGETLSR and FIONREAD of `ioctl`.
-- - Serial: SerialImp.c. Serial/Rates: `translate_speed`, `get_java_baudrate`. Serial/Settings:
--   `translate_data_bits`, `translate_stop_bits`, `translate_parity` and the readers of `c_cflag`.
--   Serial/Params: `set_port_params`, `nativeSetSerialPortParams`. Serial/Lines: `isDSR` to `setDTR`.
--   Serial/Flow: `setflowcontrol`, `nativeGetFlowControlMode`.
--   Serial/Read: `read_byte_array`, over the calls `gettimeofday`, `select` and `read`, as it is built
--   outside Windows; its loop makes at most 20 passes, and the model runs those 20. Serial/Bytes:
--   `readByte`, `readArray` and `readTerminatedArray` on top of it, the last with a turn of fuel for each
--   byte of the length and one more, since a turn that is not the last adds a byte.
--   Serial/Open: `open` and `set_java_vars`. Serial/Close: `nativeClose`, `nativeClearCommInput`,
--   `nativeavailable` and `sendBreak`. Serial/Timeouts: the receive timeouts.
--   Serial/Write: `writeByte`, `writeArray`, `nativeDrain`, over the calls `write` and `tcdrain`; a loop
--   that goes on while it is interrupted has fuel, and one pass more than there are interrupts is enough.
--   Serial/Events: a pass of the event loop, from `send_event` to `report_serial_events`, over the calls
--   on the port; the loops over the 32-bit counters have 2 ^ 32 steps of fuel, the most they can take.
--   Serial/Loops: the event loops at `master_index`, from `eventLoop` to `interruptEventLoop`, on the
--   nodes of Chain; a walk has fuel, for which the number of loops is enough.
--   Serial/Preopened: `find_preopened_ports` and `static_add_filename`, on the nodes of Chain, with the
--   pointers as the code leaves them; `none` is a read of memory that was given back or a write behind
--   the 40 bytes of a name. Serial/Static: `configure_port` and the methods nativeStatic*, over these,
--   `serial_open` and the calls on a port; what the uninitialised `result` holds is an argument.
-- - Chain: doubly linked nodes at addresses, the list that they stand for, and the pointer operations.
-- - Locks: the lock files of SerialImp.c as the Linux build makes them (FHS, /var/lock). Locks/Text: the
--   base name of a device, `%10d`, `%03d`, `sscanf` and `atol` on byte lists. Locks/System: the files,
--   the processes and the refusals that the calls meet. Locks/Check: `check_group_uucp`,
--   `is_device_locked`, `check_lock_status`, `check_lock_pid`. Locks/Fhs: `fhs_lock`, `fhs_unlock`.
--   Locks/Uucp: `uucp_lock`, `uucp_unlock`, over the same checks; the branch that `is_device_locked` has
--   where FHS is not defined, and that the UUCP builds take, is not modelled.
--   Locks/Daemon: the lock functions of rxtx-devel/src/lfd/lockdaemon.c. Locks/Daemon/Requests:
--   `process_requests`, the loop of `main`, and its clients `lfs_lock` and `lfs_unlock` of SerialImp.c;
--   `none` is a read or write outside an array.
-- - Examples: the operations run on one driver, with the instances of the theorems.
--
-- The serial port is modelled as it is built for Windows (WIN32 defined, the constants of
-- win32termios.h, no TIOCGSERIAL), but for Serial/Read, Serial/Bytes, Serial/Write, Serial/Events and
-- Serial/Loops, which follow the branches of the other builds, as the lock files do. On Windows
-- `serial_open` does not set EINTR, so the loops of SerialImp.c around OPEN make one pass and are left
-- out. `add_port` and `serial_open` give `none` where the name does not fit the 80 bytes of the node or
-- of the message with it, which the code writes past; the message that `serial_open` makes last, when the
-- first port has no handle, is not counted. A descriptor is a natural number, where 0 stands for every
-- descriptor that `if ( fd <= 0 ) return 0` catches. Java's `int` is ℤ. Flag words are natural numbers
-- with 32-bit complements; where a theorem needs a word of 32 bits it says so. An uninitialised local
-- structure is an argument. Messages, exceptions thrown through JNI (beyond the fact that one is
-- thrown) and `usleep` are left out. Other loops run over their data.
--
-- Not modelled: the byte traffic of `serial_read`, `serial_write` and `select` with its overlapped
-- input and output, `fcntl`, the event loop's threads, the UUCP locks of the lock daemon, which it is
-- not built with, the parallel, RS485, I2C and Raw ports, the variants of the library for other
-- compilers, the copied psmisc sources, and the Java program.
pub mod Base
pub mod Bits
pub mod Chain
pub mod Flags
pub mod Termios
pub mod Serial
pub mod Locks
pub mod Examples
