-- ===== src/Flags/Java.antt =====
-- Constants of rxtx-devel/src/SerialImp.h for Java, and the modem lines.
use cameratrack.Base.{ℕ}

-- Constants of gnu.io.SerialPort.
abbrev pub jdatabits_5 : ℕ
jdatabits_5 = 5

abbrev pub jdatabits_6 : ℕ
jdatabits_6 = 6

abbrev pub jdatabits_7 : ℕ
jdatabits_7 = 7

abbrev pub jdatabits_8 : ℕ
jdatabits_8 = 8

abbrev pub jparity_none : ℕ
jparity_none = 0

abbrev pub jparity_odd : ℕ
jparity_odd = 1

abbrev pub jparity_even : ℕ
jparity_even = 2

abbrev pub jparity_mark : ℕ
jparity_mark = 3

abbrev pub jparity_space : ℕ
jparity_space = 4

abbrev pub stopbits_1 : ℕ
stopbits_1 = 1

abbrev pub stopbits_2 : ℕ
stopbits_2 = 2

abbrev pub stopbits_1_5 : ℕ
stopbits_1_5 = 3

abbrev pub flowcontrol_rtscts_in : ℕ
flowcontrol_rtscts_in = 1

abbrev pub flowcontrol_rtscts_out : ℕ
flowcontrol_rtscts_out = 2

abbrev pub flowcontrol_xonxoff_in : ℕ
flowcontrol_xonxoff_in = 4

abbrev pub flowcontrol_xonxoff_out : ℕ
flowcontrol_xonxoff_out = 8

-- Modem lines.
abbrev pub tiocm_dtr : ℕ
tiocm_dtr = 0x002

abbrev pub tiocm_rts : ℕ
tiocm_rts = 0x004

abbrev pub tiocm_cts : ℕ
tiocm_cts = 0x020

abbrev pub tiocm_cd : ℕ
tiocm_cd = 0x040

abbrev pub tiocm_rng : ℕ
tiocm_rng = 0x080

abbrev pub tiocm_dsr : ℕ
tiocm_dsr = 0x100

-- Event types of gnu.io.SerialPortEvent.
abbrev pub spe_data_available : ℕ
spe_data_available = 1

abbrev pub spe_output_buffer_empty : ℕ
spe_output_buffer_empty = 2

abbrev pub spe_cts : ℕ
spe_cts = 3

abbrev pub spe_dsr : ℕ
spe_dsr = 4

abbrev pub spe_ri : ℕ
spe_ri = 5

abbrev pub spe_cd : ℕ
spe_cd = 6

abbrev pub spe_oe : ℕ
spe_oe = 7

abbrev pub spe_pe : ℕ
spe_pe = 8

abbrev pub spe_fe : ℕ
spe_fe = 9

abbrev pub spe_bi : ℕ
spe_bi = 10
