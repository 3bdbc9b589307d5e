-- ===== src/Termios/Speed.antt =====
-- Speeds: `cfset*speed` and `cfget*speed`, and the conversions between the `B*` constants and the
-- rates in bits per second, `CBR_to_B` and `B_to_CBR` of rxtx-devel/src/termios.c.
use cameratrack.Base.{ℕ, ◌==◌, if◌then◌else◌, bit_or}
use cameratrack.Bits.{clear}
use cameratrack.Flags.{
  b0, b50, b75, b110, b134, b150, b200, b300, b600, b1200, b1800, b2400, b4800, b9600, b14400,
  b19200, b28800, b38400, b57600, b115200, b128000, b230400, b256000, b460800, b500000, b576000,
  b921600, b1000000, b1152000, b1500000, b2000000, b2500000, b3000000, b3500000, b4000000, cbaud,
  cbaudex,
}
use cameratrack.Termios.{Termios}

-- The speed constant of a rate. A rate with no constant is taken for a custom one and returned.
unfoldable pub cbr_to_b : ℕ → ℕ
cbr_to_b baud =
    if baud == 0
    then b0
    else if baud == 50
    then b50
    else if baud == 75
    then b75
    else if baud == 110
    then b110
    else if baud == 134
    then b134
    else if baud == 150
    then b150
    else if baud == 200
    then b200
    else if baud == 300
    then b300
    else if baud == 600
    then b600
    else if baud == 1200
    then b1200
    else if baud == 1800
    then b1800
    else if baud == 2400
    then b2400
    else if baud == 4800
    then b4800
    else if baud == 9600
    then b9600
    else if baud == 14400
    then b14400
    else if baud == 19200
    then b19200
    else if baud == 28800
    then b28800
    else if baud == 38400
    then b38400
    else if baud == 57600
    then b57600
    else if baud == 115200
    then b115200
    else if baud == 128000
    then b128000
    else if baud == 230400
    then b230400
    else if baud == 256000
    then b256000
    else if baud == 460800
    then b460800
    else if baud == 500000
    then b500000
    else if baud == 576000
    then b576000
    else if baud == 921600
    then b921600
    else if baud == 1000000
    then b1000000
    else if baud == 1152000
    then b1152000
    else if baud == 1500000
    then b1500000
    else if baud == 2000000
    then b2000000
    else if baud == 2500000
    then b2500000
    else if baud == 3000000
    then b3000000
    else if baud == 3500000
    then b3500000
    else if baud == 4000000
    then b4000000
    else baud

-- The rate of a speed constant. Any other number is taken for a custom rate.
unfoldable pub b_to_cbr : ℕ → ℕ
b_to_cbr baud =
    if baud == 0
    then 0
    else if baud == b50
    then 50
    else if baud == b75
    then 75
    else if baud == b110
    then 110
    else if baud == b134
    then 134
    else if baud == b150
    then 150
    else if baud == b200
    then 200
    else if baud == b300
    then 300
    else if baud == b600
    then 600
    else if baud == b1200
    then 1200
    else if baud == b1800
    then 1800
    else if baud == b2400
    then 2400
    else if baud == b4800
    then 4800
    else if baud == b9600
    then 9600
    else if baud == b14400
    then 14400
    else if baud == b19200
    then 19200
    else if baud == b28800
    then 28800
    else if baud == b38400
    then 38400
    else if baud == b57600
    then 57600
    else if baud == b115200
    then 115200
    else if baud == b128000
    then 128000
    else if baud == b230400
    then 230400
    else if baud == b256000
    then 256000
    else if baud == b460800
    then 460800
    else if baud == b500000
    then 500000
    else if baud == b576000
    then 576000
    else if baud == b921600
    then 921600
    else if baud == b1000000
    then 1000000
    else if baud == b1152000
    then 1152000
    else if baud == b1500000
    then 1500000
    else if baud == b2000000
    then 2000000
    else if baud == b2500000
    then 2500000
    else if baud == b3000000
    then 3000000
    else if baud == b3500000
    then 3500000
    else if baud == b4000000
    then 4000000
    else baud

-- Any speed is accepted. One with bits outside CBAUD is custom, and 0 leaves 9600 in `c_cflag`.
unfoldable pub cfsetospeed : Termios → ℕ → Termios
cfsetospeed t speed =
    let cflag = clear t.c_cflag cbaud in
    record t {
      c_cflag =
          if clear speed cbaud == 0
          then (if speed == 0 then bit_or cflag b9600 else bit_or cflag speed)
          else bit_or (bit_or cflag b38400) cbaudex;
      c_ispeed = speed;
      c_ospeed = speed;
    }

unfoldable pub cfsetispeed : Termios → ℕ → Termios
unfolding cfsetospeed
cfsetispeed t speed = cfsetospeed t speed

unfoldable pub cfsetspeed : Termios → ℕ → Termios
unfolding cfsetospeed
cfsetspeed t speed = cfsetospeed t speed

unfoldable pub cfgetospeed : Termios → ℕ
cfgetospeed t = t.c_ospeed

unfoldable pub cfgetispeed : Termios → ℕ
cfgetispeed t = t.c_ispeed
