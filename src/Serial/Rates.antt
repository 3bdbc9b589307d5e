-- ===== src/Serial/Rates.antt =====
-- `translate_speed` and `get_java_baudrate` of rxtx-devel/src/SerialImp.c: between Java's rates in
-- bits per second and the speed constants. On Windows every constant of the two ladders is defined.
use cameratrack.Base.{ℕ, ℤ, pos, negsuc, ◌==◌, if◌then◌else◌}
use cameratrack.Flags.{
  b0, b50, b75, b110, b134, b150, b200, b300, b600, b1200, b1800, b2400, b4800, b9600, b14400,
  b19200, b28800, b38400, b57600, b115200, b128000, b230400, b256000, b460800, b500000, b576000,
  b921600, b1000000, b1152000, b1500000, b2000000, b2500000, b3000000, b3500000, b4000000,
}

-- The `switch` of `translate_speed`, whose default is a custom speed.
unfoldable pub speed_constant : ℕ → ℕ
speed_constant speed =
    if speed == 0
    then b0
    else if speed == 50
    then b50
    else if speed == 75
    then b75
    else if speed == 110
    then b110
    else if speed == 134
    then b134
    else if speed == 150
    then b150
    else if speed == 200
    then b200
    else if speed == 300
    then b300
    else if speed == 600
    then b600
    else if speed == 1200
    then b1200
    else if speed == 1800
    then b1800
    else if speed == 2400
    then b2400
    else if speed == 4800
    then b4800
    else if speed == 9600
    then b9600
    else if speed == 14400
    then b14400
    else if speed == 19200
    then b19200
    else if speed == 28800
    then b28800
    else if speed == 38400
    then b38400
    else if speed == 57600
    then b57600
    else if speed == 115200
    then b115200
    else if speed == 128000
    then b128000
    else if speed == 230400
    then b230400
    else if speed == 256000
    then b256000
    else if speed == 460800
    then b460800
    else if speed == 500000
    then b500000
    else if speed == 576000
    then b576000
    else if speed == 921600
    then b921600
    else if speed == 1000000
    then b1000000
    else if speed == 1152000
    then b1152000
    else if speed == 1500000
    then b1500000
    else if speed == 2000000
    then b2000000
    else if speed == 2500000
    then b2500000
    else if speed == 3000000
    then b3000000
    else if speed == 3500000
    then b3500000
    else if speed == 4000000
    then b4000000
    else speed

unfoldable pub translate_speed : ℤ → ℤ
unfolding speed_constant
translate_speed (pos speed) = pos (speed_constant speed)
translate_speed (negsuc n) = negsuc 0

unfoldable pub get_java_baudrate : ℕ → ℤ
get_java_baudrate speed =
    if speed == b0
    then pos 0
    else if speed == b50
    then pos 50
    else if speed == b75
    then pos 75
    else if speed == b110
    then pos 110
    else if speed == b134
    then pos 134
    else if speed == b150
    then pos 150
    else if speed == b200
    then pos 200
    else if speed == b300
    then pos 300
    else if speed == b600
    then pos 600
    else if speed == b1200
    then pos 1200
    else if speed == b1800
    then pos 1800
    else if speed == b2400
    then pos 2400
    else if speed == b4800
    then pos 4800
    else if speed == b9600
    then pos 9600
    else if speed == b14400
    then pos 14400
    else if speed == b19200
    then pos 19200
    else if speed == b28800
    then pos 28800
    else if speed == b38400
    then pos 38400
    else if speed == b57600
    then pos 57600
    else if speed == b115200
    then pos 115200
    else if speed == b128000
    then pos 128000
    else if speed == b230400
    then pos 230400
    else if speed == b256000
    then pos 256000
    else if speed == b460800
    then pos 460800
    else if speed == b500000
    then pos 500000
    else if speed == b576000
    then pos 576000
    else if speed == b921600
    then pos 921600
    else if speed == b1000000
    then pos 1000000
    else if speed == b1152000
    then pos 1152000
    else if speed == b1500000
    then pos 1500000
    else if speed == b2000000
    then pos 2000000
    else if speed == b2500000
    then pos 2500000
    else if speed == b3000000
    then pos 3000000
    else if speed == b3500000
    then pos 3500000
    else if speed == b4000000
    then pos 4000000
    else negsuc 0
