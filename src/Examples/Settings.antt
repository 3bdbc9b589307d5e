-- ===== src/Examples/Settings.antt =====
-- Settings of the example port.
use cameratrack.Base.{
  ◌⊎◌, ℕ, pos, ◌is◌, ◌≡◌, ◌≢◌, ◌↔◌, refl, false, some, is_some, if◌then◌else◌, arith,
}
use cameratrack.Bits.{clear}
use cameratrack.Termios.{Dcb}
use cameratrack.Termios.Comm.{Sys}
use cameratrack.Termios.Convert.{
  termios_to_dcb, dcb_to_termios, iflag_of_dcb, cflag_of_dcb, framing_of_dcb, add_parity,
  add_stop_bits, bytesize_to_termios,
}
use cameratrack.Termios.Speed.{cbr_to_b, cfsetispeed, cfsetospeed}
use cameratrack.Termios.Attr.{tcgetattr, tcsetattr, control, termios_of}
use cameratrack.Termios.Attr.Laws.{IsRaw}
use cameratrack.Serial.Settings.{
  translate_settings, translate_data_bits, translate_stop_bits, translate_parity, get_data_bits,
  get_parity_switch, java_stop_bits, native_get_parity, static_stop_bits,
}
use cameratrack.Serial.Settings.Laws.{settings-read_back, settings-accepted, settings_mask}
use cameratrack.Serial.Settings.Readers.{
  settings-native_get_parity, static_stop_bits-java_stop_bits,
}
use cameratrack.Serial.Params.{set_port_params}
use cameratrack.Serial.Params.Accepted.{set_port_params-is_valid}
use cameratrack.Serial.Params.Device.{set_port_params-HasSettings, HasSettings}
use cameratrack.Serial.Params.Speeds.{
  termios_to_dcb-speed_constant_iff, is_constant, get_java_baudrate-cbr_to_b, effective_speed,
  cfsetospeed-effective_speed,
}
use cameratrack.Serial.Rates.{speed_constant, get_java_baudrate}
use cameratrack.Examples.Setup.{Driver, driver, driver_laws, dcb, modes, port, sys}

raw : IsRaw modes
raw = record { not_canonical = refl; not_ignored = refl }

after : Sys Driver
after = (set_port_params driver modes 1 13 (pos 7) (pos 2) (pos 2) sys).1

accepted : set_port_params driver modes 1 13 (pos 7) (pos 2) (pos 2) sys ≡ (0, after)
unfolding after set_port_params tcgetattr termios_of iflag_of_dcb cflag_of_dcb framing_of_dcb
    add_parity add_stop_bits bytesize_to_termios dcb_to_termios cbr_to_b translate_settings
    translate_data_bits translate_stop_bits translate_parity cfsetispeed cfsetospeed tcsetattr
    control termios_to_dcb
accepted = refl

set_port_params-HasSettings_example :
    (d : Dcb) × (driver.get_state 7 after.comm ≡ some d) × HasSettings d 13 (pos 7) (pos 2) (pos 2)
set_port_params-HasSettings_example =
    set_port_params-HasSettings driver driver_laws 1 13 (pos 7) (pos 2) (pos 2) modes port sys after
      (omega arith) (omega arith) refl raw accepted

-- 8 data bits, 1.5 stop bits and space parity, over the word 0o275.
word : ℕ
word = 0o10000000715

word_accepted : translate_settings 0o275 (pos 8) (pos 3) (pos 4) ≡ some word
unfolding word translate_settings translate_data_bits translate_stop_bits translate_parity
word_accepted = refl

settings-read_back_example :
    (get_data_bits word ≡ pos 5)
    × (java_stop_bits word ≡ (if get_data_bits word is 5 then pos 3 else pos 2))
    × (get_parity_switch word ≡ pos 4)
    × (clear word settings_mask ≡ clear 0o275 settings_mask)
settings-read_back_example = settings-read_back 0o275 (pos 8) (pos 3) (pos 4) word word_accepted

settings-native_get_parity_example : native_get_parity word ≡ pos 4
settings-native_get_parity_example =
    settings-native_get_parity 0o275 (pos 8) (pos 3) (pos 4) word word_accepted

settings-accepted_example : is_some (translate_settings 0o275 (pos 9) (pos 1) (pos 0)) ≡ false
settings-accepted_example = settings-accepted 0o275 (pos 9) (pos 1) (pos 0)

static_stop_bits-java_stop_bits_example :
    static_stop_bits 0o100 ≡ (if java_stop_bits 0o100 is 3 then pos 2 else java_stop_bits 0o100)
static_stop_bits-java_stop_bits_example = static_stop_bits-java_stop_bits 0o100

-- A rate that is a constant is misread: 13 is B9600.
termios_to_dcb-speed_constant_iff_example :
    ((termios_to_dcb (cfsetospeed modes (speed_constant 13)) dcb).1.baud_rate ≡ 13)
    ↔ ((is_constant 13 ≡ false) × (◌≢◌ {A = ℕ} 13 0))
termios_to_dcb-speed_constant_iff_example =
    termios_to_dcb-speed_constant_iff modes dcb 13 (omega arith)

get_java_baudrate-cbr_to_b_example :
    (speed_constant 9600 ≡ cbr_to_b 9600)
    × ((speed_constant 9600 ≡ 9600) ⊎ (get_java_baudrate (speed_constant 9600) ≡ pos 9600))
get_java_baudrate-cbr_to_b_example = get_java_baudrate-cbr_to_b 9600

cfsetospeed-effective_speed_example : effective_speed (cfsetospeed modes 250000) ≡ 250000
cfsetospeed-effective_speed_example = cfsetospeed-effective_speed modes 250000 (omega arith)

-- 9 data bits are refused.
set_port_params-is_valid_example :
    (set_port_params driver modes 1 13 (pos 9) (pos 1) (pos 0) sys).0 ≡ 1
set_port_params-is_valid_example =
    set_port_params-is_valid driver 1 13 (pos 9) (pos 1) (pos 0) modes port sys (omega arith)
      (omega arith) refl raw ((λ w. refl), (λ w. refl), (λ d w. refl), (λ t w. refl))
