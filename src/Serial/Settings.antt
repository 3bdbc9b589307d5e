-- ===== src/Serial/Settings.antt =====
-- How rxtx-devel/src/SerialImp.c writes data bits, stop bits and parity into `c_cflag`, and how it
-- reads them back. A written word comes with the result, which is 0 on success.
pub mod Laws
pub mod Masks
pub mod Readers
use cameratrack.Base.{
  ℕ, ℤ, pos, negsuc, ◌is◌, ◌==◌, ◌&&◌, Option, none, some, if◌then◌else◌, bit_and, bit_or,
}
use cameratrack.Bits.{clear}
use cameratrack.Flags.{
  csize, cs5, cs6, cs7, cs8, cstopb, parenb, parodd, cmspar, jdatabits_5, jdatabits_6, jdatabits_7,
  jdatabits_8, jparity_none, jparity_odd, jparity_even, jparity_mark, jparity_space, stopbits_1,
  stopbits_2, stopbits_1_5,
}
use cameratrack.Termios.Convert.{has}

unfoldable pub translate_data_bits : ℕ → ℤ → ℕ × ℕ
translate_data_bits cflag bits =
    let temp = clear cflag csize in
    if bits is jdatabits_5
    then (bit_or temp cs5, 0)
    else if bits is jdatabits_6
    then (bit_or temp cs6, 0)
    else if bits is jdatabits_7
    then (bit_or temp cs7, 0)
    else if bits is jdatabits_8
    then (bit_or temp cs8, 0)
    else (cflag, 1)

-- 1.5 stop bits also make the data bits 5.
unfoldable pub translate_stop_bits : ℕ → ℤ → ℕ × ℕ
unfolding translate_data_bits
translate_stop_bits cflag bits =
    if bits is stopbits_1
    then (clear cflag cstopb, 0)
    else if bits is stopbits_1_5
    then (let (word, failed) = translate_data_bits (bit_or cflag cstopb) (pos jdatabits_5) in
        if failed == 0 then (word, 0) else (word, 1))
    else if bits is stopbits_2
    then (bit_or cflag cstopb, 0)
    else (cflag, 1)

-- The parity bits are cleared also when the value is then refused.
unfoldable pub translate_parity : ℕ → ℤ → ℕ × ℕ
translate_parity cflag0 parity =
    let cflag = clear cflag0 (bit_or parenb (bit_or parodd cmspar)) in
    if parity is jparity_none
    then (cflag, 0)
    else if parity is jparity_even
    then (bit_or cflag parenb, 0)
    else if parity is jparity_odd
    then (bit_or cflag (bit_or parenb parodd), 0)
    else if parity is jparity_mark
    then (bit_or cflag (bit_or parenb (bit_or parodd cmspar)), 0)
    else if parity is jparity_space
    then (bit_or cflag (bit_or parenb cmspar), 0)
    else (cflag, 1)

-- The `switch` of `nativeStaticGetDataBits`, and that of `set_java_vars`, which starts from -1.
unfoldable pub get_data_bits : ℕ → ℤ
get_data_bits cflag =
    let size = bit_and cflag csize in
    if size == cs5
    then pos jdatabits_5
    else if size == cs6
    then pos jdatabits_6
    else if size == cs7
    then pos jdatabits_7
    else if size == cs8
    then pos jdatabits_8
    else negsuc 0

-- The `switch` of `nativeStaticGetParity` and `set_java_vars`.
unfoldable pub get_parity_switch : ℕ → ℤ
get_parity_switch cflag =
    let bits = bit_and cflag (bit_or parenb (bit_or parodd cmspar)) in
    if bits == 0
    then pos jparity_none
    else if bits == parenb
    then pos jparity_even
    else if bits == bit_or parenb parodd
    then pos jparity_odd
    else if bits == bit_or parenb (bit_or parodd cmspar)
    then pos jparity_mark
    else if bits == bit_or parenb cmspar
    then pos jparity_space
    else negsuc 0

-- The ladder of `nativeGetParity`. Its test for space is `c_cflag & (PARENB && c_cflag & CMSPAR)`:
-- the `&&` makes the mask 0 or 1.
unfoldable pub native_get_parity : ℕ → ℤ
native_get_parity cflag =
    if has cflag parenb && (has cflag parodd && has cflag cmspar)
    then pos jparity_mark
    else if has cflag (if has cflag cmspar then 1 else 0)
    then pos jparity_space
    else if has cflag parenb && has cflag parodd
    then pos jparity_odd
    else if has cflag parenb
    then pos jparity_even
    else pos jparity_none

-- The `switch` of `set_java_vars`.
unfoldable pub java_stop_bits : ℕ → ℤ
java_stop_bits cflag =
    let bits = bit_and cflag cstopb in
    if bits == 0
    then pos stopbits_1
    else if bits == cstopb
    then (if bit_and cflag csize == cs5 then pos stopbits_1_5 else pos stopbits_2)
    else pos stopbits_1_5

-- The `switch` of `nativeStaticGetStopBits`, which tests `c_cflag & CS5`.
unfoldable pub static_stop_bits : ℕ → ℤ
static_stop_bits cflag =
    let bits = bit_and cflag cstopb in
    if bits == 0
    then pos stopbits_1
    else if bits == cstopb
    then (if has cflag cs5 then pos stopbits_1_5 else pos stopbits_2)
    else negsuc 0

-- The three calls of `set_port_params`, each with its early return.
unfoldable pub translate_settings : ℕ → ℤ → ℤ → ℤ → Option ℕ
translate_settings cflag data_bits stop_bits parity =
    let (w1, failed1) = translate_data_bits cflag data_bits in
    if failed1 == 0
    then (let (w2, failed2) = translate_stop_bits w1 stop_bits in
        if failed2 == 0
        then (let (w3, failed3) = translate_parity w2 parity in
            if failed3 == 0 then some w3 else none)
        else none)
    else none
