-- ===== src/Serial/Params/Readers.antt =====
-- The readers of the DCB and those of Java on one word.
use cameratrack.Base.{
  ℕ, ℤ, pos, negsuc, ◌^◌, ◌≡◌, refl, ◌∙◌, sym, inl, inr, some, bit_and, bit_or, arith,
}
use cameratrack.Bits.{bit_and_assoc, bit_and_comm, bit_and-bit_or, bit_and_single}
use cameratrack.Flags.{csize, cstopb, parenb, parodd, cmspar}
use cameratrack.Termios.{
  Parity, no_parity, odd_parity, even_parity, mark_parity, space_parity, StopBits, one_stop_bit,
  one5_stop_bits, two_stop_bits,
}
use cameratrack.Termios.Convert.{termios_to_bytesize, parity_of_cflag, stop_bits_of_cflag}
use cameratrack.Serial.Settings.{
  translate_settings, get_data_bits, get_parity_switch, java_stop_bits,
}
use cameratrack.Serial.Settings.Laws.{settings-accepted}
use cameratrack.Serial.Settings.Masks.{parity_mask}

-- The `jint`s of a parity and of stop bits in the DCB.
abbrev pub jparity : Parity → ℤ
jparity no_parity = pos 0
jparity odd_parity = pos 1
jparity even_parity = pos 2
jparity mark_parity = pos 3
jparity space_parity = pos 4

abbrev pub jstop_bits : StopBits → ℤ
jstop_bits one_stop_bit = pos 1
jstop_bits two_stop_bits = pos 2
jstop_bits one5_stop_bits = pos 3

-- The readers of the DCB and those of Java see the same settings.
csize_cases : (w : ℕ) → bit_and w csize ≡ bit_or (bit_and w (2 ^ 4)) (bit_and w (2 ^ 5))
csize_cases w =
    bit_and_comm w csize
    ∙ bit_and-bit_or (2 ^ 4) (2 ^ 5) w
    ∙ rw (bit_and_comm (2 ^ 4) w, bit_and_comm (2 ^ 5) w)

pub bytesize-get_data_bits : (w : ℕ) → get_data_bits w ≡ pos (termios_to_bytesize w)
unfolding get_data_bits termios_to_bytesize
bytesize-get_data_bits w = elim (bit_and_single 4 w) [
  | inl a ↦ elim (bit_and_single 5 w) [
    | inl b ↦ rw (csize_cases w, a, b) refl
    | inr b ↦ rw (csize_cases w, a, b) refl
  ]
  | inr a ↦ elim (bit_and_single 5 w) [
    | inl b ↦ rw (csize_cases w, a, b) refl
    | inr b ↦ rw (csize_cases w, a, b) refl
  ]
]

pub under : (w m n : ℕ) → bit_and m n ≡ n → bit_and w n ≡ bit_and (bit_and w m) n
under w m n p = sym (bit_and_assoc w m n ∙ rw p)

pub parity-get_parity_switch :
    (w : ℕ) (n : ℕ) → get_parity_switch w ≡ pos n → jparity (parity_of_cflag w) ≡ pos n
unfolding get_parity_switch parity_of_cflag
parity-get_parity_switch w n h = ground (
  arith,
  under w parity_mask parenb refl,
  under w parity_mask parodd refl,
  under w parity_mask cmspar refl,
)

pub stop_bits-java_stop_bits :
    (w : ℕ) → jstop_bits (stop_bits_of_cflag w (termios_to_bytesize w)) ≡ java_stop_bits w
unfolding stop_bits_of_cflag java_stop_bits termios_to_bytesize
stop_bits-java_stop_bits w = ground (arith, bit_and_single 6 w)

pub accepted-pos :
    (c : ℕ) (data_bits stop_bits parity : ℤ) (w : ℕ)
    → translate_settings c data_bits stop_bits parity ≡ some w
    → (n : ℕ) × (parity ≡ pos n)
accepted-pos c data_bits stop_bits (pos n) w done = (n, refl)
accepted-pos c data_bits stop_bits (negsuc n) w done =
    absurd (ground (arith, settings-accepted c data_bits stop_bits (negsuc n)))

-- Two words that agree on the settings are read alike.
pub data_bits-congr :
    (a b : ℕ) → bit_and a csize ≡ bit_and b csize → get_data_bits a ≡ get_data_bits b
unfolding get_data_bits
data_bits-congr a b e = rw e

pub parity-congr :
    (a b : ℕ)
    → bit_and a parity_mask ≡ bit_and b parity_mask
    → get_parity_switch a ≡ get_parity_switch b
unfolding get_parity_switch
parity-congr a b e = rw e

pub stop_bits-congr :
    (a b : ℕ)
    → bit_and a csize ≡ bit_and b csize
    → bit_and a cstopb ≡ bit_and b cstopb
    → java_stop_bits a ≡ java_stop_bits b
unfolding java_stop_bits
stop_bits-congr a b e f = rw (e, f)
