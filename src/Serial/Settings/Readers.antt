-- ===== src/Serial/Settings/Readers.antt =====
-- The readers of rxtx-devel/src/SerialImp.c that differ from the `switch`es of `set_java_vars`:
-- `nativeGetParity` and `nativeStaticGetStopBits`.
use cameratrack.Base.{
  ℕ, ℤ, pos, ◌is◌, ◌≡◌, refl, ◌∙◌, sym, ap, some, if◌then◌else◌, bit_and, bit_or, arith,
}
use cameratrack.Bits.{bit_and_assoc, bit_and-zero, bit_and_single}
use cameratrack.Flags.{
  parenb, parodd, cmspar, jparity_even, jparity_space, stopbits_2, stopbits_1_5,
}
use cameratrack.Termios.Convert.{has}
use cameratrack.Serial.Settings.{
  translate_parity, native_get_parity, static_stop_bits, java_stop_bits, translate_settings,
}
use cameratrack.Serial.Settings.Laws.{Steps, settings-Steps}
use cameratrack.Serial.Settings.Masks.{
  parity_mask, get-put, clear_self, parity-keep, stop_bits-keep, data_bits-keep,
}

-- The bits that stand for a parity.
abbrev parity_bits : ℤ → ℕ
parity_bits parity =
    if parity is 0
    then 0
    else if parity is 2
    then parenb
    else if parity is 1
    then bit_or parenb parodd
    else if parity is 3
    then parity_mask
    else bit_or parenb cmspar

parity-bits :
    (c : ℕ) (parity : ℤ)
    → (translate_parity c parity).1 ≡ 0
    → bit_and (translate_parity c parity).0 parity_mask ≡ parity_bits parity
unfolding translate_parity
parity-bits c parity h = ground (
  arith,
  clear_self c parity_mask refl,
  get-put c parity_mask parenb refl refl,
  get-put c parity_mask (bit_or parenb parodd) refl refl,
  get-put c parity_mask parity_mask refl refl,
  get-put c parity_mask (bit_or parenb cmspar) refl refl,
)

-- One bit of the parity mask.
under_mask :
    (w m v : ℕ) → bit_and parity_mask m ≡ m → bit_and w parity_mask ≡ v → bit_and w m ≡ bit_and v m
under_mask w m v p e = ap (bit_and w) (sym p) ∙ sym (bit_and_assoc w parity_mask m) ∙ rw e

-- The reader over the bits that it looks at.
native_get_parity-of_bits :
    (w c d : ℕ) (parity : ℤ)
    → bit_and w parity_mask ≡ parity_bits parity
    → bit_and w 1 ≡ bit_and c 1
    → (translate_parity d parity).1 ≡ 0
    → native_get_parity w ≡ (
        if parity is jparity_space
        then (if has c 1 then pos jparity_space else pos jparity_even)
        else parity)
unfolding native_get_parity translate_parity
native_get_parity-of_bits w c d parity e k h = ground (
  arith,
  under_mask w parenb (parity_bits parity) refl e,
  under_mask w parodd (parity_bits parity) refl e,
  under_mask w cmspar (parity_bits parity) refl e,
  bit_and-zero w,
)

Steps-low_bit :
    (c : ℕ) (data_bits stop_bits parity : ℤ) (w : ℕ)
    → Steps c data_bits stop_bits parity w
    → bit_and w 1 ≡ bit_and c 1
Steps-low_bit c data_bits stop_bits parity w (d, s, p, e) = rw e (
    parity-keep _ parity 1 refl refl refl refl refl
    ∙ stop_bits-keep _ stop_bits 1 refl refl refl
    ∙ data_bits-keep c data_bits 1 refl refl refl refl)

-- nativeGetParity reads an accepted parity back, but for space parity: there it looks at the lowest
-- bit of the word, which belongs to the speed, and answers even parity when that is clear.
pub settings-native_get_parity :
    (c : ℕ) (data_bits stop_bits parity : ℤ) (w : ℕ)
    → translate_settings c data_bits stop_bits parity ≡ some w
    → native_get_parity w ≡ (
        if parity is jparity_space
        then (if has c 1 then pos jparity_space else pos jparity_even)
        else parity)
settings-native_get_parity c data_bits stop_bits parity w done =
    let steps = settings-Steps c data_bits stop_bits parity w done in
    native_get_parity-of_bits w c _ parity (rw steps.3 (parity-bits _ parity steps.2))
      (Steps-low_bit c data_bits stop_bits parity w steps) steps.2

-- nativeStaticGetStopBits never answers 1.5 stop bits: where the reader of set_java_vars answers 1.5
-- it answers 2, and on all other words the two agree.
pub static_stop_bits-java_stop_bits :
    (w : ℕ)
    → static_stop_bits w
      ≡ (if java_stop_bits w is stopbits_1_5 then pos stopbits_2 else java_stop_bits w)
unfolding static_stop_bits java_stop_bits
static_stop_bits-java_stop_bits w = ground (arith, bit_and_single 6 w, bit_and-zero w)
