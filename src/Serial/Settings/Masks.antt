-- ===== src/Serial/Settings/Masks.antt =====
-- What data bits, stop bits and parity each do to `c_cflag`, mask by mask.
use cameratrack.Base.{ℕ, ℤ, ◌is◌, ◌≡◌, refl, if◌then◌else◌, bit_and, bit_or, arith}
use cameratrack.Bits.{
  complement, clear, zero-bit_and, bit_and-bit_or, bit_and_self, bit_or-bit_and_absorb, mask_laws,
}
use cameratrack.Flags.{
  csize, cs5, cs6, cs7, cs8, cstopb, parenb, parodd, cmspar, stopbits_1, stopbits_1_5,
}
use cameratrack.Serial.Settings.{
  translate_data_bits, translate_stop_bits, translate_parity, get_data_bits, get_parity_switch,
}

abbrev pub parity_mask : ℕ
parity_mask = bit_or parenb (bit_or parodd cmspar)

-- A mask that a field lies outside of reads the same after the field is written.
abbrev Outside : ℕ → ℕ → Type 0
Outside mask m = (bit_and (complement mask) m ≡ m) × (bit_and mask m ≡ 0)

pub keep-put :
    (c mask v m : ℕ)
    → bit_and (complement mask) m ≡ m
    → bit_and v m ≡ 0
    → bit_and (bit_or (clear c mask) v) m ≡ bit_and c m
keep-put c mask v m p q = simp (mask_laws, p, q)

pub keep-set : (c v m : ℕ) → bit_and v m ≡ 0 → bit_and (bit_or c v) m ≡ bit_and c m
keep-set c v m q = simp (mask_laws, q)

pub keep-clear :
    (c mask m : ℕ) → bit_and (complement mask) m ≡ m → bit_and (clear c mask) m ≡ bit_and c m
keep-clear c mask m p = simp (mask_laws, p)

pub get-put :
    (c mask v : ℕ)
    → bit_and (complement mask) mask ≡ 0
    → bit_and v mask ≡ v
    → bit_and (bit_or (clear c mask) v) mask ≡ v
get-put c mask v p q = simp (mask_laws, p, q)

-- Outside CSIZE, the data bits change nothing. The premises hold by `refl` at a numeral `m`.
pub clear_self : (c mask : ℕ) → bit_and (complement mask) mask ≡ 0 → bit_and (clear c mask) mask ≡ 0
clear_self c mask p = simp (mask_laws, p)

pub set_self : (c mask : ℕ) → bit_and (bit_or c mask) mask ≡ mask
set_self c mask = rw (bit_and-bit_or, bit_and_self) (bit_or-bit_and_absorb c mask)

pub data_bits-keep :
    (c : ℕ) (bits : ℤ) (m : ℕ)
    → bit_and (complement csize) m ≡ m
    → bit_and cs6 m ≡ 0
    → bit_and cs7 m ≡ 0
    → bit_and cs8 m ≡ 0
    → bit_and (translate_data_bits c bits).0 m ≡ bit_and c m
unfolding translate_data_bits
data_bits-keep c bits m p q6 q7 q8 = ground (
  arith,
  keep-put c csize cs5 m p (zero-bit_and m),
  keep-put c csize cs6 m p q6,
  keep-put c csize cs7 m p q7,
  keep-put c csize cs8 m p q8,
)

pub data_bits-get :
    (c : ℕ) (bits : ℤ)
    → (translate_data_bits c bits).1 ≡ 0
    → get_data_bits (translate_data_bits c bits).0 ≡ bits
unfolding translate_data_bits get_data_bits
data_bits-get c bits h = ground (
  arith,
  get-put c csize cs5 refl refl,
  get-put c csize cs6 refl refl,
  get-put c csize cs7 refl refl,
  get-put c csize cs8 refl refl,
)

pub stop_bits-keep :
    (c : ℕ) (bits : ℤ) (m : ℕ)
    → bit_and (complement cstopb) m ≡ m
    → bit_and (complement csize) m ≡ m
    → bit_and cstopb m ≡ 0
    → bit_and (translate_stop_bits c bits).0 m ≡ bit_and c m
unfolding translate_stop_bits
stop_bits-keep c bits m p q r = ground (
  arith,
  keep-clear c cstopb m p,
  keep-set c cstopb m r,
  keep-put (bit_or c cstopb) csize cs5 m q (zero-bit_and m),
)

-- The data bits after the stop bits: 5 for 1.5 stop bits.
pub stop_bits-csize :
    (c : ℕ) (bits : ℤ)
    → bit_and (translate_stop_bits c bits).0 csize
      ≡ (if bits is stopbits_1_5 then cs5 else bit_and c csize)
unfolding translate_stop_bits
stop_bits-csize c bits = ground (
  arith,
  keep-clear c cstopb csize refl,
  keep-set c cstopb csize refl,
  get-put (bit_or c cstopb) csize cs5 refl refl,
)

pub stop_bits-cstopb :
    (c : ℕ) (bits : ℤ)
    → (translate_stop_bits c bits).1 ≡ 0
    → bit_and (translate_stop_bits c bits).0 cstopb ≡ (if bits is stopbits_1 then 0 else cstopb)
unfolding translate_stop_bits
stop_bits-cstopb c bits h = ground (
  arith,
  clear_self c cstopb refl,
  set_self c cstopb,
  keep-put (bit_or c cstopb) csize cs5 cstopb refl refl,
)

pub parity-keep :
    (c : ℕ) (parity : ℤ) (m : ℕ)
    → bit_and (complement parity_mask) m ≡ m
    → bit_and parenb m ≡ 0
    → bit_and (bit_or parenb parodd) m ≡ 0
    → bit_and parity_mask m ≡ 0
    → bit_and (bit_or parenb cmspar) m ≡ 0
    → bit_and (translate_parity c parity).0 m ≡ bit_and c m
unfolding translate_parity
parity-keep c parity m p q1 q2 q3 q4 = ground (
  arith,
  keep-clear c parity_mask m p,
  keep-put c parity_mask parenb m p q1,
  keep-put c parity_mask (bit_or parenb parodd) m p q2,
  keep-put c parity_mask parity_mask m p q3,
  keep-put c parity_mask (bit_or parenb cmspar) m p q4,
)

pub parity-get :
    (c : ℕ) (parity : ℤ)
    → (translate_parity c parity).1 ≡ 0
    → get_parity_switch (translate_parity c parity).0 ≡ parity
unfolding translate_parity get_parity_switch
parity-get c parity h = ground (
  arith,
  clear_self c parity_mask refl,
  get-put c parity_mask parenb refl refl,
  get-put c parity_mask (bit_or parenb parodd) refl refl,
  get-put c parity_mask parity_mask refl refl,
  get-put c parity_mask (bit_or parenb cmspar) refl refl,
)
