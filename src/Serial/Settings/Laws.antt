-- ===== src/Serial/Settings/Laws.antt =====
-- What data bits, stop bits and parity do to `c_cflag`, mask by mask, and the reading back.
use cameratrack.Base.{
  ℕ, ℤ, pos, ◌is◌, ◌≡◌, refl, ◌∙◌, ◌&&◌, ◌||◌, Bool, Bool-cases, inl, inr, some, is_some,
  if◌then◌else◌, bit_and, bit_or, arith,
}
use cameratrack.Bits.{complement, clear}
use cameratrack.Flags.{csize, cs5, cstopb, stopbits_1, stopbits_2, stopbits_1_5}
use cameratrack.Serial.Settings.{
  translate_data_bits, translate_stop_bits, translate_parity, get_data_bits, get_parity_switch,
  java_stop_bits, translate_settings,
}
use cameratrack.Serial.Settings.Masks.{
  parity_mask, data_bits-keep, data_bits-get, stop_bits-keep, stop_bits-csize, stop_bits-cstopb,
  parity-keep, parity-get,
}

-- The three calls succeeded, one after the other.
abbrev pub Steps : ℕ → ℤ → ℤ → ℤ → ℕ → Type 0
Steps c data_bits stop_bits parity w =
    let w1 = (translate_data_bits c data_bits).0 in
    let w2 = (translate_stop_bits w1 stop_bits).0 in
    ((translate_data_bits c data_bits).1 ≡ 0)
    × ((translate_stop_bits w1 stop_bits).1 ≡ 0)
    × ((translate_parity w2 parity).1 ≡ 0)
    × (w ≡ (translate_parity w2 parity).0)

pub settings-Steps :
    (c : ℕ) (data_bits stop_bits parity : ℤ) (w : ℕ)
    → translate_settings c data_bits stop_bits parity ≡ some w
    → Steps c data_bits stop_bits parity w
unfolding translate_settings
settings-Steps c data_bits stop_bits parity w h = ground arith

get_data_bits-congr :
    (a b : ℕ) → bit_and a csize ≡ bit_and b csize → get_data_bits a ≡ get_data_bits b
unfolding get_data_bits
get_data_bits-congr a b e = rw e

get_data_bits-five : (w : ℕ) → bit_and w csize ≡ cs5 → get_data_bits w ≡ pos 5
unfolding get_data_bits
get_data_bits-five w e = rw e

-- Reading stop bits needs only the two masks.
java_stop_bits-of_masks :
    (w : ℕ) (one : Bool)
    → bit_and w cstopb ≡ (if one then 0 else cstopb)
    → java_stop_bits w ≡ (
        if one
        then pos stopbits_1
        else if get_data_bits w is 5
        then pos stopbits_1_5
        else pos stopbits_2)
unfolding java_stop_bits get_data_bits
java_stop_bits-of_masks w one e = ground arith

-- The bits that the three settings occupy.
abbrev pub settings_mask : ℕ
settings_mask = bit_or csize (bit_or cstopb parity_mask)

module _ (c : ℕ) (data_bits stop_bits parity : ℤ) where
  w1 : ℕ
  w1 = (translate_data_bits c data_bits).0

  w2 : ℕ
  unfolding w1
  w2 = (translate_stop_bits w1 stop_bits).0

  word-csize :
      bit_and (translate_parity w2 parity).0 csize
      ≡ (if stop_bits is stopbits_1_5 then cs5 else bit_and w1 csize)
  unfolding w2
  word-csize = parity-keep w2 parity csize refl refl refl refl refl ∙ stop_bits-csize w1 stop_bits

  word-cstopb :
      (translate_stop_bits w1 stop_bits).1 ≡ 0
      → bit_and (translate_parity w2 parity).0 cstopb
        ≡ (if stop_bits is stopbits_1 then 0 else cstopb)
  unfolding w2
  word-cstopb s =
      parity-keep w2 parity cstopb refl refl refl refl refl ∙ stop_bits-cstopb w1 stop_bits s

  word-keep : clear (translate_parity w2 parity).0 settings_mask ≡ clear c settings_mask
  unfolding w1 w2
  word-keep =
      parity-keep w2 parity (complement settings_mask) refl refl refl refl refl
      ∙ stop_bits-keep w1 stop_bits (complement settings_mask) refl refl refl
      ∙ data_bits-keep c data_bits (complement settings_mask) refl refl refl refl

  word-data_bits :
      (translate_data_bits c data_bits).1 ≡ 0
      → get_data_bits (translate_parity w2 parity).0
        ≡ (if stop_bits is stopbits_1_5 then pos 5 else data_bits)
  unfolding w1
  word-data_bits d = elim (Bool-cases (stop_bits is stopbits_1_5)) [
    | inl e ↦ rw e (get_data_bits-five _ (word-csize ∙ rw e))
    | inr e ↦ rw e (get_data_bits-congr _ w1 (word-csize ∙ rw e) ∙ data_bits-get c data_bits d)
  ]

-- Settings that are accepted read back as they were asked for, but 1.5 stop bits force 5 data bits,
-- and with 5 data bits 2 stop bits read as 1.5; no other bit of the word changes.
pub settings-read_back :
    (c : ℕ) (data_bits stop_bits parity : ℤ) (w : ℕ)
    → translate_settings c data_bits stop_bits parity ≡ some w
    → (get_data_bits w ≡ (if stop_bits is stopbits_1_5 then pos 5 else data_bits))
      × (java_stop_bits w ≡ (
          if stop_bits is stopbits_1
          then pos stopbits_1
          else if get_data_bits w is 5
          then pos stopbits_1_5
          else pos stopbits_2))
      × (get_parity_switch w ≡ parity)
      × (clear w settings_mask ≡ clear c settings_mask)
unfolding w1 w2
settings-read_back c data_bits stop_bits parity w done =
    let (d, s, p, e) = settings-Steps c data_bits stop_bits parity w done in
    rw e (
      word-data_bits c data_bits stop_bits parity d,
      java_stop_bits-of_masks _ (stop_bits is stopbits_1)
          (word-cstopb c data_bits stop_bits parity s),
      parity-get _ parity p,
      word-keep c data_bits stop_bits parity,
    )

-- Exactly the data bits 5 to 8, the stop bits 1, 2 and 1.5 and the five parities of
-- gnu.io.SerialPort are accepted, whatever the word was.
pub settings-accepted :
    (c : ℕ) (data_bits stop_bits parity : ℤ)
    → is_some (translate_settings c data_bits stop_bits parity) ≡ (
        (data_bits is 5 || data_bits is 6 || data_bits is 7 || data_bits is 8)
        && (stop_bits is 1 || stop_bits is 2 || stop_bits is 3)
        && (parity is 0 || parity is 1 || parity is 2 || parity is 3 || parity is 4))
unfolding translate_settings translate_data_bits translate_stop_bits translate_parity
settings-accepted c data_bits stop_bits parity = ground arith
