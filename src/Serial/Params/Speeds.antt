-- ===== src/Serial/Params/Speeds.antt =====
-- What becomes of a speed on its way from Java to the DCB.
use cameratrack.Base.{
  ℕ, pos, ◌≤◌, ◌≡◌, ◌≢◌, ◌↔◌, ◌⊎◌, inl, inr, refl, sym, ap, ◌∙◌, Bool, Bool-cases, ==_iff, zero,
  suc, false, ◌&&◌, ◌||◌, leb, ◌==◌, if◌then◌else◌, bit_and, bit_or, arith,
}
use cameratrack.Bits.{complement, clear, mask_laws, bit_and_assoc, bit_and-zero, bit_and-of_clear}
use cameratrack.Flags.{cbaud, cbaudex, b9600, b38400}
use cameratrack.Termios.{Termios, Dcb}
use cameratrack.Termios.Speed.{b_to_cbr, cbr_to_b, cfsetospeed}
use cameratrack.Termios.Convert.{has, termios_to_dcb}
use cameratrack.Serial.Settings.Masks.{keep-put, keep-set}
use cameratrack.Serial.Rates.{speed_constant, get_java_baudrate}

-- The numbers that are speed constants, other than B0.
abbrev pub is_constant : ℕ → Bool
is_constant n =
    (leb 1 n && leb n 15) || (leb 0o10001 n && leb n 0o10017) || (leb 0o20001 n && leb n 0o20004)

b_to_cbr-constant : (n : ℕ) → (b_to_cbr n ≡ n) ↔ (is_constant n ≡ false)
unfolding b_to_cbr
b_to_cbr-constant n = ground arith

rate-named : (rate : ℕ) → (b_to_cbr (speed_constant rate) ≡ rate) ⊎ (speed_constant rate ≡ rate)
unfolding b_to_cbr speed_constant
rate-named rate = ground arith

rate-not_constant : (rate : ℕ) → (is_constant rate ≡ false) ⊎ (speed_constant rate ≡ rate)
unfolding speed_constant
rate-not_constant rate = ground arith

b_to_cbr-speed_constant_iff :
    (rate : ℕ) → (b_to_cbr (speed_constant rate) ≡ rate) ↔ (is_constant rate ≡ false)
b_to_cbr-speed_constant_iff rate = elim (rate-named rate) [
  | inr e ↦ rw e (b_to_cbr-constant rate)
  | inl e ↦ elim (rate-not_constant rate) [
    | inr f ↦ rw f (b_to_cbr-constant rate)
    | inl c ↦ (λ _. c, λ _. e)
  ]
]

speed_constant-zero : (rate : ℕ) → (speed_constant rate ≡ 0) ↔ (rate ≡ 0)
unfolding speed_constant
speed_constant-zero rate = ground arith

speed_constant-fits : (rate : ℕ) → rate ≤ 0xffff_ffff → speed_constant rate ≤ 0xffff_ffff
unfolding speed_constant
speed_constant-fits rate fits = ground arith

speed_constant-eq-cbr_to_b : (rate : ℕ) → speed_constant rate ≡ cbr_to_b rate
unfolding speed_constant cbr_to_b
speed_constant-eq-cbr_to_b rate = ground arith

get_java_baudrate-speed_constant :
    (rate : ℕ) → speed_constant rate ≢ rate → get_java_baudrate (speed_constant rate) ≡ pos rate
unfolding get_java_baudrate speed_constant
get_java_baudrate-speed_constant rate ne = ground arith

-- The ladders of translate_speed and CBR_to_B, from rates to constants, are one function; a rate has
-- no constant of its own, or get_java_baudrate reads it back from the constant.
pub get_java_baudrate-cbr_to_b :
    (rate : ℕ)
    → (speed_constant rate ≡ cbr_to_b rate)
      × ((speed_constant rate ≡ rate) ⊎ (get_java_baudrate (speed_constant rate) ≡ pos rate))
get_java_baudrate-cbr_to_b rate = (
  speed_constant-eq-cbr_to_b rate,
  elim (Bool-cases (speed_constant rate == rate)) [
    | inl e ↦ inl (ground (arith, e))
    | inr e ↦ inr (get_java_baudrate-speed_constant rate (ground (arith, e)))
  ],
)

-- The speed that `termios_to_DCB` reads after `cfsetospeed`.
abbrev pub effective_speed : Termios → ℕ
effective_speed t = if has t.c_cflag cbaudex then t.c_ispeed else bit_and t.c_cflag cbaud

cfsetospeed-within :
    (t : Termios) (speed : ℕ)
    → speed ≤ 0xffff_ffff
    → clear speed cbaud ≡ 0
    → speed ≢ 0
    → effective_speed (cfsetospeed t speed) ≡ speed
unfolding cfsetospeed
cfsetospeed-within t speed fits e ne =
    let all : bit_and speed cbaud ≡ speed = bit_and-of_clear speed cbaud fits (omega arith) e in
    let extended : bit_and (bit_or (clear t.c_cflag cbaud) speed) cbaudex ≡ bit_and speed cbaudex =
      simp mask_laws in
    let coded : bit_and (bit_or (clear t.c_cflag cbaud) speed) cbaud ≡ bit_and speed cbaud =
      simp mask_laws in
    ground arith

cfsetospeed-custom :
    (t : Termios) (speed : ℕ)
    → clear speed cbaud ≢ 0
    → effective_speed (cfsetospeed t speed) ≡ speed
unfolding cfsetospeed
cfsetospeed-custom t speed ne =
    let extended : bit_and (bit_or (bit_or (clear t.c_cflag cbaud) b38400) cbaudex) cbaudex
        ≡ cbaudex =
      simp mask_laws in
    ground arith

cfsetospeed-zero : (t : Termios) → effective_speed (cfsetospeed t 0) ≡ b9600
unfolding cfsetospeed
cfsetospeed-zero t =
    let extended : bit_and (bit_or (clear t.c_cflag cbaud) b9600) cbaudex ≡ 0 = simp mask_laws in
    let coded : bit_and (bit_or (clear t.c_cflag cbaud) b9600) cbaud ≡ b9600 = simp mask_laws in
    ground arith

-- Whatever was set before, the speed that termios_to_DCB reads after cfsetospeed is the speed asked
-- for, of at most 32 bits, and B9600 for 0.
pub cfsetospeed-effective_speed :
    (t : Termios) (speed : ℕ)
    → speed ≤ 0xffff_ffff
    → effective_speed (cfsetospeed t speed) ≡ (if speed == 0 then b9600 else speed)
cfsetospeed-effective_speed t zero fits = cfsetospeed-zero t
cfsetospeed-effective_speed t (suc n) fits =
    let positive : (suc n == 0) ≡ false = ground arith in
    elim (Bool-cases (clear (suc n) cbaud == 0)) [
      | inl e ↦ rw positive (cfsetospeed-within t (suc n) fits ((==_iff _ 0).0 e) (omega arith))
      | inr e ↦ rw positive (cfsetospeed-custom t (suc n) (ground arith))
    ]

-- What the DCB is given for a speed constant.
baud_rate-speed :
    (t : Termios) (dcb : Dcb) (speed : ℕ)
    → speed ≤ 0xffff_ffff
    → (termios_to_dcb (cfsetospeed t speed) dcb).1.baud_rate
      ≡ b_to_cbr (if speed == 0 then b9600 else speed)
unfolding termios_to_dcb
baud_rate-speed t dcb speed fits = ap b_to_cbr (cfsetospeed-effective_speed t speed fits)

zero_rate : (rate : ℕ) → rate ≡ 0 → b_to_cbr b9600 ≢ rate
unfolding b_to_cbr
zero_rate rate z same = ground (arith, z, same)

-- Whatever was set before, a rate of at most 32 bits that goes through translate_speed, cfsetospeed
-- and termios_to_DCB is the rate in the DCB exactly when it is not 0 and not one of the numbers that
-- are also speed constants.
pub termios_to_dcb-speed_constant_iff :
    (t : Termios) (dcb : Dcb) (rate : ℕ)
    → rate ≤ 0xffff_ffff
    → ((termios_to_dcb (cfsetospeed t (speed_constant rate)) dcb).1.baud_rate ≡ rate)
      ↔ ((is_constant rate ≡ false) × (rate ≢ 0))
termios_to_dcb-speed_constant_iff t dcb rate fits =
    let shown = baud_rate-speed t dcb (speed_constant rate) (speed_constant-fits rate fits) in
    let named = b_to_cbr-speed_constant_iff rate in
    elim (Bool-cases (speed_constant rate == 0)) [
      | inl e ↦
          let zero : rate ≡ 0 = (speed_constant-zero rate).0 ((==_iff _ 0).0 e) in
          (
            λ same. absurd (zero_rate rate zero (sym (rw e at shown) ∙ same)),
            λ (_, ne). absurd (ne zero),
          )
      | inr e ↦
          let ne : rate ≢ 0 = λ z. ground (arith, e, (speed_constant-zero rate).1 z) in
          let plain = rw e at shown in
          (λ same. (named.0 (sym plain ∙ same), ne), λ (other, _). plain ∙ named.1 other)
    ]

-- The bits of `c_cflag` outside CBAUD are left alone.
pub cfsetospeed-keep :
    (t : Termios) (speed m : ℕ)
    → speed ≤ 0xffff_ffff
    → bit_and (complement cbaud) m ≡ m
    → bit_and cbaud m ≡ 0
    → bit_and (cfsetospeed t speed).c_cflag m ≡ bit_and t.c_cflag m
unfolding cfsetospeed
cfsetospeed-keep t speed m fits p q =
    let within : clear speed cbaud ≡ 0 → bit_and speed m ≡ 0 = λ e.
      rw (sym (bit_and-of_clear speed cbaud fits (omega arith) e), bit_and_assoc, q)
        (bit_and-zero speed) in
    let put = λ (v : ℕ) (e : bit_and v m ≡ 0). keep-put t.c_cflag cbaud v m p e in
    let part : (v : ℕ) → bit_and v cbaud ≡ v → bit_and v m ≡ 0 =
      λ v e. rw (sym e, bit_and_assoc, q) (bit_and-zero v) in
    ground (
      arith,
      within,
      put speed,
      put b9600 (part b9600 refl),
      put b38400 (part b38400 refl),
      keep-set (bit_or (clear t.c_cflag cbaud) b38400) cbaudex m (part cbaudex refl),
    )
