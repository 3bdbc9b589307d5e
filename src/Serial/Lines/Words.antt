-- ===== src/Serial/Lines/Words.antt =====
-- The modem lines in the words that TIOCMGET and TIOCMSET pass.
use cameratrack.Base.{
  ℕ, ◌≡◌, ◌≢◌, ◌≤◌, refl, ◌∙◌, sym, Bool, true, false, inl, inr, bit_and, bit_or, arith,
}
use cameratrack.Bits.{
  complement, clear, bit_and_single, bit_or-bit_and_absorb, bit_and_comm, bit_or_comm, bit_or-clear,
  zero-bit_or,
}
use cameratrack.Flags.{tiocm_cd, tiocm_rng, tiocm_dsr, tiocm_cts, tiocm_dtr, tiocm_rts}
use cameratrack.Termios.Comm.{ModemStatus}
use cameratrack.Termios.Convert.{has}
use cameratrack.Termios.Modem.{put, read_lines, store_lines}
use cameratrack.Serial.Settings.Masks.{keep-set, keep-clear, clear_self, set_self}

-- One line put into a word, seen through a mask. The premises hold by `refl` at numerals.
pub put-other :
    (on : Bool) (w m k : ℕ)
    → bit_and (complement m) k ≡ k
    → bit_and m k ≡ 0
    → bit_and (put on m w) k ≡ bit_and w k
put-other true w m k p q = keep-set w m k q
put-other false w m k p q = keep-clear w m k p

pub put-same :
    (on : Bool) (w k : ℕ) → bit_and (complement k) k ≡ 0 → k ≢ 0 → has (put on k w) k ≡ on
put-same true w k p ne = rw (set_self w k) (ground (arith, ne))
put-same false w k p ne = rw (clear_self w k p) refl

-- What TIOCMGET reports: the driver's lines, and the register's DTR and RTS.
pub read_lines-rts :
    (m : ModemStatus) (msr arg : ℕ) → has (read_lines m msr arg) tiocm_rts ≡ has msr tiocm_rts
unfolding read_lines
read_lines-rts m msr arg = put-same _ _ tiocm_rts refl (omega arith)

pub read_lines-dtr :
    (m : ModemStatus) (msr arg : ℕ) → has (read_lines m msr arg) tiocm_dtr ≡ has msr tiocm_dtr
unfolding read_lines
read_lines-dtr m msr arg =
    rw (put-other (has msr tiocm_rts) _ tiocm_rts tiocm_dtr refl refl)
      (put-same _ _ tiocm_dtr refl (omega arith))

module _ (m : ModemStatus) (msr arg : ℕ) where
  pub read_lines-cts : has (read_lines m msr arg) tiocm_cts ≡ m.cts_on
  unfolding read_lines
  read_lines-cts =
      rw
        (
          put-other (has msr tiocm_rts) _ tiocm_rts tiocm_cts refl refl,
          put-other (has msr tiocm_dtr) _ tiocm_dtr tiocm_cts refl refl,
        )
        (put-same _ _ tiocm_cts refl (omega arith))

  pub read_lines-dsr : has (read_lines m msr arg) tiocm_dsr ≡ m.dsr_on
  unfolding read_lines
  read_lines-dsr =
      rw
        (
          put-other (has msr tiocm_rts) _ tiocm_rts tiocm_dsr refl refl,
          put-other (has msr tiocm_dtr) _ tiocm_dtr tiocm_dsr refl refl,
          put-other m.cts_on _ tiocm_cts tiocm_dsr refl refl,
        )
        (put-same _ _ tiocm_dsr refl (omega arith))

  pub read_lines-rng : has (read_lines m msr arg) tiocm_rng ≡ m.ring_on
  unfolding read_lines
  read_lines-rng =
      rw
        (
          put-other (has msr tiocm_rts) _ tiocm_rts tiocm_rng refl refl,
          put-other (has msr tiocm_dtr) _ tiocm_dtr tiocm_rng refl refl,
          put-other m.cts_on _ tiocm_cts tiocm_rng refl refl,
          put-other m.dsr_on _ tiocm_dsr tiocm_rng refl refl,
        )
        (put-same _ _ tiocm_rng refl (omega arith))

  pub read_lines-cd : has (read_lines m msr arg) tiocm_cd ≡ m.rlsd_on
  unfolding read_lines
  read_lines-cd =
      rw
        (
          put-other (has msr tiocm_rts) _ tiocm_rts tiocm_cd refl refl,
          put-other (has msr tiocm_dtr) _ tiocm_dtr tiocm_cd refl refl,
          put-other m.cts_on _ tiocm_cts tiocm_cd refl refl,
          put-other m.dsr_on _ tiocm_dsr tiocm_cd refl refl,
          put-other m.ring_on _ tiocm_rng tiocm_cd refl refl,
        )
        (put-same _ _ tiocm_cd refl (omega arith))

-- The register after TIOCMSET.
pub store_lines-rts : (arg msr : ℕ) → has (store_lines arg msr) tiocm_rts ≡ has arg tiocm_rts
unfolding store_lines
store_lines-rts arg msr = put-same _ _ tiocm_rts refl (omega arith)

pub store_lines-dtr : (arg msr : ℕ) → has (store_lines arg msr) tiocm_dtr ≡ has arg tiocm_dtr
unfolding store_lines
store_lines-dtr arg msr =
    rw (put-other (has arg tiocm_rts) _ tiocm_rts tiocm_dtr refl refl)
      (put-same _ _ tiocm_dtr refl (omega arith))

-- A line that is put where it stands already changes nothing.
put-held : (w k : ℕ) → bit_and w k ≡ k → k ≢ 0 → put (has w k) k w ≡ w
put-held w k e ne =
    let held : bit_or w k ≡ w =
      bit_or_comm w k ∙ rw (bit_and_comm k w, e) at (bit_or-bit_and_absorb k w) in
    rw e (ground (arith, ne, held))

put-free : (w k : ℕ) → bit_and w k ≡ 0 → w ≤ 0xffff_ffff → k ≤ 0xffff_ffff → put (has w k) k w ≡ w
put-free w k e p q = rw e (sym (zero-bit_or (clear w k)) ∙ rw e at (bit_or-clear w k p q))

pub store_lines_self : (msr : ℕ) → msr ≤ 0xffff_ffff → store_lines msr msr ≡ msr
unfolding store_lines
store_lines_self msr p =
    let dtr : put (has msr tiocm_dtr) tiocm_dtr msr ≡ msr = elim (bit_and_single 1 msr) [
      | inl e ↦ put-free msr tiocm_dtr e p (omega arith)
      | inr e ↦ put-held msr tiocm_dtr e (omega arith)
    ] in
    rw dtr (elim (bit_and_single 2 msr) [
      | inl e ↦ put-free msr tiocm_rts e p (omega arith)
      | inr e ↦ put-held msr tiocm_rts e (omega arith)
    ])

pub store_lines-congr :
    (a b msr : ℕ)
    → has a tiocm_rts ≡ has b tiocm_rts
    → has a tiocm_dtr ≡ has b tiocm_dtr
    → store_lines a msr ≡ store_lines b msr
unfolding store_lines
store_lines-congr a b msr p q = rw (p, q)
