-- ===== src/Examples/Write.antt =====
-- A device that is interrupted at first, and then takes two bytes at a time.
use cameratrack.Base.{
  ℕ, zero, suc, negsuc, ◌≡◌, refl, true, false, none, some, List, [], ◌∷◌, ◌++◌, length, arith,
}
use cameratrack.Serial.Write.{
  Output, wrote, interrupted, drain_interrupted, write_byte, write_loop, write_array, drain_loop,
  native_drain,
}
use cameratrack.Serial.Write.Laws.{write_array-AreInterrupted}

-- How many interrupts are still to come, and the bytes taken.
abbrev Device : Type 0
Device = ℕ × List ℕ

abbrev two_bytes : List ℕ → List ℕ
two_bytes (a ∷ b ∷ bs) = a ∷ b ∷ []
two_bytes bs = bs

abbrev device : Output Device
device = record {
  write = λ bs (left, taken). elim left [
    | zero ↦ (wrote (length (two_bytes bs)), (zero, taken ++ two_bytes bs))
    | suc k ↦ (interrupted, (k, taken))
  ];
  tcdrain = λ w. (drain_interrupted, w);
}

-- Test: a negative number is taken for a byte.
minus_one : write_byte device 2 (negsuc 0) (1, []) ≡ some (false, (0, 255 ∷ []))
unfolding write_byte
minus_one = refl

-- Test: the third of three bytes is not written, and nothing is thrown.
short : write_array device 3 (7 ∷ 8 ∷ 9 ∷ []) (2, []) ≡ some (false, (0, 7 ∷ 8 ∷ []))
unfolding write_array write_loop
short = refl

-- Test: after three interrupts the drain is given up.
given_up : (native_drain device true none (0, [])).0 ≡ true
unfolding native_drain drain_loop
given_up = refl

write_array-AreInterrupted_example :
    write_array device 3 (7 ∷ 8 ∷ 9 ∷ []) (2, []) ≡ some (false, (0, 7 ∷ 8 ∷ []))
write_array-AreInterrupted_example =
    write_array-AreInterrupted device (7 ∷ 8 ∷ 9 ∷ []) 2 3 (2, []) (0, []) (refl, (refl, refl))
      (λ e. absurd (ground (arith, e))) (omega arith) (omega arith)
