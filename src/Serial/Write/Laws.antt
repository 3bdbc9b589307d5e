-- ===== src/Serial/Write/Laws.antt =====
-- When writeArray ends, and what it then tells.
use cameratrack.Base.{
  ℕ, zero, suc, ◌+◌, ◌<◌, ◌≡◌, ◌≢◌, ◌⊎◌, inl, inr, refl, sym, ap, ◌∙◌, lt→ltb, some, List, length,
  arith,
}
use cameratrack.Serial.Write.{
  Written, wrote, interrupted, failed, Output, is_failure, write_loop, write_array,
}

-- So many writes of the bytes are interrupted, one after the other.
abbrev pub AreInterrupted : {W : Type 0} → Output W → List ℕ → ℕ → W → W → Type 0
AreInterrupted out body zero w w' = w ≡ w'
AreInterrupted out body (suc k) w w' =
    ((out.write body w).0 ≡ interrupted) × AreInterrupted out body k (out.write body w).1 w'

Written-cases : (r : Written) → ((n : ℕ) × (r ≡ wrote n)) ⊎ ((r ≡ interrupted) ⊎ (r ≡ failed))
Written-cases (wrote n) = inl (n, refl)
Written-cases interrupted = inr (inl refl)
Written-cases failed = inr (inr refl)

module _ {W : Type 0} (out : Output W) (body : List ℕ) where
  write_loop-ends :
      (k fuel : ℕ) (w w' : W)
      → AreInterrupted out body k w w'
      → (out.write body w').0 ≢ interrupted
      → 0 < length body
      → k < fuel
      → (total : ℕ) × (write_loop out fuel body 0 w
          ≡ some ((out.write body w').0, total, (out.write body w').1))
  unfolding write_loop
  write_loop-ends k zero w w' came other some_bytes enough = absurd (omega arith)
  write_loop-ends zero (suc fuel) w w' came other some_bytes enough =
      rw (← came) (elim (Written-cases (out.write body w).0) [
        | inl (n, e) ↦ (0 + n, rw (write_loop, e) refl)
        | inr (inl e) ↦ absurd (other (ap (λ (v : W). (out.write body v).0) (sym came) ∙ e))
        | inr (inr e) ↦ (0, rw (write_loop, e) refl)
      ])
  write_loop-ends (suc k) (suc fuel) w w' (now, came) other some_bytes enough =
      let (total, rest) =
        write_loop-ends k fuel (out.write body w).1 w' came other some_bytes (omega arith) in
      (total, rw (write_loop, now, lt→ltb 0 (length body) some_bytes) rest)

  -- However many writes of a byte array that is not empty are interrupted, with fuel for one pass
  -- more the first that is not ends writeArray: it throws if that write failed, and else it returns
  -- without an exception, whatever number of bytes the write took.
  pub write_array-AreInterrupted :
      (k fuel : ℕ) (w w' : W)
      → AreInterrupted out body k w w'
      → (out.write body w').0 ≢ interrupted
      → 0 < length body
      → k < fuel
      → write_array out fuel body w ≡ some (is_failure (out.write body w').0, (out.write body w').1)
  unfolding write_array
  write_array-AreInterrupted k fuel w w' came other some_bytes enough =
      let (total, ends) = write_loop-ends k fuel w w' came other some_bytes enough in rw ends refl
