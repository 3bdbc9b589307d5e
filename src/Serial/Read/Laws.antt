-- ===== src/Serial/Read/Laws.antt =====
-- What `read_byte_array` can return, and what is then in the buffer.
use native.Mathlib.Nat.{suc-mul}
use cameratrack.Base.{
  ℕ, zero, suc, ℤ, pos, negsuc, ◌+◌, ◌-◌, ◌*◌, ◌≤◌, ◌≡◌, ◌⊎◌, inl, inr, refl, Bool-cases, true, ltb,
  leb, Option, Option-cases, none, some, List, [], ◌∷◌, length, length-append, arith,
}
use cameratrack.Serial.Read.{
  Io, Session, Pass, done, again, after_pass, Selected, failed, timed_out, ready, Timeval, timeval,
  get_tick_count, restore, read_ready, read_selected, read_pass, read_loop, read_byte_array,
}

-- POSIX: `read` gives no more bytes than were asked for.
abbrev pub IsBounded : {W : Type 0} → Io W → Type 0
IsBounded {W} io =
    (n : ℕ) (w : W) (chunk : List ℕ) → (io.read n w).0 ≡ some chunk → length chunk ≤ n

-- A call ends with an error or with the number of bytes in the buffer, and the flag is restored.
abbrev pub IsResult : {W : Type 0} → ℕ → ℕ → ℤ → List ℕ → Session W → Type 0
IsResult flag most result got s =
    (length got ≤ most)
    × ((result ≡ negsuc 0) ⊎ (result ≡ pos (length got)))
    × (s.data_available ≡ flag)

abbrev IsFine : {W : Type 0} → ℕ → ℕ → Pass W → Type 0
IsFine flag most (done result got s) = IsResult flag most result got s
IsFine flag most (again got s) = length got ≤ most

module _ {W : Type 0} (io : Io W) (flag size most : ℕ) where
  -- Whatever the reads are known to add, the passes add no more.
  abbrev Grows : List ℕ → Type 0
  Grows got =
      (w : W) (chunk : List ℕ)
      → (io.read (size - length got) w).0 ≡ some chunk
      → length got + length chunk ≤ most

  read_ready-IsFine :
      (got : List ℕ) (s : Session W)
      → length got ≤ most
      → Grows got
      → IsFine flag most (read_ready io flag size got s)
  unfolding read_ready
  read_ready-IsFine got s small grows =
      elim (Option-cases (io.read (size - length got) s.world).0) [
        | inl e ↦ rw e (small, inl refl, refl)
        | inr ([], e) ↦ rw e small
        | inr (byte ∷ bytes, e) ↦
            rw (e, length-append got (byte ∷ bytes)) (grows s.world (byte ∷ bytes) e)
      ]

  read_selected-IsFine :
      (tv : Option Timeval) (got : List ℕ) (s : Session W)
      → length got ≤ most
      → Grows got
      → IsFine flag most (read_selected io flag size tv got s)
  unfolding read_selected
  read_selected-IsFine tv got s small grows = go (io.select tv s.world).0 (io.select tv s.world).1
    where
      go :
          (answer : Selected) (w : W)
          → IsFine flag most (elim answer [
            | failed ↦ done (negsuc 0) got (restore io flag size w)
            | timed_out ↦ again got (record s { world = w })
            | ready ↦ read_ready io flag size got (record s { world = w })
          ])
      go failed w = (small, inl refl, refl)
      go timed_out w = small
      go ready w = read_ready-IsFine got (record s { world = w }) small grows

  read_pass-IsFine :
      (timeout : ℤ) (start : ℕ) (got : List ℕ) (s : Session W)
      → length got ≤ most
      → Grows got
      → IsFine flag most (read_pass io flag size timeout start got s)
  unfolding read_pass
  read_pass-IsFine (negsuc n) start got s small grows = read_selected-IsFine none got s small grows
  read_pass-IsFine (pos timeout) start got s small grows =
      let (now, w) = get_tick_count io s.world in
      elim (Bool-cases (leb (start + timeout) now)) [
        | inl e ↦ rw e (small, inr refl, refl)
        | inr e ↦ rw e (
            read_selected-IsFine (some (timeval (start + timeout - now))) got
              (record s { world = w }) small grows)
      ]

-- The bytes allowed when so many passes are left.
module _ {W : Type 0} (io : Io W) (flag size : ℕ) (allowed : ℕ → ℕ)
    (more : (left : ℕ) → suc left ≤ 20 → allowed (suc left) ≤ allowed left)
    (grows : (left : ℕ) (got : List ℕ)
      → suc left ≤ 20
      → length got ≤ allowed (suc left)
      → ltb (length got) size ≡ true
      → Grows io flag size (allowed left) got) where
  allowed-zero : (left : ℕ) → left ≤ 20 → allowed left ≤ allowed 0
  allowed-zero zero fits = omega arith
  allowed-zero (suc left) fits = omega (arith, more left fits, allowed-zero left (omega arith))

  weaken :
      (a b : ℕ) (result : ℤ) (got : List ℕ) (s : Session W)
      → a ≤ b
      → IsResult flag a result got s
      → IsResult flag b result got s
  weaken a b result got s le (small, answer, kept) = (omega arith, answer, kept)

  read_loop-IsResult :
      (timeout : ℤ) (start left : ℕ) (got : List ℕ) (s : Session W)
      → left ≤ 20
      → length got ≤ allowed left
      → let r = read_loop io flag size timeout start left got s in
        IsResult flag (allowed 0) r.0 r.1 r.2
  unfolding read_loop
  read_loop-IsResult timeout start zero got s fits small = (small, inr refl, refl)
  read_loop-IsResult timeout start (suc left) got s fits small =
      elim (Bool-cases (ltb (length got) size)) [
        | inr e ↦ rw e (omega (arith, allowed-zero (suc left) fits), inr refl, refl)
        | inl e ↦ rw e (
            go (read_pass io flag size timeout start got s)
              (read_pass-IsFine io flag size (allowed left) timeout start got s
                (omega (arith, more left fits)) (grows left got fits small e))
              (λ got' s' le. read_loop-IsResult timeout start left got' s' (omega arith) le))
      ]
    where
      go :
          (pass : Pass W)
          → IsFine flag (allowed left) pass
          → ((got' : List ℕ) (s' : Session W)
              → length got' ≤ allowed left
              → let r = read_loop io flag size timeout start left got' s' in
                IsResult flag (allowed 0) r.0 r.1 r.2)
          → let r =
              after_pass pass (λ got' s'. read_loop io flag size timeout start left got' s') in
            IsResult flag (allowed 0) r.0 r.1 r.2
      go (done result got' s') fine next =
          weaken (allowed left) (allowed 0) result got' s' (allowed-zero left (omega arith)) fine
      go (again got' s') fine next = next got' s' fine

  pub read_byte_array-IsResult :
      (timeout : ℤ) (s : Session W)
      → s.data_available ≡ flag
      → let r = read_byte_array io size timeout s in IsResult flag (allowed 0) r.0 r.1 r.2
  unfolding read_byte_array
  read_byte_array-IsResult (negsuc n) s e = rw e (
      read_loop-IsResult (negsuc n) 0 20 [] (record s { data_available = 0 }) (omega arith)
        (omega arith))
  read_byte_array-IsResult (pos timeout) s e =
      let (start, w) = get_tick_count io s.world in
      rw e (
        read_loop-IsResult (pos timeout) start 20 [] (record { data_available = 0; world = w })
          (omega arith) (omega arith))

-- If read keeps to the count that it is asked for, read_byte_array writes no more bytes than its
-- length; it returns -1 or the number of bytes written, and the flag of the event loop is as before.
pub read_byte_array-within :
    {W : Type 0} (io : Io W) (size : ℕ) (timeout : ℤ) (s : Session W)
    → IsBounded io
    → let r = read_byte_array io size timeout s in IsResult s.data_available size r.0 r.1 r.2
read_byte_array-within io size timeout s bounded =
    read_byte_array-IsResult io s.data_available size (λ _. size) (λ left fits. omega arith)
      (λ left got fits small e w chunk came.
        omega (arith, bounded (size - length got) w chunk came))
      timeout s refl

one_pass : (c left : ℕ) → suc left ≤ 20 → (20 - left) * c ≡ (20 - suc left) * c + c
one_pass c left fits =
    let next : 20 - left ≡ suc (20 - suc left) = omega arith in rw next (suc-mul (20 - suc left) c)

-- When no single read gives more than c bytes, read_byte_array returns with at most 20 times c,
-- however many were asked for, even without a timeout.
pub read_byte_array-twenty :
    {W : Type 0} (io : Io W) (size c : ℕ) (timeout : ℤ) (s : Session W)
    → ((n : ℕ) (w : W) (chunk : List ℕ) → (io.read n w).0 ≡ some chunk → length chunk ≤ c)
    → let r = read_byte_array io size timeout s in IsResult s.data_available (20 * c) r.0 r.1 r.2
read_byte_array-twenty io size c timeout s slow =
    read_byte_array-IsResult io s.data_available size (λ left. (20 - left) * c)
      (λ left fits. omega (arith, one_pass c left fits))
      (λ left got fits small e w chunk came.
        omega (arith, one_pass c left fits, slow (size - length got) w chunk came))
      timeout s refl
