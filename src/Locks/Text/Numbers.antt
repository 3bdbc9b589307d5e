-- ===== src/Locks/Text/Numbers.antt =====
-- A process number written by `%10d` is read back.
use native.Mathlib.Nat.{pow-suc}
use cameratrack.Base.{
  ℕ, pos, zero, suc, ◌+◌, ◌-◌, ◌*◌, ◌/◌, ◌%◌, ◌^◌, ◌<◌, ◌≡◌, refl, ◌∙◌, ap, true, false, ◌==◌, some,
  arith, [], ◌∷◌, ◌++◌, length,
}
use cameratrack.Locks.Text.{
  Bytes, pad, pid_line, skip_space, read_digits, read_signed, scan_int, is_digit, is_space, fill,
}

pad-append : (w n : ℕ) (acc rest : Bytes) → pad w n acc ++ rest ≡ pad w n (acc ++ rest)
pad-append zero n acc rest = refl
pad-append (suc w) n acc rest = pad-append w (n / 10) _ rest

length-pad : (w n : ℕ) (acc : Bytes) → length (pad w n acc) ≡ w + length acc
length-pad zero n acc = omega arith
length-pad (suc w) n acc = omega (arith, length-pad w (n / 10) _)

skip_space-blanks : (w : ℕ) (acc : Bytes) → skip_space (pad w 0 acc) ≡ skip_space acc
skip_space-blanks zero acc = refl
skip_space-blanks (suc w) acc = skip_space-blanks w (32 ∷ acc)

is_digit_digit : (d : ℕ) → d < 10 → is_digit (48 + d) ≡ true
is_digit_digit d small = ground arith

pub read_digits_step :
    (k d : ℕ) (rest : Bytes)
    → d < 10
    → read_digits k ((48 + d) ∷ rest) ≡ read_digits (k * 10 + d) rest
read_digits_step k d rest small =
    let back : 48 + d - 48 ≡ d = omega arith in rw (is_digit_digit d small, back)

pub lead_digit :
    (d : ℕ) (rest : Bytes)
    → d < 10
    → read_signed (skip_space ((48 + d) ∷ rest)) ≡ some (pos (read_digits 0 ((48 + d) ∷ rest)))
lead_digit d rest small =
    let dark : is_space (48 + d) ≡ false = ground arith in
    let minus : (48 + d == 45) ≡ false = ground arith in
    let plus : (48 + d == 43) ≡ false = ground arith in
    rw (dark, minus, plus, is_digit_digit d small)

-- A padded number in front of a digit is read as the higher digits of the whole.
skip_space-pad :
    (w m d : ℕ) (rest : Bytes)
    → m < 10 ^ w
    → d < 10
    → read_signed (skip_space (pad w m ((48 + d) ∷ rest)))
      ≡ some (pos (read_digits m ((48 + d) ∷ rest)))
skip_space-pad w zero d rest fits small =
    rw (skip_space-blanks w ((48 + d) ∷ rest)) (lead_digit d rest small)
skip_space-pad zero (suc m) d rest fits small = absurd (omega arith)
skip_space-pad (suc w) (suc m) d rest fits small =
    let positive : (suc m == 0) ≡ false = ground arith in
    let whole : suc m / 10 * 10 + suc m % 10 ≡ suc m = omega arith in
    rw positive (
      skip_space-pad w (suc m / 10) (suc m % 10) ((48 + d) ∷ rest) (omega (arith, pow-suc 10 w))
        (omega arith)
      ∙ ap (λ (x : ℕ). some (pos x))
          (read_digits_step (suc m / 10) (suc m % 10) ((48 + d) ∷ rest) (omega arith) ∙ rw whole))

-- A process number below 2 ^ 31 written by %10d and a line end is read back by %d, whatever bytes
-- follow.
pub scan_int-pid_line :
    (n : ℕ) (rest : Bytes) → n < 2 ^ 31 → scan_int (pid_line n ++ rest) ≡ some (pos n)
unfolding scan_int pid_line
scan_int-pid_line n rest fits =
    let whole : n / 10 * 10 + n % 10 ≡ n = omega arith in
    let low : n % 2 ^ 32 ≡ n = omega arith in
    let digits : read_digits (n / 10) ((48 + n % 10) ∷ 10 ∷ rest) ≡ n =
      read_digits_step (n / 10) (n % 10) (10 ∷ rest) (omega arith) ∙ rw whole in
    let found : read_signed (skip_space (pad 9 (n / 10) ((48 + n % 10) ∷ 10 ∷ rest)))
        ≡ some (pos n) =
      skip_space-pad 9 (n / 10) (n % 10) (10 ∷ rest) (omega arith) (omega arith)
      ∙ ap (λ (x : ℕ). some (pos x)) digits in
    rw (pad-append 9 (n / 10) ((48 + n % 10) ∷ 10 ∷ []) rest, found, low) (ground arith)

pub length-pid_line : (n : ℕ) → length (pid_line n) ≡ 11
unfolding pid_line
length-pid_line n = length-pad 9 (n / 10) ((48 + n % 10) ∷ 10 ∷ [])

-- A full read leaves nothing of the array.
pub fill-full : (text array : Bytes) → length text ≡ length array → fill text array ≡ text
fill-full [] [] e = refl
fill-full [] (_ ∷ array) e = absurd (omega arith)
fill-full (c ∷ text) [] e = absurd (omega arith)
fill-full (c ∷ text) (_ ∷ array) e = ap (λ (t : Bytes). c ∷ t) (fill-full text array (omega arith))
