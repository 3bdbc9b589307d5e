-- ===== src/Locks/Daemon/Parse.antt =====
-- The daemon reads the requests of the clients as they are meant.
use cameratrack.Base.{
  drop, ℕ, zero, suc, ℤ, pos, ◌+◌, ◌*◌, ◌/◌, ◌%◌, ◌^◌, ◌≤◌, ◌<◌, ◌≡◌, refl, sym, ap, ◌∙◌, inl, inr,
  Bool, Bool-cases, true, false, not, ◌&&◌, ◌||◌, ◌==◌, ==_refl, lt→ltb, some, [], ◌∷◌, ◌++◌,
  length, arith,
}
use cameratrack.Locks.Text.{Bytes, decimal, scan_int, read_signed, skip_space, read_digits}
use cameratrack.Locks.Text.Numbers.{lead_digit, read_digits_step}
use cameratrack.Locks.Text.Names.{append_assoc}
use cameratrack.Locks.System.{Os, Locals}
use cameratrack.Locks.Daemon.{User, fhs_lock, fhs_unlock}
use cameratrack.Locks.Daemon.Requests.{
  received, split_at, argument, command, status_reply, number, lock_request, unlock_request, Reply,
  process_requests,
}

-- Neither a NUL nor `stop`.
abbrev pub is_clean : ℕ → Bytes → Bool
is_clean stop [] = true
is_clean stop (c ∷ cs) = not ((c == stop) || (c == 0)) && is_clean stop cs

split_at-word :
    (stop : ℕ) (word after : Bytes)
    → is_clean stop word ≡ true
    → split_at stop (word ++ (stop ∷ after)) ≡ some (word, stop, after)
unfolding split_at
split_at-word stop [] after clean = rw (==_refl stop) refl
split_at-word stop (c ∷ cs) after clean =
    let here : ((c == stop) || (c == 0)) ≡ false = ground (arith, clean) in
    rw (here, split_at-word stop cs after (ground (arith, clean))) refl

decimal-append : (f n : ℕ) (acc rest : Bytes) → decimal f n acc ++ rest ≡ decimal f n (acc ++ rest)
decimal-append zero n acc rest = refl
decimal-append (suc f) n acc rest = elim (Bool-cases (n == 0)) [
  | inl e ↦ rw e refl
  | inr e ↦ rw e (decimal-append f (n / 10) ((48 + n % 10) ∷ acc) rest)
]

decimal-is_clean :
    (f n : ℕ) (acc : Bytes) → is_clean 10 acc ≡ true → is_clean 10 (decimal f n acc) ≡ true
decimal-is_clean zero n acc clean = clean
decimal-is_clean (suc f) n acc clean =
    let digit : ((48 + n % 10 == 10) || (48 + n % 10 == 0)) ≡ false = ground arith in
    elim (Bool-cases (n == 0)) [
      | inl e ↦ rw e clean
      | inr e ↦ rw e (decimal-is_clean f (n / 10) ((48 + n % 10) ∷ acc) (rw (digit, clean) refl))
    ]

-- A number without blanks in front of a digit is read as the higher digits of the whole.
read_signed-decimal :
    (f m d : ℕ) (rest : Bytes)
    → m ≤ f
    → d < 10
    → read_signed (skip_space (decimal f m ((48 + d) ∷ rest)))
      ≡ some (pos (read_digits m ((48 + d) ∷ rest)))
read_signed-decimal zero zero d rest fits small = lead_digit d rest small
read_signed-decimal zero (suc m) d rest fits small = absurd (omega arith)
read_signed-decimal (suc f) zero d rest fits small = lead_digit d rest small
read_signed-decimal (suc f) (suc m) d rest fits small =
    let positive : (suc m == 0) ≡ false = ground arith in
    let whole : suc m / 10 * 10 + suc m % 10 ≡ suc m = omega arith in
    rw positive (
      read_signed-decimal f (suc m / 10) (suc m % 10) ((48 + d) ∷ rest) (omega arith) (omega arith)
      ∙ ap (λ (x : ℕ). some (pos x))
          (read_digits_step (suc m / 10) (suc m % 10) ((48 + d) ∷ rest) (omega arith) ∙ rw whole))

scan_int-number : (n : ℕ) → n < 2 ^ 31 → scan_int (number n []) ≡ some (pos n)
unfolding scan_int
scan_int-number n fits =
    let whole : n / 10 * 10 + n % 10 ≡ n = omega arith in
    let low : n % 2 ^ 32 ≡ n = omega arith in
    let digits : read_digits (n / 10) ((48 + n % 10) ∷ []) ≡ n =
      read_digits_step (n / 10) (n % 10) [] (omega arith) ∙ rw whole in
    let found : read_signed (skip_space (number n [])) ≡ some (pos n) =
      read_signed-decimal (n / 10) (n / 10) (n % 10) [] (omega arith) (omega arith)
      ∙ ap (λ (x : ℕ). some (pos x)) digits in
    rw (found, low) (ground arith)

argument-number :
    (n : ℕ) (after : Bytes) → n < 2 ^ 31 → argument (number n (10 ∷ []) ++ after) ≡ some (pos n)
unfolding argument
argument-number n after fits =
    let digit : ((48 + n % 10 == 10) || (48 + n % 10 == 0)) ≡ false = ground arith in
    let shape : number n (10 ∷ []) ++ after ≡ number n [] ++ (10 ∷ after) =
      decimal-append (n / 10) (n / 10) ((48 + n % 10) ∷ 10 ∷ []) after
      ∙ sym (decimal-append (n / 10) (n / 10) ((48 + n % 10) ∷ []) (10 ∷ after)) in
    rw
      (
        shape,
        split_at-word 10 (number n []) after
            (decimal-is_clean (n / 10) (n / 10) ((48 + n % 10) ∷ []) (rw digit refl)),
        scan_int-number n fits,
      )
      refl

command-words :
    (call : Bytes → ℤ → ℕ × Os) (refused : Reply) (filename : Bytes) (n : ℕ) (after : Bytes)
    → is_clean 32 filename ≡ true
    → n < 2 ^ 31
    → command call refused ((filename ++ (32 ∷ number n (10 ∷ []))) ++ after)
      ≡ some (status_reply (call filename (pos n)))
unfolding command
command-words call refused filename n after clean fits =
    rw
      (
        append_assoc filename (32 ∷ number n (10 ∷ [])) after,
        split_at-word 32 filename (number n (10 ∷ []) ++ after) clean,
        argument-number n after fits,
      )
      refl

received-short :
    (held request : Bytes)
    → 1 < length request
    → length request < 80
    → received held request ≡ request ++ (0 ∷ drop (length request + 1) held)
unfolding received
received-short held request some_bytes short =
    rw (lt→ltb (length request) 80 short, lt→ltb 1 (length request) some_bytes) refl

module _ (user : User) (locals : Locals) (hostname held filename : Bytes) (n : ℕ) (os : Os)
    (clean : is_clean 32 filename ≡ true) (fits : n < 2 ^ 31) where
  pub process_requests-lock :
      length (lock_request filename n) < 80
      → process_requests user locals hostname held (lock_request filename n) os
        ≡ some (status_reply (fhs_lock user locals filename (pos n) os))
  unfolding process_requests
  process_requests-lock short =
      rw (received-short held (lock_request filename n) (omega arith) short) (
        command-words (λ filename pid. fhs_lock user locals filename pid os) _ filename n _ clean
          fits)

  pub process_requests-unlock :
      length (unlock_request filename n) < 80
      → process_requests user locals hostname held (unlock_request filename n) os
        ≡ some (status_reply (fhs_unlock locals filename (pos n) os))
  unfolding process_requests
  process_requests-unlock short =
      rw (received-short held (unlock_request filename n) (omega arith) short) (
        command-words (λ filename pid. fhs_unlock locals filename pid os) _ filename n _ clean fits)
