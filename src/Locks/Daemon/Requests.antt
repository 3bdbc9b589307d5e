-- ===== src/Locks/Daemon/Requests.antt =====
-- `process_requests` and the loop of `main` in rxtx-devel/src/lfd/lockdaemon.c, and the clients
-- `lfs_lock` and `lfs_unlock` of rxtx-devel/src/SerialImp.c. Each `send` is taken to be one `read` of the
-- daemon, and each `write` one `recv` of the client. The name of the host has at most 29 bytes, which is
-- what fits into the answer to "quit".
use cameratrack.Base.{
  take, drop, ℕ, zero, suc, ℤ, pos, ◌+◌, ◌-◌, ◌/◌, ◌%◌, Bool, true, false, ◌&&◌, ◌||◌, ltb, leb,
  ◌==◌, Option, none, some, on_some, if◌then◌else◌, List, [], ◌∷◌, ◌++◌, length,
}
use cameratrack.Locks.Text.{Bytes, bytes, decimal, scan_int, fill}
use cameratrack.Locks.System.{Os, Locals}
use cameratrack.Locks.Check.{or_else}
use cameratrack.Locks.Daemon.{User, fhs_lock, fhs_unlock}

abbrev pub m200 : Bytes
m200 = bytes "200 Command okay.\n"

abbrev pub m450 : Bytes
m450 = bytes "450 : File busy.\n"

abbrev pub m220 : Bytes → Bytes
m220 hostname = bytes "220 " ++ (hostname ++ bytes " Lock File Server (Version rxtx-1.5-9) ready\n")

abbrev pub m221 : Bytes → Bytes
m221 hostname =
    bytes "221 Thank you for using the Lock File service on " ++ (hostname ++ bytes "\n")

abbrev pub m500 : Bytes → Bytes
m500 str = bytes "500 '" ++ (str ++ bytes "': command not understood\n")

-- The 80 bytes of `str` after the read, where `held` is what they held before.
unfoldable pub received : Bytes → Bytes → Bytes
received held request =
    if ltb (length request) 80 && ltb 1 (length request)
    then request ++ (0 ∷ drop (length request + 1) held)
    else take 79 (fill request held) ++ (0 ∷ [])

abbrev pub to_lower : ℕ → ℕ
to_lower c = if leb 65 c && leb c 90 then c + 32 else c

-- `strncasecmp` with a word in small letters, as long as the word.
abbrev pub starts_with : Bytes → Bytes → Bool
starts_with [] str = true
starts_with (c ∷ word) [] = false
starts_with (c ∷ word) (d ∷ str) = (to_lower d == c) && starts_with word str

-- What stands before the first NUL or `stop`, which of them it is, and what follows. `none` is a read
-- behind the array.
unfoldable pub split_at : ℕ → Bytes → Option (Bytes × ℕ × Bytes)
split_at stop [] = none
split_at stop (c ∷ cs) =
    let rest = split_at stop cs in
    if (c == stop) || (c == 0)
    then some ([], c, cs)
    else on_some rest none (λ (word, end, after). some (c ∷ word, end, after))

-- `atoi` of what stands before the line end.
unfoldable pub argument : Bytes → Option ℤ
argument q = on_some (split_at 10 q) none λ (word, _, _). some (or_else (scan_int word) (pos 0))

-- Whether the daemon ends, and what it answers.
pub record Reply : Type 0 where
  pub quits : Bool
  pub text : Bytes
  pub os : Os

abbrev pub status_reply : ℕ × Os → Reply
status_reply (status, os) = record {
  quits = false;
  text = if status == 0 then m200 else m450;
  os = os;
}

-- `call` of the word and the number; without a second word, `refused`.
unfoldable pub command : (Bytes → ℤ → ℕ × Os) → Reply → Bytes → Option Reply
command call refused p = on_some (split_at 32 p) none λ (filename, end, q).
    if end == 0
    then some refused
    else on_some (argument q) none (λ pid. some (status_reply (call filename pid)))

-- The bytes before the first NUL.
abbrev pub c_string : Bytes → Bytes
c_string [] = []
c_string (c ∷ cs) = let rest = c_string cs in if c == 0 then [] else c ∷ rest

-- The request without its last two bytes is quoted in 80 bytes. `none`: it does not fit there, or the
-- request has no two bytes, and one in front of the array is written.
abbrev pub unknown : Bytes → Bytes → Os → Option Reply
unknown str request os =
    let answer = m500 (c_string (take (length request - 2) str)) in
    if leb 2 (length request) && ltb (length answer) 80
    then some (record { quits = false; text = answer; os = os })
    else none

-- `%i` of a number that is not negative.
abbrev pub number : ℕ → Bytes → Bytes
number n after = decimal (n / 10) (n / 10) ((48 + n % 10) ∷ after)

abbrev pub lock_request : Bytes → ℕ → Bytes
lock_request filename pid = bytes "lock " ++ (filename ++ (32 ∷ number pid (10 ∷ [])))

abbrev pub unlock_request : Bytes → ℕ → Bytes
unlock_request filename pid = bytes "unlock " ++ (filename ++ (32 ∷ number pid (10 ∷ [])))

-- `buffer[0] == '2'` means 0.
abbrev pub result_of : Bytes → ℕ
result_of [] = 1
result_of (c ∷ text) = if c == 50 then 0 else 1

abbrev pub nth_result : ℕ → List Bytes → ℕ
nth_result k [] = 1
nth_result zero (text ∷ texts) = result_of text
nth_result (suc k) (text ∷ texts) = nth_result k texts

module _ (user : User) (locals : Locals) (hostname held : Bytes) where
  -- One request. A read that fails is one of no bytes.
  unfoldable pub process_requests : Bytes → Os → Option Reply
  process_requests request os =
      let str = received held request in
      let busy : Bytes → Reply = λ text. record { quits = false; text = text; os = os } in
      if starts_with (bytes "quit") str
      then some (record { quits = true; text = m221 hostname; os = os })
      else if starts_with (bytes "lock") str
      then command (λ filename pid. fhs_lock user locals filename pid os) (busy m450) (drop 5 str)
      else if starts_with (bytes "unlock") str
      then command (λ filename pid. fhs_unlock locals filename pid os)
          (busy (bytes "q=0\n" ++ m450)) (drop 7 str)
      else unknown str request os

  -- The answers to requests that come one after the other, up to "quit".
  unfoldable pub serve : List Bytes → Os → Option (List Bytes × Os)
  serve [] os = some ([], os)
  serve (request ∷ requests) os = on_some (process_requests request os) none λ reply.
      let rest = serve requests reply.os in
      if reply.quits
      then some (reply.text ∷ [], reply.os)
      else on_some rest none (λ (texts, os'). some (reply.text ∷ texts, os'))

  -- What the daemon writes, the greeting first.
  unfoldable pub connection : List Bytes → Os → Option (List Bytes × Os)
  connection requests os =
      on_some (serve requests os) none λ (texts, os'). some (m220 hostname ∷ texts, os')

  -- A client that is connected. It reads the greeting, and then the answer.
  unfoldable pub lfs_lock : Bytes → ℕ → Os → Option (ℕ × Os)
  lfs_lock filename pid os =
      on_some (connection (lock_request filename pid ∷ bytes "quit\n" ∷ []) os) none
        (λ (texts, os'). some (nth_result 1 texts, os'))

  -- This one looks at the first thing it reads.
  unfoldable pub lfs_unlock : Bytes → ℕ → Os → Option (ℕ × Os)
  lfs_unlock filename pid os =
      on_some (connection (unlock_request filename pid ∷ bytes "quit\n" ∷ []) os) none
        (λ (texts, os'). some (nth_result 0 texts, os'))
