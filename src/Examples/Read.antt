-- ===== src/Examples/Read.antt =====
-- A reader whose device gives one byte at a time.
use cameratrack.Base.{
  ℕ, zero, suc, ◌≡◌, ◌≤◌, negsuc, pos, refl, Option, some, List, [], ◌∷◌, length, arith,
}
use cameratrack.Serial.Read.{
  Io, Session, ready, read_byte_array, read_loop, read_pass, read_selected, read_ready,
  get_tick_count,
}
use cameratrack.Serial.Read.Laws.{
  IsBounded, IsResult, read_byte_array-within, read_byte_array-twenty,
}

abbrev one_byte : ℕ → List ℕ → Option (List ℕ) × List ℕ
one_byte zero waiting = (some [], waiting)
one_byte (suc n) [] = (some [], [])
one_byte (suc n) (b ∷ waiting) = (some (b ∷ []), waiting)

abbrev pub device : Io (List ℕ)
device = record {
  gettimeofday = λ w. ((5, 1500), w);
  select = λ tv w. (ready, w);
  read = one_byte;
  usleep = λ us w. w;
}

abbrev session : Session (List ℕ)
session = record { data_available = 1; world = 7 ∷ 8 ∷ 9 ∷ [] }

-- Test: two of three bytes are asked for, with a timeout of 10 milliseconds.
read_two : (read_byte_array device 2 (pos 10) session).0 ≡ pos 2
unfolding read_byte_array read_loop read_pass read_selected read_ready get_tick_count
read_two = refl

-- Test: a timeout of 0 returns at once.
read_none : (read_byte_array device 2 (pos 0) session).0 ≡ pos 0
unfolding read_byte_array read_loop read_pass read_selected read_ready get_tick_count
read_none = refl

pub one_byte-within : IsBounded device
one_byte-within zero w chunk e = ground (arith, e)
one_byte-within (suc n) [] chunk e = ground (arith, e)
one_byte-within (suc n) (b ∷ w) chunk e = ground (arith, e)

one_byte_most : (n : ℕ) (w chunk : List ℕ) → (one_byte n w).0 ≡ some chunk → length chunk ≤ 1
one_byte_most zero w chunk e = ground (arith, e)
one_byte_most (suc n) [] chunk e = ground (arith, e)
one_byte_most (suc n) (b ∷ w) chunk e = ground (arith, e)

read_byte_array-within_example :
    let r = read_byte_array device 2 (pos 10) session in IsResult 1 2 r.0 r.1 r.2
read_byte_array-within_example = read_byte_array-within device 2 (pos 10) session one_byte-within

read_byte_array-twenty_example :
    let r = read_byte_array device 100 (negsuc 0) session in IsResult 1 20 r.0 r.1 r.2
read_byte_array-twenty_example =
    read_byte_array-twenty device 100 1 (negsuc 0) session one_byte_most
