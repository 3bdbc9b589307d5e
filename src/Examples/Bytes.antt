-- ===== src/Examples/Bytes.antt =====
-- Lines are read from a device that gives one byte at a time.
use cameratrack.Base.{
  ℕ, pos, ◌≡◌, refl, ◌+◌, true, false, Option, some, on_some, List, [], ◌∷◌, ◌++◌, length,
}
use cameratrack.Serial.Read.{
  Session, read_byte_array, read_loop, read_pass, read_selected, read_ready, get_tick_count,
}
use cameratrack.Serial.Bytes.{
  Body, Answer, put_bytes, answer, terminated_loop, read_terminated_array, read_byte, read_array,
}
use cameratrack.Serial.Bytes.Reads.{AreRead, runs_on, answer_of, IsLast}
use cameratrack.Serial.Bytes.Laws.{SameBut, read_terminated_array-AreRead}
use cameratrack.Examples.Read.{device, one_byte-within}

-- A line of two bytes and a line end, and what follows.
abbrev line : Session (List ℕ)
line = record { data_available = 1; world = 65 ∷ 66 ∷ 13 ∷ 10 ∷ 67 ∷ [] }

abbrev empty : Body
empty = λ _. 0

-- What is left unread.
abbrev left_over : Option (Answer × Body × Session (List ℕ)) → Option (Answer × List ℕ)
left_over r = on_some r Option.none (λ (a, _, s). some (a, s.world))

-- Test: the line end is found, and 1 is returned for four bytes.
stops :
    left_over (read_terminated_array device (pos 10) empty 0 (pos 9) (13, 10) line)
    ≡ some (answer (pos 1), 67 ∷ [])
unfolding read_terminated_array terminated_loop read_byte_array read_loop read_pass read_selected
    read_ready get_tick_count
stops = refl

-- Test: with an offset of one, one byte is read past the line end.
runs_past :
    left_over (read_terminated_array device (pos 10) empty 1 (pos 9) (13, 10) line)
    ≡ some (answer (pos 1), [])
unfolding read_terminated_array terminated_loop read_byte_array read_loop read_pass read_selected
    read_ready get_tick_count
runs_past = refl

-- Test: a byte, and two bytes of an array.
one : (read_byte device (pos 10) 0 line).0 ≡ answer (pos 65)
unfolding read_byte read_byte_array read_loop read_pass read_selected read_ready get_tick_count
one = refl

two :
    let (a, body, _) = read_array device (pos 10) empty 3 (pos 2) line in
    (a ≡ answer (pos 2)) × (body 4 ≡ 66)
unfolding read_array read_byte_array read_loop read_pass read_selected read_ready get_tick_count
two = (refl, refl)

read_terminated_array-AreRead_example :
    (bytes : List ℕ) × (s1 : Session (List ℕ)) × AreRead device (pos 10) bytes line s1
    × (runs_on 0 9 (13, 10) 0 bytes empty ≡ true)
    × (let (result, got, s') = read_byte_array device 1 (pos 10) s1 in
        let body' = put_bytes 0 (bytes ++ got) empty in
        let total = length (bytes ++ got) in
        (read_terminated_array device (pos 10) empty 0 (pos 9) (13, 10) line
          ≡ some (answer_of result, body', s'))
        × IsLast 9 (13, 10) result total body'
        × SameBut 0 (0 + total) empty body'
        × (s'.data_available ≡ 1))
read_terminated_array-AreRead_example =
    read_terminated_array-AreRead device (pos 10) empty 0 9 (13, 10) line one_byte-within

-- Test: three bytes of the line go on, a fourth does not.
goes_on : (runs_on 0 9 (13, 10) 0 (65 ∷ 66 ∷ 13 ∷ []) empty ≡ true)
goes_on = refl

at_end : (runs_on 0 9 (13, 10) 0 (65 ∷ 66 ∷ 13 ∷ 10 ∷ []) empty ≡ false)
at_end = refl
