-- ===== src/Serial/Bytes.antt =====
-- `readByte`, `readArray` and `readTerminatedArray` of RXTXPort in rxtx-devel/src/SerialImp.c, on top of
-- `read_byte_array`.
pub mod Reads
pub mod Laws
use cameratrack.Base.{
  ℕ, zero, suc, ℤ, pos, negsuc, ◌+◌, ◌-◌, Bool, true, false, ◌&&◌, ltb, ◌==◌, Option, none, some,
  on_some, if◌then◌else◌, List, [], ◌∷◌,
}
use cameratrack.Serial.Read.{Io, Session, read_byte_array}

-- The bytes from `body` on. The code does not know the length of the array.
abbrev pub Body : Type 0
Body = ℕ → ℕ

abbrev pub put_bytes : ℕ → List ℕ → Body → Body
put_bytes p [] body = body
put_bytes p (b ∷ bs) body = put_bytes (p + 1) bs (λ (a : ℕ). if a == p then b else body a)

-- What Java sees: whether an exception is thrown, and the result.
pub record Answer : Type 0 where
  pub thrown : Bool
  pub result : ℤ

abbrev pub is_negative : ℤ → Bool
is_negative (pos n) = false
is_negative (negsuc n) = true

abbrev pub failure : Answer
failure = record { thrown = true; result = negsuc 0 }

abbrev pub answer : ℤ → Answer
answer result = record { thrown = false; result = result }

-- The two bytes are looked for from `body` on, without the offset.
abbrev pub is_terminated : ℕ × ℕ → ℕ → Body → Bool
is_terminated terminator total body =
    ltb 1 total && (terminator.1 == body (total - 1) && terminator.0 == body (total - 2))

module _ {W : Type 0} (io : Io W) (timeout : ℤ) where
  -- `bytes ? buffer[0] : -1`, where `held` is what the uninitialised buffer holds.
  unfoldable pub read_byte : ℕ → Session W → Answer × Session W
  read_byte held s =
      let (bytes, got, s') = read_byte_array io 1 timeout s in
      let buffer = put_bytes 0 got (λ _. held) in
      (
        elim bytes [
          | pos zero ↦ answer (negsuc 0)
          | pos (suc n) ↦ answer (pos (buffer 0))
          | negsuc n ↦ failure
        ],
        s',
      )

  -- A negative length is more than SSIZE_MAX as a `size_t`.
  unfoldable pub read_array : Body → ℕ → ℤ → Session W → Answer × Body × Session W
  read_array body offset (negsuc n) s = (failure, body, s)
  read_array body offset (pos size) s =
      let (bytes, got, s') = read_byte_array io size timeout s in
      (if is_negative bytes then failure else answer bytes, put_bytes offset got body, s')

  module _ (offset size : ℕ) (terminator : ℕ × ℕ) where
    -- The loop, with fuel for its turns.
    unfoldable pub terminated_loop : ℕ → ℕ → Body → Session W → Option (Answer × Body × Session W)
    terminated_loop zero total body s = none
    terminated_loop (suc fuel) total body s =
        let (bytes, got, s') = read_byte_array io 1 timeout s in
        let body' = put_bytes (offset + total) got body in
        elim bytes [
          | negsuc n ↦ some (failure, body', s')
          | pos n ↦
              let rest = terminated_loop fuel (total + n) body' s' in
              if is_terminated terminator (total + n) body'
              then some (answer (pos n), body', s')
              else if ltb 0 n && ltb (total + n) size
              then rest
              else some (answer (pos n), body', s')
        ]

  -- A turn that goes on adds a byte, so `size` turns are enough, but one is made in any case.
  unfoldable pub read_terminated_array :
      Body → ℕ → ℤ → ℕ × ℕ → Session W → Option (Answer × Body × Session W)
  unfolding terminated_loop
  read_terminated_array body offset (negsuc n) terminator s = some (failure, body, s)
  read_terminated_array body offset (pos size) terminator s =
      terminated_loop offset size terminator (suc size) 0 body s
