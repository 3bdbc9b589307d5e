-- ===== src/Serial/Read.antt =====
-- `read_byte_array` of rxtx-devel/src/SerialImp.c outside Windows, over the calls that it makes:
-- `gettimeofday` through GetTickCount, `select` (repeated after EINTR) and `read`.
pub mod Laws
use cameratrack.Base.{
  ℕ, zero, suc, ℤ, pos, negsuc, ◌+◌, ◌-◌, ◌*◌, ◌/◌, ◌%◌, Bool, ltb, leb, Option, none, some,
  on_some, if◌then◌else◌, List, [], ◌∷◌, ◌++◌, length,
}

-- A timeout of `select` in seconds and microseconds, and its answer.
pub record Timeval : Type 0 where
  pub tv_sec : ℕ
  pub tv_usec : ℕ

pub data Selected : Type 0 where
  failed timed_out ready : Selected

-- The calls over the state `W` behind them. `select` without a Timeval waits for ever; `read` is asked
-- for a number of bytes, and answers `none` for -1.
pub record Io (W : Type 0) : Type 0 where
  pub gettimeofday : W → (ℕ × ℕ) × W
  pub select : Option Timeval → W → Selected × W
  pub read : ℕ → W → Option (List ℕ) × W
  pub usleep : ℕ → W → W

-- The port of a reader: the flag `eventflags[SPE_DATA_AVAILABLE]`, and the rest.
pub record Session (W : Type 0) : Type 0 where
  pub data_available : ℕ
  pub world : W

-- A pass of the loop ends the call, with its result and what is in the buffer, or goes on.
pub data Pass (W : Type 0) : Type 0 where
  done : ℤ → List ℕ → Session W → Pass W
  again : List ℕ → Session W → Pass W

abbrev pub after_pass :
    {W : Type 0} → Pass W → (List ℕ → Session W → ℤ × List ℕ × Session W) → ℤ × List ℕ × Session W
after_pass (done result got s) next = (result, got, s)
after_pass (again got s) next = next got s

-- Milliseconds taken apart.
abbrev pub timeval : ℕ → Timeval
timeval ms = record { tv_sec = ms / 1000; tv_usec = 1000 * (ms % 1000) }

-- Milliseconds of the seconds and microseconds of `gettimeofday`.
unfoldable pub get_tick_count : {W : Type 0} → Io W → W → ℕ × W
get_tick_count io w = let ((sec, usec), w') = io.gettimeofday w in (sec * 1000 + usec / 1000, w')

module _ {W : Type 0} (io : Io W) (flag size : ℕ) where
  abbrev pub restore : W → Session W
  restore w = record { data_available = flag; world = w }

  -- After `select`.
  unfoldable pub read_ready : List ℕ → Session W → Pass W
  read_ready got s =
      let (answer, w) = io.read (size - length got) s.world in
      on_some answer (done (negsuc 0) got (restore w)) λ chunk. elim chunk [
        | [] ↦ again got (record s { world = io.usleep 1000 w })
        | byte ∷ bytes ↦ again (got ++ (byte ∷ bytes)) (record s { world = w })
      ]

  unfoldable pub read_selected : Option Timeval → List ℕ → Session W → Pass W
  unfolding read_ready
  read_selected tv got s =
      let (answer, w) = io.select tv s.world in
      elim answer [
        | failed ↦ done (negsuc 0) got (restore w)
        | timed_out ↦ again got (record s { world = w })
        | ready ↦ read_ready got (record s { world = w })
      ]

  -- The body of the loop. A negative timeout waits without a limit.
  unfoldable pub read_pass : ℤ → ℕ → List ℕ → Session W → Pass W
  unfolding read_selected
  read_pass (negsuc n) start got s = read_selected none got s
  read_pass (pos timeout) start got s =
      let (now, w) = get_tick_count io s.world in
      if leb (start + timeout) now
      then done (pos (length got)) got (restore w)
      else read_selected (some (timeval (start + timeout - now))) got (record s { world = w })

  -- `while( bytes < length && count++ < 20 )`, with the passes that are left.
  unfoldable pub read_loop : ℤ → ℕ → ℕ → List ℕ → Session W → ℤ × List ℕ × Session W
  unfolding read_pass
  read_loop timeout start zero got s = (pos (length got), got, restore s.world)
  read_loop timeout start (suc left) got s =
      after_pass
        (if ltb (length got) size
          then read_pass timeout start got s
          else done (pos (length got)) got (restore s.world))
        λ got' s'. read_loop timeout start left got' s'

-- The result, the bytes put into the buffer, and the port afterwards.
unfoldable pub read_byte_array : {W : Type 0} → Io W → ℕ → ℤ → Session W → ℤ × List ℕ × Session W
unfolding read_loop
read_byte_array io size (negsuc n) s =
    read_loop io s.data_available size (negsuc n) 0 20 [] (record s { data_available = 0 })
read_byte_array io size (pos timeout) s =
    let (start, w) = get_tick_count io s.world in
    read_loop io s.data_available size (pos timeout) start 20 []
      (record { data_available = 0; world = w })
