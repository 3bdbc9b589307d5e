-- ===== src/Serial/Loops.antt =====
-- The event loops of rxtx-devel/src/SerialImp.c that run at the same time, linked at `master_index`:
-- `initialise_event_info_struct`, `finalize_event_info_struct`, `eventLoop`, `nativeSetEventFlag` and
-- `interruptEventLoop`, where TIOCSERGETLSR and TIOCGICOUNT are defined and WIN32 is not.
pub mod Spec
pub mod Steps
pub mod Ends
pub mod Turns
pub mod Run
pub mod Interrupt
use cameratrack.Base.{
  ℕ, zero, suc, Bool, true, false, ◌||◌, not, ltb, ◌==◌, Option, none, some, is_some, on_some,
  if◌then◌else◌, List, [], ◌∷◌,
}
use cameratrack.Chain.{Node, Heap, node, write, set_next, walk, detach}
use cameratrack.Termios.Comm.{Counters}
use cameratrack.Serial.Events.{Calls, Eis, report_serial_events}

-- `struct event_info_struct`: the members of Serial/Events, and those that the loops are run by.
pub record Loop : Type 0 where
  pub fd : ℕ
  pub initialised : Bool
  pub has_tiocsergetlsr : Bool
  pub closing : Bool
  pub eis : Eis

pub record Loops : Type 0 where
  pub heap : Heap Loop
  pub master_index : ℕ

abbrev pub no_counts : Counters
no_counts = record { frame = 0; overrun = 0; parity = 0; brk = 0 }

-- The eleven flags are cleared.
abbrev pub cleared : Loop → ℕ → Loop
cleared loop java_fd = record loop {
  fd = java_fd;
  closing = false;
  eis = record loop.eis {
    eventflags = λ (i : ℕ). if ltb i 11 then 0 else loop.eis.eventflags i;
    eventloop_interrupted = 0;
    osis = no_counts;
  };
}

abbrev pub is_loop_of : ℕ → Loop → Bool
is_loop_of fd loop = loop.fd == fd

abbrev pub put_item : ℕ → Node Loop → Loop → Loops → Loops
put_item p n loop s = record s { heap = write p (some (record n { item = loop })) s.heap }

abbrev pub with_flag : ℕ → ℕ → Loop → Loop
with_flag event flag loop = record loop {
  eis = record loop.eis {
    eventflags = λ (i : ℕ). if i == event then flag else loop.eis.eventflags i;
  };
}

abbrev pub interrupted : Loop → Loop
interrupted loop = record loop {
  closing = true;
  eis = record loop.eis { eventloop_interrupted = 1 };
}

-- The new last node of the list.
unfoldable pub link : ℕ → ℕ → Loop → Loops → Option Loops
unfolding walk
link fuel p loop s =
    if s.master_index == 0
    then some (record { heap = write p (some (node loop 0 0)) s.heap; master_index = p })
    else on_some (walk (λ _. false) fuel s.master_index s.heap) none λ (last, _).
      on_some (set_next last p s.heap) none
        λ h. some (record s { heap = write p (some (node loop last 0)) h })

unfoldable pub finalize_event_info_struct : ℕ → Loops → Option Loops
finalize_event_info_struct p s = on_some (s.heap p) none λ eis.
    on_some (detach eis s.heap) none λ h.
      some (record { heap = h; master_index = if eis.prev == 0 then eis.next else s.master_index })

-- `index` walks from `master_index` to a loop with the descriptor, which is changed.
unfoldable pub change_loop_of : ℕ → ℕ → (Loop → Loop) → Loops → Option Loops
change_loop_of fuel fd change s =
    if s.master_index == 0
    then some s
    else on_some (walk (is_loop_of fd) fuel s.master_index s.heap) none λ (p, index).
      if index.item.fd == fd then some (put_item p index (change index.item) s) else some s

unfoldable pub native_set_event_flag : ℕ → ℕ → ℕ → ℕ → Loops → Option Loops
unfolding change_loop_of
native_set_event_flag fuel fd event flag s = change_loop_of fuel fd (with_flag event flag) s

-- One turn of the search of `interruptEventLoop`, which goes on until the loop is there.
unfoldable pub interrupt_turn : ℕ → ℕ → Loops → Option Loops
unfolding change_loop_of
interrupt_turn fuel fd s = change_loop_of fuel fd interrupted s

module _ {W : Type 0} (calls : Calls W) (select : W → Bool × W) where
  -- What `initialise_event_info_struct` puts into a structure that is not initialised: whether the
  -- port gives its line status and its counters, and the modem lines if it gives these.
  unfoldable pub read_port : Loop → W → Loop × W
  read_port loop w =
      let (lsr, w1) = calls.tiocsergetlsr w in
      let (counts, w2) = calls.tiocgicount w1 in
      let (flags, w3) = calls.tiocmget w2 in
      (
        record loop {
          has_tiocsergetlsr = is_some lsr;
          eis = record loop.eis {
            has_tiocgicount = is_some counts;
            osis = on_some counts loop.eis.osis (λ c. c);
            omflags = on_some flags loop.eis.omflags (λ f. f);
          };
        },
        w3,
      )

  -- `method`: the class has the method sendEvent. The calls on the port do not see the list, which is
  -- changed behind them here.
  unfoldable pub initialise_event_info_struct :
      ℕ → ℕ → ℕ → Bool → Loops → W → Option (Bool × Loops × W)
  unfolding link read_port finalize_event_info_struct
  initialise_event_info_struct fuel p java_fd method s w = on_some (s.heap p) none λ n.
      if n.item.initialised
      then some (true, s, w)
      else let (loop, w1) = read_port (cleared n.item java_fd) w in
        on_some (link fuel p (record loop { initialised = method }) s) none λ s1.
          if method
          then some (true, s1, w1)
          else on_some (finalize_event_info_struct p s1) none λ s2. some (false, s2, w1)

  -- `eventLoop` up to its loop: the structure `loop` on its stack at `p` is linked, or the call ends.
  unfoldable pub event_loop_start : ℕ → ℕ → Loop → ℕ → Bool → Loops → W → Option (Loops × W)
  unfolding initialise_event_info_struct
  event_loop_start fuel p loop java_fd method s w =
      let eis : Loop = record loop { initialised = false } in
      let s0 : Loops = record s { heap = write p (some (node eis 0 0)) s.heap } in
      on_some (initialise_event_info_struct fuel p java_fd method s0 w) none λ (fine, s1, w1).
        if fine then some (s1, w1) else some (record s1 { heap = write p none s1.heap }, w1)

  -- A turn of its loop. When it is closing, the structure is unlinked and the call ends. The second
  -- `initialise_event_info_struct` finds an initialised structure.
  unfoldable pub event_loop_turn : ℕ → ℕ → Bool → Loops → W → Option (Loops × W)
  event_loop_turn fuel p method s w = on_some (s.heap p) none λ n.
      if n.item.closing
      then on_some (finalize_event_info_struct p s) none
          (λ s1. some (record s1 { heap = write p none s1.heap }, w))
      else let (fine, w1) = select w in
        let (eis, w2) =
          if fine then report_serial_events calls n.item.eis w1 else (n.item.eis, w1) in
        on_some
          (initialise_event_info_struct fuel p n.item.fd method
            (put_item p n (record n.item { eis = eis }) s) w2)
          none λ (_, s1, w3). some (s1, w3)

-- What the threads do, one step at a time. The structure of a loop is given an address that is not
-- NULL and not in use, and only a running loop takes turns.
pub data Command : Type 0 where
  start : ℕ → Loop → ℕ → Bool → Command
  turn : ℕ → Command
  set_flag : ℕ → ℕ → ℕ → Command
  interrupt : ℕ → Command

module _ {W : Type 0} (calls : Calls W) (select : W → Bool × W) where
  unfoldable pub exec : ℕ → Command → Loops → W → Option (Loops × W)
  unfolding event_loop_start event_loop_turn native_set_event_flag interrupt_turn
  exec fuel (start p loop java_fd method) s w =
      if p == 0 || is_some (s.heap p)
      then some (s, w)
      else event_loop_start calls select fuel p loop java_fd method s w
  exec fuel (turn p) s w =
      if is_some (s.heap p) then event_loop_turn calls select fuel p true s w else some (s, w)
  exec fuel (set_flag fd event flag) s w =
      on_some (native_set_event_flag fuel fd event flag s) none (λ s'. some (s', w))
  exec fuel (interrupt fd) s w = on_some (interrupt_turn fuel fd s) none (λ s'. some (s', w))

  unfoldable pub run : ℕ → List Command → Loops → W → Option (Loops × W)
  unfolding exec
  run fuel [] s w = some (s, w)
  run fuel (c ∷ cs) s w = on_some (exec fuel c s w) none (λ (s', w'). run fuel cs s' w')
