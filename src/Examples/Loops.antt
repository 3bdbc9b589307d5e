-- ===== src/Examples/Loops.antt =====
-- Two event loops, on the descriptors 3 and 4.
use cameratrack.Base.{
  ℕ, ◌+◌, ◌&&◌, ◌≡◌, refl, Bool, true, false, Option, none, some, ◌==◌, if◌then◌else◌, List, [],
  ◌∷◌, ◌++◌, arith,
}
use cameratrack.Chain.{node, write, set_next, set_prev, walk, detach}
use cameratrack.Serial.Events.{
  send_event, send_change, send_changes, send_counts, send_all_counts, check_line_status_register,
  check_cgi_count, check_tiocmget_changes, port_has_changed_fionread, report_data,
  report_serial_events,
}
use cameratrack.Serial.Loops.{
  Loop, Loops, read_port, link, finalize_event_info_struct, initialise_event_info_struct,
  event_loop_start, event_loop_turn, change_loop_of, native_set_event_flag, interrupt_turn, Command,
  start, turn, set_flag, interrupt, exec, run,
}
use cameratrack.Serial.Loops.Spec.{list_run, IsLinked}
use cameratrack.Serial.Loops.Run.{run-list_run}
use cameratrack.Serial.Loops.Interrupt.{interrupt-turn}
use cameratrack.Examples.Events.{calls, eis}

abbrev select : ℕ → Bool × ℕ
select w = (true, w + 1)

abbrev blank : Loop
blank = record { fd = 0; initialised = false; has_tiocsergetlsr = false; closing = true; eis = eis }

abbrev nothing : Loops
nothing = record { heap = λ _. none; master_index = 0 }

nothing-IsLinked : IsLinked nothing []
nothing-IsLinked = record {
  chain = record { master = refl; seg = tt; distinct = tt };
  live = λ a. refl;
  ready = tt;
}

abbrev commands : List Command
commands =
    start 5 blank 3 true
    ∷ start 9 blank 4 true
    ∷ start 7 blank 4 false
    ∷ set_flag 4 1 1
    ∷ interrupt 3
    ∷ turn 9
    ∷ turn 5
    ∷ []

-- Test: the loop on 4 is left, alone, and has reported that there is data.
abbrev what_is_left : Option (Loops × ℕ) → ℕ × Bool
what_is_left none = (0, false)
what_is_left (some (s, w)) = elim (s.heap s.master_index) [
  | none ↦ (0, false)
  | some n ↦ (n.item.fd, n.prev == 0 && n.next == 0)
]

one_loop_left : what_is_left (run calls select 7 commands nothing 0) ≡ (4, true)
unfolding run exec event_loop_start event_loop_turn initialise_event_info_struct
    finalize_event_info_struct link read_port native_set_event_flag interrupt_turn change_loop_of
    write set_next set_prev walk detach report_serial_events check_line_status_register
    check_cgi_count check_tiocmget_changes report_data port_has_changed_fionread send_all_counts
    send_counts send_changes send_change send_event
one_loop_left = refl

run-list_run_example :
    let (ys, w') = list_run calls select commands [] 0 in
    (s' : Loops) × (run calls select 7 commands nothing 0 ≡ some (s', w')) × IsLinked s' ys
run-list_run_example =
    run-list_run calls select 7 commands nothing 0 [] nothing-IsLinked (omega arith)

abbrev running : ℕ → Loop
running fd = record blank { fd = fd; initialised = true; closing = false }

abbrev two : Loops
two = record {
  heap = λ (a : ℕ).
      if a == 5
      then some (node (running 3) 0 9)
      else if a == 9
      then some (node (running 4) 5 0)
      else none;
  master_index = 5;
}

two-IsLinked : IsLinked two ((5, running 3) ∷ (9, running 4) ∷ [])
two-IsLinked = record {
  chain = record {
    master = refl;
    seg = (refl, (refl, tt));
    distinct = (ground arith, refl, (ground arith, refl, tt));
  };
  live = λ a. ground arith;
  ready = (refl, (refl, tt));
}

-- The second loop is interrupted, the first goes on and gets a flag.
interrupt-turn_example :
    let ended =
      run calls select 9
        (interrupt 4 ∷ (turn 5 ∷ set_flag 3 1 1 ∷ turn 5 ∷ []) ++ turn 9 ∷ [])
        two
        0 in
    (s' : Loops) × (w' : ℕ) × (ended ≡ some (s', w')) × (s'.heap 9 ≡ none)
interrupt-turn_example =
    interrupt-turn calls select 9 9 4 (turn 5 ∷ set_flag 3 1 1 ∷ turn 5 ∷ []) two 0
      ((5, running 3) ∷ []) (running 4) [] two-IsLinked (refl, tt) refl (refl, (refl, (refl, tt)))
      (omega arith)
