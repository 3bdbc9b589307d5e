-- ===== src/Serial/Loops/Spec.antt =====
-- The event loops as a list, and when the chain at `master_index` stands for it.
use cameratrack.Base.{
  ℕ, ◌≡◌, Bool, false, ◌||◌, not, ◌==◌, Option, none, some, is_some, on_some, if◌then◌else◌, List,
  [], ◌∷◌, ◌++◌,
}
use cameratrack.Chain.Seg.{Cells, has_address, AreDistinct, AllFail, first_or, Seg}
use cameratrack.Chain.Find.{update_first, update_at, remove_at}
use cameratrack.Serial.Events.{Calls, report_serial_events}
use cameratrack.Serial.Loops.{
  Loop, Loops, is_loop_of, with_flag, interrupted, cleared, read_port, Command, start, turn,
  set_flag, interrupt,
}

unfoldable pub get_at : ℕ → Cells Loop → Option Loop
get_at p [] = none
get_at p ((a, x) ∷ xs) = if p == a then some x else get_at p xs

-- A new loop is the last; a closing one is left out.
module _ {W : Type 0} (calls : Calls W) (select : W → Bool × W) where
  unfoldable pub turn_of : Loop → W → Loop × W
  turn_of loop w =
      let (fine, w1) = select w in
      let (eis, w2) = if fine then report_serial_events calls loop.eis w1 else (loop.eis, w1) in
      (record loop { eis = eis }, w2)

  unfoldable pub started : Loop → ℕ → Bool → W → Loop × W
  started loop java_fd method w =
      let (l, w1) =
        read_port calls select (cleared (record loop { initialised = false }) java_fd) w in
      (record l { initialised = method }, w1)

  unfoldable pub list_exec : Command → Cells Loop → W → Cells Loop × W
  unfolding turn_of started
  list_exec (start p loop java_fd method) xs w =
      if p == 0 || has_address p xs
      then (xs, w)
      else let (l, w1) = started loop java_fd method w in
        (if method then xs ++ (p, l) ∷ [] else xs, w1)
  list_exec (turn p) xs w =
      on_some (get_at p xs) (xs, w)
        λ loop.
          if loop.closing
          then (remove_at p xs, w)
          else let (l, w1) = turn_of loop w in (update_at p (λ _. l) xs, w1)
  list_exec (set_flag fd event flag) xs w =
      (update_first (is_loop_of fd) (with_flag event flag) xs, w)
  list_exec (interrupt fd) xs w = (update_first (is_loop_of fd) interrupted xs, w)

  unfoldable pub list_run : List Command → Cells Loop → W → Cells Loop × W
  unfolding list_exec
  list_run [] xs w = (xs, w)
  list_run (c ∷ cs) xs w = let (xs', w') = list_exec c xs w in list_run cs xs' w'

-- `master_index` leads through the loops of the list, which are initialised.
pub record IsChain (s : Loops) (xs : Cells Loop) : Type 0 where
  pub master : s.master_index ≡ first_or xs 0
  pub seg : Seg s.heap 0 xs 0
  pub distinct : AreDistinct xs

abbrev pub AreReady : Cells Loop → Type 0
AreReady = AllFail (λ (l : Loop). not l.initialised)

-- No other structure is in use.
pub record IsLinked (s : Loops) (xs : Cells Loop) : Type 0 where
  pub chain : IsChain s xs
  pub live : (a : ℕ) → is_some (s.heap a) ≡ has_address a xs
  pub ready : AreReady xs
