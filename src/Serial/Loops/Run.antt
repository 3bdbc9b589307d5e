-- ===== src/Serial/Loops/Run.antt =====
-- Any sequence of steps of the event loops.
use mathlib.Core.Path.{subst}
use cameratrack.Base.{
  ℕ, ◌+◌, ◌≤◌, ◌≡◌, refl, sym, inl, inr, Bool, Bool-cases, Option-cases, true, false, ◌||◌, ◌==◌,
  Option, none, some, List, [], ◌∷◌, ◌++◌, length, length-append, arith, if_true, if_false,
}
use cameratrack.Chain.Seg.{Cells, has_address}
use cameratrack.Chain.Find.{
  update_first, update_at, update_at-hit, remove_at, remove_at-hit, address_split,
}
use cameratrack.Serial.Events.{Calls}
use cameratrack.Serial.Loops.{
  Loop, Loops, is_loop_of, with_flag, interrupted, native_set_event_flag, interrupt_turn,
  event_loop_turn, Command, start, turn, set_flag, interrupt, exec, run,
}
use cameratrack.Serial.Loops.Spec.{get_at, turn_of, started, list_exec, list_run, IsLinked}
use cameratrack.Serial.Loops.Steps.{change_loop_of-IsLinked}
use cameratrack.Serial.Loops.Turns.{
  event_loop_start-IsLinked, event_loop_turn-closing, event_loop_turn-going,
}

get_at-hit :
    (p : ℕ) (ys : Cells Loop) (x : Loop) (zs : Cells Loop)
    → has_address p ys ≡ false
    → get_at p (ys ++ (p, x) ∷ zs) ≡ some x
unfolding get_at
get_at-hit p [] x zs out = ground arith
get_at-hit p ((b, y) ∷ ys) x zs out =
    let other : (p == b) ≡ false = ground (arith, out) in
    rw other (get_at-hit p ys x zs (ground (arith, out)))

get_at-miss : (p : ℕ) (xs : Cells Loop) → has_address p xs ≡ false → get_at p xs ≡ none
unfolding get_at
get_at-miss p [] out = refl
get_at-miss p ((b, y) ∷ xs) out =
    let other : (p == b) ≡ false = ground (arith, out) in
    rw other (get_at-miss p xs (ground (arith, out)))

module _ {A : Type 0} where
  length-update_first :
      (stop : A → Bool) (f : A → A) (xs : Cells A) → length (update_first stop f xs) ≡ length xs
  unfolding update_first
  length-update_first stop f [] = refl
  length-update_first stop f (x ∷ xs) = ground (arith, length-update_first stop f xs)

  length-update_at : (p : ℕ) (f : A → A) (xs : Cells A) → length (update_at p f xs) ≡ length xs
  unfolding update_at
  length-update_at p f [] = refl
  length-update_at p f (x ∷ xs) = ground (arith, length-update_at p f xs)

  length-remove_at : (p : ℕ) (xs : Cells A) → length (remove_at p xs) ≤ length xs
  unfolding remove_at
  length-remove_at p [] = omega arith
  length-remove_at p (x ∷ xs) = ground (arith, length-remove_at p xs)

-- The states that a step leads to stand for the list that the step on the list gives.
module _ {W : Type 0} (calls : Calls W) (select : W → Bool × W) where
  abbrev Agrees : Option (Loops × W) → Cells Loop × W → Type 0
  Agrees r (xs, w) = (s : Loops) × (r ≡ some (s, w)) × IsLinked s xs

  turn-Agrees :
      (fuel p : ℕ) (s : Loops) (w : W) (ys : Cells Loop) (x : Loop) (zs : Cells Loop)
      → has_address p ys ≡ false
      → IsLinked s (ys ++ (p, x) ∷ zs)
      → Agrees
          (event_loop_turn calls select fuel p true s w)
          (list_exec calls select (turn p) (ys ++ (p, x) ∷ zs) w)
  unfolding list_exec
  turn-Agrees fuel p s w ys x zs out l = elim (Bool-cases x.closing) [
    | inl e ↦
        let (s', done, less) = event_loop_turn-closing calls select fuel p s w ys x zs l e in
        subst (Agrees (event_loop_turn calls select fuel p true s w))
          (sym (rw (get_at-hit p ys x zs out, remove_at-hit p ys x zs out) (if_true _ _ e)))
          (s', done, less)
    | inr e ↦
        let (s', done, same) = event_loop_turn-going calls select fuel p s w ys x zs l e in
        let new = (turn_of calls select x w).0 in
        subst (Agrees (event_loop_turn calls select fuel p true s w))
          (sym (
            rw (get_at-hit p ys x zs out, update_at-hit p (λ _. new) ys x zs out) (if_false _ _ e)))
          (s', done, same)
  ]

  exec-Agrees :
      (fuel : ℕ) (c : Command) (s : Loops) (w : W) (xs : Cells Loop)
      → IsLinked s xs
      → length xs ≤ fuel
      → Agrees (exec calls select fuel c s w) (list_exec calls select c xs w)
  unfolding exec list_exec native_set_event_flag interrupt_turn
  exec-Agrees fuel (start p loop java_fd method) s w xs l enough =
      elim (Bool-cases (p == 0 || has_address p xs)) [
        | inl e ↦ rw (l.live p, e) (s, refl, l)
        | inr e ↦
            rw (l.live p, e)
              (event_loop_start-IsLinked calls select fuel p loop java_fd method s w xs l
                (ground (arith, e)) (ground (arith, e)) enough)
      ]
  exec-Agrees fuel (turn p) s w xs l enough = elim (Bool-cases (has_address p xs)) [
    | inr e ↦ rw (l.live p, e, get_at-miss p xs e) (s, refl, l)
    | inl e ↦
        let (ys, x, zs, parts, out) = address_split p xs e in
        let step = turn-Agrees fuel p s w ys x zs out (subst (IsLinked s) parts l) in
        rw (l.live p, e)
          (subst
            (λ (r : Cells Loop).
              Agrees (event_loop_turn calls select fuel p true s w)
                (list_exec calls select (turn p) r w))
            (sym parts) step)
  ]
  exec-Agrees fuel (set_flag fd event flag) s w xs l enough =
      let (s', done, l') =
        change_loop_of-IsLinked fuel fd (with_flag event flag) s xs (λ x. refl) l enough in
      rw done (s', refl, l')
  exec-Agrees fuel (interrupt fd) s w xs l enough =
      let (s', done, l') = change_loop_of-IsLinked fuel fd interrupted s xs (λ x. refl) l enough in
      rw done (s', refl, l')

  list_exec-length :
      (c : Command) (xs : Cells Loop) (w : W)
      → length (list_exec calls select c xs w).0 ≤ length xs + 1
  unfolding list_exec
  list_exec-length (start p loop java_fd method) xs w =
      let (l, w1) = started calls select loop java_fd method w in
      ground (arith, length-append xs ((p, l) ∷ []))
  list_exec-length (turn p) xs w = elim (Option-cases (get_at p xs)) [
    | inl e ↦ rw e (omega arith)
    | inr (x, e) ↦ rw e (
        ground
          (arith, length-remove_at p xs, length-update_at p (λ _. (turn_of calls select x w).0) xs))
  ]
  list_exec-length (set_flag fd event flag) xs w =
      omega (arith, length-update_first (is_loop_of fd) (with_flag event flag) xs)
  list_exec-length (interrupt fd) xs w =
      omega (arith, length-update_first (is_loop_of fd) interrupted xs)

  -- From a chain at master_index that stands for a list of initialised loops, with no other
  -- structure in use, any sequence of starts, turns, flags set and interrupts follows no bad
  -- pointer, needs no more fuel than there are loops and steps, and ends with a chain that stands
  -- for the list that the same steps on lists give: a start puts a loop last, a closing one drops
  -- out, a flag and an interrupt change the first loop of the descriptor.
  pub run-list_run :
      (fuel : ℕ) (commands : List Command) (s : Loops) (w : W) (xs : Cells Loop)
      → IsLinked s xs
      → length xs + length commands ≤ fuel
      → let (ys, w') = list_run calls select commands xs w in
        (s' : Loops) × (run calls select fuel commands s w ≡ some (s', w')) × IsLinked s' ys
  unfolding run list_run
  run-list_run fuel [] s w xs l enough = (s, refl, l)
  run-list_run fuel (c ∷ cs) s w xs l enough =
      let (xs', w') = list_exec calls select c xs w in
      let (s', done, l') = exec-Agrees fuel c s w xs l (omega arith) in
      rw done (run-list_run fuel cs s' w' xs' l' (omega (arith, list_exec-length c xs w)))
